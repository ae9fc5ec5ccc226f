-- ===== src/Response/Framing.antt =====
-- libnet/net_httpresponse.h: the output of `doStaticResponse` as a client reads it.
use c_s_online_library.Buffer.Defs.{DataBuffer, fresh, append, append_string}
use c_s_online_library.Common.{
  ℕ, suc, ◌+◌, ◌≡◌, ◌≢◌, ◌<◌, ◌^◌, refl, ap, ◌∙◌, Bool, true, false, Option, none, some, List, [],
  ◌∷◌, ◌++◌, append_assoc, Bytes, codes, crlf, search_for, Lacks, All, All-append, take,
  take_length, take_all, length, length-append, ◌≤◌, drop, arith, if◌then◌else◌, Bool-cases,
  Option-cases, bytes_eq, subst, inl, inr, pos, to_int_small, to_string, IsDigit, to_string-IsDigit,
}
use c_s_online_library.Response.Defs.{
  GHttpResponse, Host, put, put_head, message_of, get_file_type, do_static_response, find_type,
  suffix_of, suffix_to_type,
}

-- "\r\n\r\n"
abbrev pub blank_line : Bytes
blank_line = 13 ∷ 10 ∷ 13 ∷ 10 ∷ []

-- What a client takes for the body: all behind the first empty line.
unfoldable pub body_of : Bytes → Bytes
body_of out = drop (search_for blank_line out + 4) out

abbrev pub lines_text : List Bytes → Bytes → Bytes
lines_text [] rest = rest
lines_text (l ∷ ls) rest = l ++ (crlf ++ lines_text ls rest)

-- A line of the head: not empty, with no '\r'.
abbrev pub IsLine : Bytes → Type 0
IsLine l = (l ≢ []) × Lacks 13 l

body_of-byte : (x : ℕ) (w : Bytes) → x ≢ 13 → body_of (x ∷ w) ≡ body_of w
unfolding body_of search_for
body_of-byte x w h =
    let e : suc (search_for blank_line w) + 4 ≡ suc (search_for blank_line w + 4) = omega arith in
    ground (arith, e)

body_of-line : (l w : Bytes) → Lacks 13 l → body_of (l ++ w) ≡ body_of w
body_of-line [] w h = refl
body_of-line (x ∷ l) w h = body_of-byte x (l ++ w) h.0 ∙ body_of-line l w h.1

body_of-break : (y : ℕ) (w : Bytes) → y ≢ 13 → body_of (13 ∷ 10 ∷ y ∷ w) ≡ body_of (y ∷ w)
unfolding body_of search_for
body_of-break y w h =
    let e : suc (suc (search_for blank_line (y ∷ w))) + 4
        ≡ suc (suc (search_for blank_line (y ∷ w) + 4)) =
      omega arith in
    ground (arith, e)

body_of-end : (text : Bytes) → body_of (blank_line ++ text) ≡ text
unfolding body_of search_for
body_of-end text = refl

-- The body behind a head of one line or more.
pub body_of-lines_text :
    (l : Bytes) (ls : List Bytes) (text : Bytes)
    → All IsLine (l ∷ ls)
    → body_of (lines_text (l ∷ ls) (crlf ++ text)) ≡ text
body_of-lines_text l [] text h = body_of-line l _ h.0.1 ∙ body_of-end text
body_of-lines_text l ([] ∷ ls) text h = absurd (h.1.0.0 refl)
body_of-lines_text l ((y ∷ m) ∷ ls) text h =
    body_of-line l _ h.0.1 ∙ body_of-break y _ h.1.0.1.0 ∙ body_of-lines_text (y ∷ m) ls text h.1

-- An append below 2 GiB
pub put-char_vec :
    (s : Bytes) → length s < 2 ^ 31 → (out : DataBuffer) → (put out s).char_vec ≡ out.char_vec ++ s
unfolding append_string append
put-char_vec s h out =
    ap (λ i. (append out (some s) i).0.char_vec) (to_int_small (length s) h)
    ∙ ap (λ t. out.char_vec ++ t) (take_length s)

-- A line that is below 2 GiB with its line break
abbrev pub IsShort : Bytes → Type 0
IsShort l = length (l ++ crlf) < 2 ^ 31

length-part : (l m : Bytes) → length l ≤ length (l ++ m)
length-part l m = omega (arith, length-append l m)

-- The lines of a text below 2 GiB, and what is behind them
pub lines_text-IsShort :
    (ls : List Bytes) (rest : Bytes)
    → length (lines_text ls rest) < 2 ^ 31
    → All IsShort ls × (length rest < 2 ^ 31)
lines_text-IsShort [] rest h = (tt, h)
lines_text-IsShort (l ∷ ls) rest h =
    let sum = length-append l (crlf ++ lines_text ls rest) in
    let end = length-append l crlf in
    let (short, less) = lines_text-IsShort ls rest (omega (arith, h, sum)) in
    ((omega (arith, h, sum, end), short), less)

-- The lines of the head, as HTTP writes them.
abbrev pub head_lines : GHttpResponse → Bytes → ℕ → List Bytes
head_lines r message size =
    (codes "HTTP/1.1 " ++ (to_string r.status_code ++ (codes " " ++ message)))
      ∷ (if r.keep_alive
          then codes "Connection: Keep-Alive" ∷ (codes "Keep-Alive: timeout=" ++ to_string 500) ∷ []
          else codes "Connection: close" ∷ [])
    ++ ((codes "Content-type: " ++ (get_file_type r ++ codes ";charset=utf-8"))
        ∷ (codes "Content-length: " ++ to_string size)
        ∷ codes "Server: gHTTP"
        ∷ [])

-- The writes of a head, for any lines.
puts_lines :
    (keep : Bool) (a b1 b2 b3 c d e : Bytes)
    → All IsShort (a ∷ (if keep then b1 ∷ b2 ∷ [] else b3 ∷ []) ++ (c ∷ d ∷ e ∷ []))
    → let o1 = put fresh (a ++ crlf) in
      let o2 = if keep then put (put o1 (b1 ++ crlf)) (b2 ++ crlf) else put o1 (b3 ++ crlf) in
      (put (put (put (put o2 (c ++ crlf)) (d ++ crlf)) (e ++ crlf)) crlf).char_vec
      ≡ lines_text (a ∷ (if keep then b1 ∷ b2 ∷ [] else b3 ∷ []) ++ (c ∷ d ∷ e ∷ [])) crlf
puts_lines true a b1 b2 b3 c d e h = simp (
  put-char_vec (a ++ crlf) h.0,
  put-char_vec (b1 ++ crlf) h.1.0,
  put-char_vec (b2 ++ crlf) h.1.1.0,
  put-char_vec (c ++ crlf) h.1.1.1.0,
  put-char_vec (d ++ crlf) h.1.1.1.1.0,
  put-char_vec (e ++ crlf) h.1.1.1.1.1.0,
  put-char_vec crlf (omega arith),
  append_assoc,
)
puts_lines false a b1 b2 b3 c d e h = simp (
  put-char_vec (a ++ crlf) h.0,
  put-char_vec (b3 ++ crlf) h.1.0,
  put-char_vec (c ++ crlf) h.1.1.0,
  put-char_vec (d ++ crlf) h.1.1.1.0,
  put-char_vec (e ++ crlf) h.1.1.1.1.0,
  put-char_vec crlf (omega arith),
  append_assoc,
)

pub put_head_lines :
    (r : GHttpResponse) (message : Bytes) (size : ℕ)
    → All IsShort (head_lines r message size)
    → (put_head r fresh message size).char_vec ≡ lines_text (head_lines r message size) crlf
unfolding put_head
put_head_lines r message size short =
    puts_lines r.keep_alive
      (codes "HTTP/1.1 " ++ (to_string r.status_code ++ (codes " " ++ message)))
      (codes "Connection: Keep-Alive") (codes "Keep-Alive: timeout=" ++ to_string 500)
      (codes "Connection: close")
      (codes "Content-type: " ++ (get_file_type r ++ codes ";charset=utf-8"))
      (codes "Content-length: " ++ to_string size) (codes "Server: gHTTP") short

abbrev pub TextLacks : Option Bytes → Type 0
TextLacks none = Unit
TextLacks (some t) = Lacks 13 t

pub message_of-Lacks : (code : ℕ) → TextLacks (message_of code)
unfolding message_of
message_of-Lacks code = ground arith

find_type-Lacks :
    (suffix : Bytes) (table : List (Bytes × Bytes))
    → All (λ e. Lacks 13 e.1) table
    → TextLacks (find_type suffix table)
unfolding find_type
find_type-Lacks suffix [] h = tt
find_type-Lacks suffix ((s, t) ∷ table) h = elim (Bool-cases (bytes_eq s suffix)) [
  | inl e ↦ rw e h.0
  | inr e ↦ rw e (find_type-Lacks suffix table h.1)
]

table-Lacks : All (λ e. Lacks 13 e.1) suffix_to_type
table-Lacks = omega arith

default-Lacks : (cgi : Bool) → Lacks 13 (if cgi then codes "text/html" else codes "text/plain")
default-Lacks true = omega arith
default-Lacks false = omega arith

get_file_type-Lacks : (r : GHttpResponse) → Lacks 13 (get_file_type r)
unfolding get_file_type
get_file_type-Lacks r = elim (Option-cases (suffix_of r.path)) [
  | inl e ↦ rw (e, get_file_type) (default-Lacks r.cgi)
  | inr (s, e) ↦ elim (Option-cases (find_type s suffix_to_type)) [
    | inl n ↦ rw (e, get_file_type) (rw (n, get_file_type) (default-Lacks r.cgi))
    | inr (t, f) ↦
        rw (e, get_file_type)
          (rw (f, get_file_type) (subst TextLacks f (find_type-Lacks s suffix_to_type table-Lacks)))
  ]
]

digits-Lacks : (xs : Bytes) → All IsDigit xs → Lacks 13 xs
digits-Lacks [] h = tt
digits-Lacks (x ∷ xs) h = (omega (arith, h.0), digits-Lacks xs h.1)

pub to_string-Lacks : (n : ℕ) → Lacks 13 (to_string n)
to_string-Lacks n = digits-Lacks (to_string n) (to_string-IsDigit n)

pub head_lines-IsLine :
    (r : GHttpResponse) (message : Bytes) (size : ℕ)
    → Lacks 13 message
    → All IsLine (head_lines r message size)
head_lines-IsLine r message size h = (first, All-append IsLine _ _ (connection r.keep_alive) rest)
  where
    first : IsLine (codes "HTTP/1.1 " ++ (to_string r.status_code ++ (codes " " ++ message)))
    first = (
      (λ e. cc),
      All-append _ (codes "HTTP/1.1 ") _ (omega arith) (
          All-append _ (to_string r.status_code) _ (to_string-Lacks r.status_code)
            (omega arith, h)),
    )

    connection :
        (k : Bool)
        → All IsLine (
            if k
            then codes "Connection: Keep-Alive"
              ∷ (codes "Keep-Alive: timeout=" ++ to_string 500)
              ∷ []
            else codes "Connection: close" ∷ [])
    connection true = (
      ((λ e. cc), omega arith),
      (
        (
          (λ e. cc),
          All-append _ (codes "Keep-Alive: timeout=") _ (omega arith) (to_string-Lacks 500),
        ),
        tt,
      ),
    )
    connection false = (((λ e. cc), omega arith), tt)

    rest : All IsLine (
        (codes "Content-type: " ++ (get_file_type r ++ codes ";charset=utf-8"))
        ∷ (codes "Content-length: " ++ to_string size)
        ∷ codes "Server: gHTTP"
        ∷ [])
    rest = (
      (
        (λ e. cc),
        All-append _ (codes "Content-type: ") _ (omega arith)
            (All-append _ (get_file_type r) _ (get_file_type-Lacks r) (omega arith)),
      ),
      (
        ((λ e. cc), All-append _ (codes "Content-length: ") _ (omega arith) (to_string-Lacks size)),
        (((λ e. cc), omega arith), tt),
      ),
    )

pub lines_text-append :
    (ls : List Bytes) (rest text : Bytes)
    → lines_text ls rest ++ text ≡ lines_text ls (rest ++ text)
lines_text-append [] rest text = refl
lines_text-append (l ∷ ls) rest text =
    append_assoc l (crlf ++ lines_text ls rest) text
    ∙ ap (λ t. l ++ (crlf ++ t)) (lines_text-append ls rest text)

do_static_response_text :
    (host : Host) (r : GHttpResponse) (size : ℕ) (message text : Bytes)
    → message_of r.status_code ≡ some message
    → host.map_file r.path size ≡ some text
    → length text ≡ size
    → size < 2 ^ 31
    → (do_static_response host r fresh (pos size)).char_vec
      ≡ (put_head r fresh message size).char_vec ++ text
unfolding do_static_response append
do_static_response_text host r size message text m f len small =
    let whole : take size text ≡ text = take_all size text (omega arith) in
    rw (m, do_static_response)
      (rw (f, do_static_response) (rw (to_int_small size small) (rw whole refl)))

-- A mapped file, whose mapping has `size` bytes, and which is below 2 GiB together with the head: the
-- output is the head's lines, an empty line and
-- the file. The head declares `size` as the Content-length, and a client that cuts the output at
-- its first empty line gets the file.
pub do_static_response_framed :
    (host : Host) (r : GHttpResponse) (size : ℕ) (message text : Bytes)
    → message_of r.status_code ≡ some message
    → host.map_file r.path size ≡ some text
    → length text ≡ size
    → length (lines_text (head_lines r message size) (crlf ++ text)) < 2 ^ 31
    → let out = (do_static_response host r fresh (pos size)).char_vec in
      (out ≡ lines_text (head_lines r message size) (crlf ++ text)) × (body_of out ≡ text)
do_static_response_framed host r size message text m f len total = (
  framed,
  ap body_of framed ∙ body_of-lines_text _ _ text (head_lines-IsLine r message size lacks),
)
  where
    short : All IsShort (head_lines r message size)
    short = (lines_text-IsShort (head_lines r message size) (crlf ++ text) total).0

    small : size < 2 ^ 31
    small =
        let less = (lines_text-IsShort (head_lines r message size) (crlf ++ text) total).1 in
        omega (arith, less, len)

    lacks : Lacks 13 message
    lacks = subst TextLacks m (message_of-Lacks r.status_code)

    framed :
        (do_static_response host r fresh (pos size)).char_vec
        ≡ lines_text (head_lines r message size) (crlf ++ text)
    framed =
        do_static_response_text host r size message text m f len small
        ∙ ap (λ t. t ++ text) (put_head_lines r message size short)
        ∙ lines_text-append (head_lines r message size) crlf text
