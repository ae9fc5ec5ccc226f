-- ===== src/Request/Render.antt =====
-- The text of a request head, and what `__parseRequestLine` and `__addHeader` read from it.
use c_s_online_library.Common.{
  ℕ, ◌≡◌, ◌≢◌, refl, sym, Bool, true, Option, none, some, List, [], ◌∷◌, ◌++◌, Bytes, codes, crlf,
  bytes_eq, Lacks, All, All-append, find-Lacks, Splits, find-Splits, arith, if◌then◌else◌,
}
use c_s_online_library.Request.Defs.{
  HttpMethod, invalid, HttpVersion, un_known, http1_0, http1_1, NetHttpRequest, web_root,
  store_header, method_name,
}
use c_s_online_library.Request.Parse.{
  set_method, set_target, set_version, parse_version, parse_target, parse_request_line, skip_blanks,
  trim_blanks, add_header,
}

pub record Head : Type 0 where
  pub method : HttpMethod
  pub path : Bytes
  pub query : Option Bytes
  pub version : HttpVersion
  pub headers : List (Bytes × Bytes)

abbrev pub target_text : Bytes → Option Bytes → Bytes
target_text path none = path
target_text path (some q) = path ++ (b'?' ∷ q)

abbrev pub version_text : HttpVersion → Bytes
version_text un_known = []
version_text http1_0 = codes "HTTP/1.0"
version_text http1_1 = codes "HTTP/1.1"

-- "GET /path?query HTTP/1.1"
abbrev pub line_text : Head → Bytes
line_text h =
    method_name h.method ++ (b' ' ∷ (target_text h.path h.query ++ (b' ' ∷ version_text h.version)))

-- "key: value", one to a line
abbrev pub headers_text : List (Bytes × Bytes) → Bytes → Bytes
headers_text [] rest = rest
headers_text ((k, v) ∷ hs) rest = (k ++ (b':' ∷ b' ' ∷ v)) ++ (crlf ++ headers_text hs rest)

-- The whole head, with its empty line, in front of `rest`.
abbrev pub head_text : Head → Bytes → Bytes
head_text h rest = line_text h ++ (crlf ++ headers_text h.headers (crlf ++ rest))

abbrev pub NoTrailing : Bytes → Type 0
NoTrailing [] = Unit
NoTrailing (x ∷ []) = x ≢ b' '
NoTrailing (x ∷ y ∷ ys) = NoTrailing (y ∷ ys)

abbrev pub NoLeading : Bytes → Type 0
NoLeading [] = Unit
NoLeading (x ∷ xs) = x ≢ b' '

pub record IsHeader (h : Bytes × Bytes) : Type 0 where
  pub key_colon : Lacks b':' h.0
  pub key_break : Lacks 13 h.0
  pub value_break : Lacks 13 h.1
  pub leading : NoLeading h.1
  pub trailing : NoTrailing h.1

abbrev pub QueryLacks : ℕ → Option Bytes → Type 0
QueryLacks c none = Unit
QueryLacks c (some q) = Lacks c q

-- A head that the format can express.
pub record IsHead (h : Head) : Type 0 where
  pub known : h.method ≢ invalid
  pub versioned : h.version ≢ un_known
  pub path_blank : Lacks b' ' h.path
  pub path_query : Lacks b'?' h.path
  pub path_break : Lacks 13 h.path
  pub query_blank : QueryLacks b' ' h.query
  pub query_break : QueryLacks 13 h.query
  pub headers_fit : All IsHeader h.headers

-- "/" stands for the index page.
abbrev pub file_path : Bytes → Bytes
file_path p = web_root ++ (if bytes_eq p (codes "/") then codes "/index.html" else p)

-- A query is stored, and marks the request for CGI; without one nothing is.
abbrev pub query_or : Option Bytes → Bytes → Bytes
query_or none old = old
query_or (some q) old = q

abbrev pub cgi_or : Option Bytes → Bool → Bool
cgi_or none old = old
cgi_or (some q) old = true

abbrev pub with_target : NetHttpRequest → Bytes → Option Bytes → NetHttpRequest
with_target r path q = record r {
  path = file_path path;
  query = query_or q r.query;
  cgi = cgi_or q r.cgi;
}

abbrev pub with_line : NetHttpRequest → Head → NetHttpRequest
with_line r h = record (with_target (record r { method = h.method }) h.path h.query) {
  version = h.version;
}

set_target_text :
    (r : NetHttpRequest) (path : Bytes) (q : Option Bytes)
    → Lacks b'?' path
    → set_target r (target_text path q) ≡ with_target r path q
unfolding set_target
set_target_text r path none h = ground (arith, find-Lacks b'?' path h)
set_target_text r path (some q) h =
    let s = find-Splits b'?' path q h in rw (s.inside, s.taken, s.dropped)

parse_version_text :
    (r : NetHttpRequest) (v : HttpVersion)
    → v ≢ un_known
    → parse_version r (version_text v) ≡ (record r { version = v }, true)
unfolding parse_version set_version bytes_eq
parse_version_text r un_known h = absurd (h refl)
parse_version_text r http1_0 h = refl
parse_version_text r http1_1 h = refl

trim_blanks-NoTrailing : (v : Bytes) → NoTrailing v → trim_blanks v ≡ v
unfolding trim_blanks
trim_blanks-NoTrailing [] h = refl
trim_blanks-NoTrailing (x ∷ []) h = ground arith
trim_blanks-NoTrailing (x ∷ y ∷ ys) h = rw (trim_blanks-NoTrailing (y ∷ ys) h, trim_blanks)

skip_blanks-NoLeading : (v : Bytes) → NoLeading v → skip_blanks v ≡ v
unfolding skip_blanks
skip_blanks-NoLeading [] h = refl
skip_blanks-NoLeading (x ∷ xs) h = ground arith

method_name-Lacks : (m : HttpMethod) → Lacks b' ' (method_name m) × Lacks 13 (method_name m)
unfolding method_name
method_name-Lacks invalid = omega arith
method_name-Lacks _ = omega arith

target_text-Lacks :
    (c : ℕ) (path : Bytes) (q : Option Bytes)
    → c ≢ b'?'
    → Lacks c path
    → QueryLacks c q
    → Lacks c (target_text path q)
target_text-Lacks c path none ne h k = h
target_text-Lacks c path (some q) ne h k = All-append _ path (b'?' ∷ q) h ((λ e. ne (sym e)), k)

version_text-Lacks : (v : HttpVersion) → Lacks 13 (version_text v)
version_text-Lacks un_known = omega arith
version_text-Lacks _ = omega arith

pub line_text-Lacks : (h : Head) → IsHead h → Lacks 13 (line_text h)
line_text-Lacks h w = All-append _ (method_name h.method) _ (method_name-Lacks h.method).1 (
  omega arith,
  All-append _ (target_text h.path h.query) _
      (target_text-Lacks 13 h.path h.query (omega arith) w.path_break w.query_break)
      (omega arith, version_text-Lacks h.version),
)

parse_target_text :
    (r : NetHttpRequest) (h : Head)
    → IsHead h
    → parse_target r (target_text h.path h.query ++ (b' ' ∷ version_text h.version))
      ≡ (record (with_target r h.path h.query) { version = h.version }, true)
unfolding parse_target
parse_target_text r h w =
    let s =
      find-Splits b' ' (target_text h.path h.query) (version_text h.version)
        (target_text-Lacks b' ' h.path h.query (omega arith) w.path_blank w.query_blank) in
    rw (s.inside, s.taken, s.dropped, set_target_text r h.path h.query w.path_query)
      (parse_version_text _ h.version w.versioned)

set_method_text :
    (r : NetHttpRequest) (m : HttpMethod)
    → m ≢ invalid
    → set_method r (method_name m) ≡ (record r { method = m }, true)
unfolding set_method method_name bytes_eq
set_method_text r invalid h = absurd (h refl)
set_method_text r _ h = refl

-- The request line of a head is read back.
pub parse_request_line_text :
    (r : NetHttpRequest) (h : Head)
    → IsHead h
    → parse_request_line r (line_text h) ≡ (with_line r h, true)
unfolding parse_request_line
parse_request_line_text r h w =
    let s =
      find-Splits b' ' (method_name h.method)
        (target_text h.path h.query ++ (b' ' ∷ version_text h.version))
        (method_name-Lacks h.method).0 in
    rw (s.inside, s.taken, s.dropped, set_method_text r h.method w.known) (parse_target_text _ h w)

-- The line of a header, up to its break.
abbrev pub header_line : Bytes → Bytes → Bytes
header_line k v = k ++ (b':' ∷ b' ' ∷ v)

pub header_line-Lacks : (k v : Bytes) → IsHeader (k, v) → Lacks 13 (header_line k v)
header_line-Lacks k v w = All-append _ k _ w.key_break (omega arith, (omega arith, w.value_break))

pub header_line-Splits :
    (k v : Bytes) → IsHeader (k, v) → Splits b':' (header_line k v) k (b' ' ∷ v)
header_line-Splits k v w = find-Splits b':' k (b' ' ∷ v) w.key_colon

pub add_header_text :
    (r : NetHttpRequest) (k v : Bytes)
    → IsHeader (k, v)
    → add_header r k (b' ' ∷ v) ≡ record r { headers = store_header k v r.headers }
unfolding add_header
add_header_text r k v w = rw (blank, trim_blanks-NoTrailing v w.trailing)
  where
    blank : skip_blanks (b' ' ∷ v) ≡ v
    blank = unfold skip_blanks in skip_blanks-NoLeading v w.leading
