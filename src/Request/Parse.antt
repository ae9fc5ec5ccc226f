-- ===== src/Request/Parse.antt =====
-- libnet/net_httprequest.h, `parseRequest` and its helpers. A pair of pointers into the buffer is
-- the bytes between them. `parse_turn` is one round of the loop, `parse_request` the loop on fuel.
use c_s_online_library.Buffer.Defs.{DataBuffer, find_crlf, set_cur, set_cur_ptr}
use c_s_online_library.Common.{
  ℕ, zero, suc, ◌+◌, ◌-◌, Bool, true, false, not, ◌&&◌, Option, none, some, [], ◌∷◌, ◌++◌, Bytes,
  codes, bytes_eq, find, length, take, drop, leb, ◌==◌, if◌then◌else◌, ℤ, pos, negsuc,
}
use c_s_online_library.Request.Defs.{
  ParseState, expect_request_line, expect_headers, expect_body, got_all, HttpMethod, invalid, get,
  post, head, put, delete, http1_0, http1_1, NetHttpRequest, web_root, store_header, get_header,
  is_post, atoi,
}

unfoldable pub method_of : Bytes → HttpMethod
method_of meth =
    if bytes_eq meth (codes "GET")
    then get
    else if bytes_eq meth (codes "POST")
    then post
    else if bytes_eq meth (codes "HEAD")
    then head
    else if bytes_eq meth (codes "PUT")
    then put
    else if bytes_eq meth (codes "DELETE")
    then delete
    else invalid

abbrev is_valid : HttpMethod → Bool
is_valid invalid = false
is_valid _ = true

-- `__setMethod`
unfoldable pub set_method : NetHttpRequest → Bytes → NetHttpRequest × Bool
unfolding method_of
set_method r meth = (record r { method = method_of meth }, is_valid (method_of meth))

-- `__setPath`
unfoldable pub set_path : NetHttpRequest → Bytes → NetHttpRequest
set_path r sub_path = record r {
  path = web_root ++ (if bytes_eq sub_path (codes "/") then codes "/index.html" else sub_path);
}

-- `__setQuery` on two pointers
unfoldable pub set_query : NetHttpRequest → Bytes → NetHttpRequest
set_query r text = record r { query = text; cgi = true }

-- The path and the query of the request line.
unfoldable pub set_target : NetHttpRequest → Bytes → NetHttpRequest
unfolding set_path set_query
set_target r target =
    let q = find b'?' target in
    if q == length target
    then set_path r target
    else set_query (set_path r (take q target)) (drop (suc q) target)

-- The last byte of the request line.
unfoldable pub set_version : NetHttpRequest → Bytes → NetHttpRequest × Bool
set_version r [] = (r, false)
set_version r (c ∷ _) =
    if c == b'1'
    then (record r { version = http1_1 }, true)
    else if c == b'0'
    then (record r { version = http1_0 }, true)
    else (r, false)

-- `__parseRequestLine`, from the third word on
unfoldable pub parse_version : NetHttpRequest → Bytes → NetHttpRequest × Bool
parse_version r text =
    if length text == 8 && bytes_eq (take 7 text) (codes "HTTP/1.")
    then set_version r (drop 7 text)
    else (r, false)

-- `__parseRequestLine`, from the second word on
unfoldable pub parse_target : NetHttpRequest → Bytes → NetHttpRequest × Bool
parse_target r text =
    let space = find b' ' text in
    if space == length text
    then (r, false)
    else parse_version (set_target r (take space text)) (drop (suc space) text)

-- `__parseRequestLine`
unfoldable pub parse_request_line : NetHttpRequest → Bytes → NetHttpRequest × Bool
parse_request_line r line =
    let space = find b' ' line in
    let (r', known) = set_method r (take space line) in
    if space == length line
    then (r, false)
    else if known
    then parse_target r' (drop (suc space) line)
    else (r', false)

unfoldable pub skip_blanks : Bytes → Bytes
skip_blanks [] = []
skip_blanks (x ∷ xs) = if x == b' ' then skip_blanks xs else x ∷ xs

-- `val.resize(val.size() - 1)` while the last byte is a blank
unfoldable pub trim_blanks : Bytes → Bytes
trim_blanks [] = []
trim_blanks (x ∷ xs) = elim (trim_blanks xs) [
  | [] ↦ if x == b' ' then [] else x ∷ []
  | y ∷ ys ↦ x ∷ y ∷ ys
]

-- `__addHeader`, on the key and what stands behind the colon
unfoldable pub add_header : NetHttpRequest → Bytes → Bytes → NetHttpRequest
add_header r key text = record r {
  headers = store_header key (trim_blanks (skip_blanks text)) r.headers;
}

-- The bytes from the cursor to the pointer.
abbrev pub unread_to : DataBuffer → ℕ → Bytes
unread_to b p = take (p - b.cur) (drop b.cur b.char_vec)

abbrev pub seek : NetHttpRequest → ℕ → NetHttpRequest
seek r p = record r { in_buff = (set_cur_ptr r.in_buff (some p)).0 }

-- What a round of the loop does: `hasMore` stays, or the loop ends with `ok`; `fault` is a
-- `std::string::assign` with a negative length, which throws, or past the end of the buffer.
pub data Turn : Type 0 where
  again : NetHttpRequest → Turn
  finish : Bool → NetHttpRequest → Turn
  fault : Turn

-- `ok ? … : …` behind `__parseRequestLine`
abbrev pub after_line : ℕ → NetHttpRequest × Bool → Turn
after_line p (r, true) = again (record (seek r p) { state = expect_headers })
after_line p (r, false) = finish false r

unfoldable pub request_line_turn : NetHttpRequest → Option ℕ → Turn
request_line_turn r none = finish true r
request_line_turn r (some p) = after_line (p + 2) (parse_request_line r (unread_to r.in_buff p))

unfoldable pub headers_turn : NetHttpRequest → Option ℕ → Turn
headers_turn r none = finish true r
headers_turn r (some p) =
    let line = unread_to r.in_buff p in
    let colon = find b':' line in
    if not (colon == length line)
    then again (seek (add_header r (take colon line) (drop (suc colon) line)) (p + 2))
    else if is_post r.method
    then again (seek (record r { state = expect_body; cgi = true }) (p + 2))
    else finish true (seek (record r { state = got_all }) (p + 2))

-- `SetCur(len)` is the overload on an index: it counts from the start of the buffer.
unfoldable pub body_turn : NetHttpRequest → ℤ → Turn
body_turn r (negsuc n) = fault
body_turn r (pos len) =
    if leb (r.in_buff.cur + len) (length r.in_buff.char_vec)
    then finish true (record r {
      query = take len (drop r.in_buff.cur r.in_buff.char_vec);
      in_buff = (set_cur r.in_buff len).0;
      state = got_all;
    })
    else fault

-- No branch of the loop's body is for `GotAll`.
unfoldable pub turn_in : ParseState → NetHttpRequest → Turn
turn_in expect_request_line r = request_line_turn r (find_crlf r.in_buff)
turn_in expect_headers r = headers_turn r (find_crlf r.in_buff)
turn_in expect_body r = body_turn r (atoi (get_header r (codes "Content-Length")))
turn_in got_all r = again r

unfoldable pub parse_turn : NetHttpRequest → Turn
unfolding turn_in
parse_turn r = turn_in r.state r

pub data Outcome : Type 0 where
  running : NetHttpRequest → Outcome
  done : Bool → NetHttpRequest → Outcome
  undefined : Outcome

-- `parseRequest`; out of fuel it is `running`.
unfoldable pub parse_request : ℕ → NetHttpRequest → Outcome
parse_request zero r = running r
parse_request (suc fuel) r = elim (parse_turn r) [
  | again r' ↦ parse_request fuel r'
  | finish ok r' ↦ done ok r'
  | fault ↦ undefined
]
