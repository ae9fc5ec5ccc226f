-- ===== src/Library/Http.antt =====
-- src/server.cc, `_read_head` and `_read_http`, and the request and response texts of `main_job`;
-- src/client.cc, `read_http_code`, `read_http`, and the request texts of `do_read` and `do_write`.
-- A `char *` is the C string it points to, its bytes before the NUL; `none` is a read or a write
-- outside of what it points to.
use c_s_online_library.Common.{
  ℕ, Bool, true, ◌||◌, Option, none, some, [], ◌∷◌, ◌++◌, Bytes, codes, crlf, find, search_for,
  starts_with, length, take, drop, ltb, ◌==◌, if◌then◌else◌, ℤ, pos, negsuc, int_eq,
}
use c_s_online_library.Request.Defs.{atoi}

-- `HTTPTYPE` of server.cc
pub data HttpType : Type 0 where
  read write err : HttpType

-- `http_msg`; `body` is `none` while the pointer is not set.
pub record HttpMsg : Type 0 where
  pub fileid : Bytes
  pub type : HttpType
  pub body : Option Bytes

-- strstr
abbrev pub strstr : Bytes → Bytes → Option Bytes
strstr text pat =
    let at = search_for pat text in if at == length text then none else some (drop at text)

-- `_read_head`
unfoldable pub read_head : Bytes → HttpType
read_head buf =
    if starts_with (codes "GET") buf
    then read
    else if starts_with (codes "PUT") buf
    then write
    else err

-- `char firstline[100]` from the bytes before the first '\r'; the last of its bytes has to stay 0.
unfoldable pub first_line : Bytes → Option (Bytes × Bytes)
first_line buf =
    let at = find 13 buf in
    if at == length buf then none else if ltb at 100 then some (take at buf, drop at buf) else none

abbrev ends_id : ℕ → Bool
ends_id c = (c == 32 || c == 13) || (c == 10 || c == 0)

-- The loop over `*p` that fills `fileid`
unfoldable pub take_id : Bytes → Bytes
take_id [] = []
take_id (c ∷ cs) = if ends_id c then [] else c ∷ take_id cs

-- The part of `_read_http` behind the type: the id, and the body of a PUT.
unfoldable pub read_id_and_body : HttpMsg → Bytes → Bytes → Option HttpMsg
read_id_and_body msg firstline line = elim (strstr firstline (codes "/books/")) [
  | none ↦ none
  | some p ↦
      let msg' = record msg { fileid = msg.fileid ++ take_id (drop 7 p) } in
      elim msg.type [
        | write ↦ elim (strstr line (crlf ++ crlf)) [
          | none ↦ none
          | some b ↦ some (record msg' { body = some (drop 4 b) })
        ]
        | read ↦ some msg'
        | err ↦ some msg'
      ]
]

-- `_read_http`
unfoldable pub server_read_http : Bytes → HttpMsg → Option HttpMsg
server_read_http buf msg = elim (first_line buf) [
  | none ↦ none
  | some (firstline, line) ↦ elim (read_head firstline) [
    | read ↦ read_id_and_body (record msg { type = read }) firstline line
    | write ↦ read_id_and_body (record msg { type = write }) firstline line
    | err ↦ some (record msg { type = err })
  ]
]

-- The text that `do_read` sends for an id
abbrev pub get_text : Bytes → Bytes
get_text id = codes "GET /api/v1/books/" ++ (id ++ (crlf ++ crlf))

-- The text that `do_write` sends for an id and the printed JSON
abbrev pub put_text : Bytes → Bytes → Bytes
put_text id json = codes "PUT /api/v1/books/" ++ (id ++ (crlf ++ (crlf ++ json)))

-- What `main_job` writes for a book in the cache
abbrev pub found_text : Bytes → Bytes
found_text data' =
    codes "HTTP/1.1 200 OK"
    ++ (crlf ++ (codes "Connection_Type:application/json" ++ (crlf ++ (crlf ++ data'))))

-- What `main_job` writes for a book with no file
abbrev pub not_found_text : Bytes
not_found_text = codes "HTTP/1.1 404 NOTFOUND" ++ (crlf ++ crlf)

-- `HTTPTYPE` of client.cc
pub data ReplyType : Type 0 where
  success failure : ReplyType

-- `HTTPMSG`; a field is `none` while it is not set.
pub record Reply : Type 0 where
  pub type : ReplyType
  pub code : Option ℤ
  pub body : Option Bytes

-- `read_http_code`: the three bytes behind "HTTP/1.1 ".
unfoldable pub read_http_code : Bytes → ℤ
read_http_code buf = atoi (take 3 (drop 9 buf))

-- `code <= 0`
abbrev no_code : ℤ → Bool
no_code (pos n) = n == 0
no_code (negsuc n) = true

-- `read_http`: what it returns, and the message.
unfoldable pub client_read_http : Bytes → Reply → Option (ℤ × Reply)
client_read_http buf msg = elim (first_line buf) [
  | none ↦ none
  | some (firstline, p) ↦
      let code = read_http_code firstline in
      let failed = record msg { type = failure } in
      if no_code code
      then some (negsuc 0, failed)
      else let typed = if int_eq code (pos 200) then record failed { type = success } else failed in
        elim (strstr p (crlf ++ crlf)) [
          | none ↦ none
          | some b ↦ some (pos 1, record typed { body = some (drop 4 b) })
        ]
]
