-- ===== src/Library/Exchange.antt =====
-- src/client.cc and src/server.cc: each side reads what the other writes.
use c_s_online_library.Common.{
  ◌<◌, ◌≤◌, ◌≡◌, refl, some, [], ◌∷◌, ◌++◌, Bytes, codes, crlf, search_for, find-append, find-lt,
  Lacks, All, All-append, IsDigit, length, take-append_length, drop-append_length, arith, pos,
  int_eq,
}
use c_s_online_library.Request.Defs.{atoi, long_to_int}
use c_s_online_library.Common.{to_int}
use c_s_online_library.Library.Path.{checkinput, ok, empty, checkinput-ok, all_digits-IsDigit}
use c_s_online_library.Library.Http.{
  HttpType, HttpMsg, strstr, first_line, take_id, read_head, read_id_and_body, server_read_http,
  get_text, put_text, found_text, not_found_text, Reply, success, failure, client_read_http,
  read_http_code,
}

-- The buffer is cut at its first '\r'.
first_line-append :
    (l rest : Bytes)
    → Lacks 13 l
    → length l < 100
    → first_line (l ++ (crlf ++ rest)) ≡ some (l, crlf ++ rest)
unfolding first_line
first_line-append l rest h short =
    let at = find-append 13 l (10 ∷ rest) h in
    let lt = find-lt 13 l (10 ∷ rest) in
    let before = take-append_length l (crlf ++ rest) in
    let behind = drop-append_length l (crlf ++ rest) in
    rw at (ground (arith, at, lt, before, behind))

take_id-digits : (id : Bytes) → All IsDigit id → take_id id ≡ id
unfolding take_id
take_id-digits [] h = refl
take_id-digits (c ∷ cs) h = ground (arith, h.0, take_id-digits cs h.1)

digits-Lacks : (id : Bytes) → All IsDigit id → Lacks 13 id
digits-Lacks [] h = tt
digits-Lacks (c ∷ cs) h = (omega (arith, h.0), digits-Lacks cs h.1)

-- An id that `checkinput` lets through.
pub record IsId (id : Bytes) : Type 0 where
  pub digits : All IsDigit id
  pub short : length id ≤ 20

pub checkinput-IsId : (id : Bytes) → checkinput id ≡ ok → IsId id
checkinput-IsId [] e = let bad : empty ≡ ok = unfold checkinput in e in absurd (cc)
checkinput-IsId (c ∷ cs) e =
    let (short, digits) = checkinput-ok c cs e in
    record { digits = all_digits-IsDigit (c ∷ cs) digits; short = short }

-- The first line of a request for an id.
line-Lacks : (verb id : Bytes) → Lacks 13 verb → IsId id → Lacks 13 (verb ++ id)
line-Lacks verb id v h = All-append _ verb id v (digits-Lacks id h.digits)

get_line :
    (id : Bytes)
    → IsId id
    → first_line (get_text id) ≡ some (codes "GET /api/v1/books/" ++ id, crlf ++ crlf)
get_line id h =
    first_line-append (codes "GET /api/v1/books/" ++ id) crlf
      (line-Lacks (codes "GET /api/v1/books/") id (omega arith) h) (omega (arith, h.short))

put_line :
    (id json : Bytes)
    → IsId id
    → first_line (put_text id json)
      ≡ some (codes "PUT /api/v1/books/" ++ id, crlf ++ (crlf ++ json))
put_line id json h =
    first_line-append (codes "PUT /api/v1/books/" ++ id) (crlf ++ json)
      (line-Lacks (codes "PUT /api/v1/books/") id (omega arith) h) (omega (arith, h.short))

get_books :
    (id : Bytes)
    → strstr (codes "GET /api/v1/books/" ++ id) (codes "/books/") ≡ some (codes "/books/" ++ id)
unfolding search_for
get_books id = ground arith

put_books :
    (id : Bytes)
    → strstr (codes "PUT /api/v1/books/" ++ id) (codes "/books/") ≡ some (codes "/books/" ++ id)
unfolding search_for
put_books id = ground arith

empty_line :
    (rest : Bytes) → strstr (crlf ++ (crlf ++ rest)) (crlf ++ crlf) ≡ some (crlf ++ (crlf ++ rest))
unfolding search_for
empty_line rest = ground arith

-- The server reads the client's request for a book: the type, and the id as it was typed in.
pub server_read_http-get_text :
    (id : Bytes) (msg : HttpMsg)
    → checkinput id ≡ ok
    → msg.fileid ≡ []
    → server_read_http (get_text id) msg ≡ some (record msg { type = HttpType.read; fileid = id })
unfolding server_read_http read_head read_id_and_body
server_read_http-get_text id msg e fresh =
    let h = checkinput-IsId id e in
    rw (get_line id h, server_read_http)
      (rw (get_books id, read_id_and_body) (rw (fresh, take_id-digits id h.digits) refl))

-- The server reads the client's change of a book: the type, the id as it was typed in, and the
-- text of the book to the last byte.
pub server_read_http-put_text :
    (id json : Bytes) (msg : HttpMsg)
    → checkinput id ≡ ok
    → msg.fileid ≡ []
    → server_read_http (put_text id json) msg
      ≡ some (record { type = HttpType.write; fileid = id; body = some json })
unfolding server_read_http read_head read_id_and_body
server_read_http-put_text id json msg e fresh =
    let h = checkinput-IsId id e in
    rw (put_line id json h, server_read_http)
      (rw (put_books id, read_id_and_body)
        (rw (empty_line json, read_id_and_body) (rw (fresh, take_id-digits id h.digits) refl)))

code_200 : read_http_code (codes "HTTP/1.1 200 OK") ≡ pos 200
unfolding read_http_code atoi long_to_int to_int
code_200 = refl

code_404 : read_http_code (codes "HTTP/1.1 404 NOTFOUND") ≡ pos 404
unfolding read_http_code atoi long_to_int to_int
code_404 = refl

found_break :
    (data' : Bytes)
    → strstr
        (crlf ++ (codes "Connection_Type:application/json" ++ (crlf ++ (crlf ++ data'))))
        (crlf ++ crlf)
      ≡ some (crlf ++ (crlf ++ data'))
unfolding search_for
found_break data' = ground arith

-- The client reads the server's answer for a book that there is: success, and the book's text to
-- the last byte. Its `code` is left as it was.
pub client_read_http-found_text :
    (data' : Bytes) (msg : Reply)
    → client_read_http (found_text data') msg
      ≡ some (pos 1, record msg { type = success; body = some data' })
unfolding client_read_http search_for int_eq
client_read_http-found_text data' msg =
    rw
      (
        first_line-append (codes "HTTP/1.1 200 OK")
            (codes "Connection_Type:application/json" ++ (crlf ++ (crlf ++ data'))) (omega arith)
            (omega arith),
        client_read_http,
      )
      (rw (code_200, client_read_http)
        (rw (found_break data', client_read_http) (rw code_200 refl)))

-- The client reads the server's answer for a book that there is not: no success, and a `code` that
-- is as it was before, although `do_read` and `do_write` compare it with 404.
pub client_read_http-not_found :
    (msg : Reply)
    → client_read_http not_found_text msg
      ≡ some (pos 1, record msg { type = failure; body = some [] })
unfolding client_read_http search_for int_eq
client_read_http-not_found msg =
    rw
      (
        first_line-append (codes "HTTP/1.1 404 NOTFOUND") crlf (omega arith) (omega arith),
        client_read_http,
      )
      (rw (code_404, client_read_http) refl)
