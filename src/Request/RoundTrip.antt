-- ===== src/Request/RoundTrip.antt =====
-- libnet/net_httprequest.h: `parseRequest` reads back the head that a client writes.
use c_s_online_library.Common.{
  ℕ, zero, suc, ◌+◌, ◌<◌, ◌≡◌, refl, ap, ◌∙◌, Bool, true, false, Bytes, crlf, [], List,
  search-append, All, find, find-lt, length, take-append_length, ◌++◌, ◌∷◌, arith,
}
use c_s_online_library.Request.Defs.{
  NetHttpRequest, expect_request_line, expect_headers, got_all, store_header, is_post,
}
use c_s_online_library.Request.Parse.{
  again, finish, done, seek, after_line, request_line_turn, turn_in, parse_turn, parse_request,
}
use c_s_online_library.Request.Reader.{
  At, find_crlf-At, unread_to-At, parse_turn-headers, headers_turn-line, headers_turn-end,
  set_cur_ptr-line,
}
use c_s_online_library.Request.Render.{
  Head, IsHead, IsHeader, head_text, headers_text, line_text, line_text-Lacks,
  parse_request_line_text, with_line, header_line, header_line-Lacks, header_line-Splits,
  add_header_text,
}

-- The headers of a head, stored in order over those that are there.
abbrev pub store_all : List (Bytes × Bytes) → List (Bytes × Bytes) → List (Bytes × Bytes)
store_all [] m = m
store_all ((k, v) ∷ hs) m = store_all hs (store_header k v m)

-- `r'` is `r` with these headers read: its state is `GotAll`, and `rest` is unread.
pub record HeadersRead (r : NetHttpRequest) (hs : List (Bytes × Bytes)) (rest : Bytes)
    (r' : NetHttpRequest) : Type 0 where
  pub at : At r'.in_buff rest
  pub same :
      r' ≡ record r { in_buff = r'.in_buff; headers = store_all hs r.headers; state = got_all }

parse_request_next :
    (fuel : ℕ) (r r' : NetHttpRequest)
    → parse_turn r ≡ again r'
    → parse_request (suc fuel) r ≡ parse_request fuel r'
unfolding parse_request
parse_request_next fuel r r' e = rw (e, parse_request)

parse_request_last :
    (fuel : ℕ) (r r' : NetHttpRequest) (ok : Bool)
    → parse_turn r ≡ finish ok r'
    → parse_request (suc fuel) r ≡ done ok r'
unfolding parse_request
parse_request_last fuel r r' ok e = rw (e, parse_request)

header_turn :
    (r : NetHttpRequest) (k v u : Bytes)
    → At r.in_buff (header_line k v ++ (crlf ++ u))
    → r.state ≡ expect_headers
    → IsHeader (k, v)
    → parse_turn r
      ≡ again (
          seek
            (record r { headers = store_header k v r.headers })
            (r.in_buff.cur + length (header_line k v) + 2))
header_turn r k v u at e w =
    let s = header_line-Splits k v w in
    let l = header_line k v in
    parse_turn-headers r at e
    ∙ rw (search-append l u (header_line-Lacks k v w)) (
        headers_turn-line r (length l) l at (take-append_length l (crlf ++ u))
          (find-lt b':' k (b' ' ∷ v))
        ∙ rw (s.taken, s.dropped, add_header_text r k v w) refl)

end_turn :
    (r : NetHttpRequest) (u : Bytes)
    → At r.in_buff (crlf ++ u)
    → r.state ≡ expect_headers
    → is_post r.method ≡ false
    → parse_turn r ≡ finish true (seek (record r { state = got_all }) (r.in_buff.cur + 0 + 2))
end_turn r u at e np =
    parse_turn-headers r at e
    ∙ rw (search-append [] u tt) (headers_turn-end r 0 [] at refl (unfold find in refl) ∙ rw np)

headers_read :
    (hs : List (Bytes × Bytes)) (rest : Bytes) (fuel : ℕ) (r : NetHttpRequest)
    → At r.in_buff (headers_text hs (crlf ++ rest))
    → r.state ≡ expect_headers
    → is_post r.method ≡ false
    → All IsHeader hs
    → length hs < fuel
    → (r' : NetHttpRequest) × (parse_request fuel r ≡ done true r') × HeadersRead r hs rest r'
headers_read hs rest zero r at e np w h = absurd (omega arith)
headers_read [] rest (suc fuel) r at e np w h = (
  _,
  parse_request_last fuel r _ true (end_turn r rest at e np),
  record { at = set_cur_ptr-line r.in_buff [] rest at; same = refl },
)
headers_read ((k, v) ∷ hs) rest (suc fuel) r at e np w h =
    let u = headers_text hs (crlf ++ rest) in
    let next = set_cur_ptr-line r.in_buff (header_line k v) u at in
    let (r', run, read) = headers_read hs rest fuel _ next e np w.1 (omega arith) in
    (
      r',
      parse_request_next fuel r _ (header_turn r k v u at e w.0) ∙ run,
      record { at = read.at; same = read.same },
    )

request_line_turn_text :
    (r : NetHttpRequest) (h : Head) (u : Bytes)
    → IsHead h
    → At r.in_buff (line_text h ++ (crlf ++ u))
    → r.state ≡ expect_request_line
    → parse_turn r ≡ after_line (r.in_buff.cur + length (line_text h) + 2) (with_line r h, true)
unfolding parse_turn turn_in request_line_turn
request_line_turn_text r h u w at e =
    ap (λ s. turn_in s r) e
    ∙ ap (request_line_turn r) (find_crlf-At at)
    ∙ rw
        (
          search-append (line_text h) u (line_text-Lacks h w),
          unread_to-At at,
          take-append_length (line_text h) (crlf ++ u),
          parse_request_line_text r h w,
        )
        refl

-- The request after its head `h`: every field as the head says.
pub record HeadRead (r : NetHttpRequest) (h : Head) (rest : Bytes) (r' : NetHttpRequest)
    : Type 0 where
  pub at : At r'.in_buff rest
  pub same : r' ≡ record (with_line r h) {
    in_buff = r'.in_buff;
    headers = store_all h.headers r.headers;
    state = got_all;
  }

-- The round trip of a request that has no body: `parseRequest` on the text of a head, with any
-- bytes behind it, returns true. Method, version, path (under the web root, "/" as the index
-- page), query and headers are those of the head, the state is `GotAll`, and the bytes behind the
-- head are unread. One round for each line, and one for the empty line, are enough.
pub parse_request-head_text :
    (fuel : ℕ) (r : NetHttpRequest) (h : Head) (rest : Bytes)
    → IsHead h
    → is_post h.method ≡ false
    → At r.in_buff (head_text h rest)
    → r.state ≡ expect_request_line
    → length h.headers + 1 < fuel
    → (r' : NetHttpRequest) × (parse_request fuel r ≡ done true r') × HeadRead r h rest r'
parse_request-head_text zero r h rest w np at e enough = absurd (omega arith)
parse_request-head_text (suc fuel) r h rest w np at e enough =
    let u = headers_text h.headers (crlf ++ rest) in
    let next = set_cur_ptr-line r.in_buff (line_text h) u at in
    let (r', run, read) =
      headers_read h.headers rest fuel
        (record (seek (with_line r h) (r.in_buff.cur + length (line_text h) + 2)) {
          state = expect_headers;
        })
        next refl np w.headers_fit (omega arith) in
    (
      r',
      parse_request_next fuel r _ (request_line_turn_text r h u w at e) ∙ run,
      record { at = read.at; same = read.same },
    )
