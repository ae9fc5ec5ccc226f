-- ===== src/Server/Page.antt =====
-- libnet/net_httpserver.h with libnet/net_httprequest.h and libnet/net_httpresponse.h: from the text of a
-- request for a file to its response on the wire.
use c_s_online_library.Buffer.Defs.{DataBuffer, append, append_buffer}
use c_s_online_library.Buffer.Receive.{IsChunk, arrived}
use c_s_online_library.Buffer.Socket.{ReadOutcome, read_fd, failed, eagain, Read}
use c_s_online_library.Common.{
  ℕ, ◌+◌, ◌<◌, ◌^◌, ◌≡◌, refl, ap, ◌∙◌, true, false, Option, some, List, [], ◌∷◌, ◌++◌, Bytes, crlf,
  All, length, take, take_length, to_int_small, subst, sym, length-append, ◌==◌, arith, pos, int_eq,
}
use c_s_online_library.Request.Defs.{
  NetHttpRequest, parse_finish, expect_request_line, is_post, keep_alive, get_header,
  get_cgi_length, append_out_buffer, read_buff,
}
use c_s_online_library.Request.Parse.{done, parse_request}
use c_s_online_library.Request.Render.{
  line_text, headers_text, Head, IsHead, head_text, file_path, cgi_or, with_line,
}
use c_s_online_library.Request.RoundTrip.{store_all, HeadRead, parse_request-head_text}
use c_s_online_library.Response.Defs.{GHttpResponse, new_response, make_response}
use c_s_online_library.Server.Defs.{NetHttpServer, in_out_once, returns, write_back, rearm}
use c_s_online_library.Server.Handlers.{Answers, ok_request, answer_ok, after_parse, after_read}
use c_s_online_library.Response.File.{IsFile, page, make_response-file}
use c_s_online_library.Request.Arrive.{read-At}

-- What the server answers to the head `h`
abbrev pub answer_of : Answers → NetHttpRequest → Head → GHttpResponse
answer_of a req h =
    new_response
      (ok_request a.unset (record (with_line req h) { headers = store_all h.headers req.headers }))

pub answer_of-change :
    (a : Answers) (req : NetHttpRequest) (h : Head) (b : DataBuffer) (t : Option ℕ)
    → answer_of a (record req { in_buff = b; timer = t }) h ≡ answer_of a req h
unfolding keep_alive get_cgi_length get_header
answer_of-change a req h b t = refl

answer_of-HeadRead :
    (a : Answers) (r r' : NetHttpRequest) (h : Head) (rest : Bytes)
    → HeadRead r h rest r'
    → new_response (ok_request a.unset r') ≡ answer_of a r h
unfolding keep_alive get_cgi_length get_header
answer_of-HeadRead a r r' h rest read = ap (λ q. new_response (ok_request a.unset q)) read.same

append_out_bytes :
    (r : NetHttpRequest) (out : DataBuffer)
    → out.allocated ≡ true
    → r.out_buff.char_vec ≡ []
    → length out.char_vec < 2 ^ 31
    → (append_out_buffer r out).out_buff.char_vec ≡ out.char_vec
unfolding append_out_buffer append_buffer append
append_out_bytes r out storage_ empty total =
    rw (storage_, append_out_buffer)
      (ap (λ i. (append r.out_buff (some out.char_vec) i).0.char_vec)
          (to_int_small (length out.char_vec) total)
        ∙ ap (λ o. o ++ take (length out.char_vec) out.char_vec) empty
        ∙ take_length out.char_vec)

-- `__doRequest` behind the parse of the head
after_parse-file :
    (a : Answers) (s : NetHttpServer) (r r' : NetHttpRequest) (h : Head) (rest text : Bytes)
    → HeadRead r h rest r'
    → r.out_buff.char_vec ≡ []
    → cgi_or h.query r.cgi ≡ false
    → IsFile a.host (file_path h.path) text
    → length (page (answer_of a r h) text) < 2 ^ 31
    → (q : NetHttpRequest) × (after_parse a s (done true r')
        ≡ returns (write_back (rearm in_out_once (s, q))))
      × (q.fd ≡ r.fd)
      × (q.out_buff.char_vec ≡ page (answer_of a r h) text)
unfolding after_parse answer_ok append_out_buffer
after_parse-file a s r r' h rest text read empty no_cgi file total =
    let (out, made, bytes, storage_) =
      make_response-file a.host (answer_of a r h) text refl no_cgi file total in
    let made' : make_response a.host (new_response (ok_request a.unset r')) ≡ some out =
      ap (make_response a.host) (answer_of-HeadRead a r r' h rest read) ∙ made in
    let state : parse_finish r' ≡ true = ap parse_finish read.same in
    (
      append_out_buffer r' out,
      rw (state, after_parse) (rw (made', answer_ok) refl),
      ap (λ q. q.fd) read.same,
      append_out_bytes r' out storage_ (ap (λ q. q.out_buff.char_vec) read.same ∙ empty)
            (subst (λ o. length o < 2 ^ 31) (sym bytes) total)
          ∙ bytes,
    )

after_read-parse :
    (a : Answers) (fuel n e : ℕ) (s : NetHttpServer) (req : NetHttpRequest) (b : DataBuffer)
    → 0 < n
    → after_read a fuel (s, req) (Read.returned b (pos n) e)
      ≡ after_parse a s (parse_request fuel (record req { in_buff = b }))
unfolding after_read int_eq
after_read-parse a fuel n e s req b positive =
    let some_ : (n == 0) ≡ false = ground (arith, positive) in rw some_ refl

head_text_size : (h : Head) (rest : Bytes) → 0 < length (head_text h rest)
head_text_size h rest =
    omega (arith, length-append (line_text h) (crlf ++ headers_text h.headers (crlf ++ rest)))

-- A request for a file: `text` is the file, and `rest` what the client sends behind the head.
module _ (a : Answers) (req : NetHttpRequest) (h : Head) (rest text : Bytes)
    (os more : List ReadOutcome) where
  pub record Asks : Type 0 where
    pub ready : req.state ≡ expect_request_line
    pub all_read : req.in_buff.cur ≡ length req.in_buff.char_vec
    pub all_sent : req.out_buff.char_vec ≡ []
    pub well_formed : IsHead h
    pub no_body : is_post h.method ≡ false
    pub no_query : cgi_or h.query req.cgi ≡ false
    pub file : IsFile a.host (file_path h.path) text
    pub below : length (page (answer_of a req h) text) < 2 ^ 31
    pub reads : a.reads ≡ os ++ failed eagain ∷ more
    pub chunks : All IsChunk os
    pub arrives : arrived os ≡ head_text h rest
    pub fits : length req.in_buff.char_vec + length (head_text h rest) < 2 ^ 31

  -- `__doRequest` behind `delTimer`
  pub after_read-file :
      (fuel : ℕ) (s : NetHttpServer)
      → Asks
      → length h.headers + 1 < fuel
      → (q : NetHttpRequest) × (after_read a fuel (s, req) (read_buff req a.errno a.reads)
          ≡ returns (write_back (rearm in_out_once (s, q))))
        × (q.fd ≡ req.fd)
        × (q.out_buff.char_vec ≡ page (answer_of a req h) text)
  unfolding read_buff
  after_read-file fuel s k enough =
      let u = head_text h rest in
      let (b, read, at) =
        read-At req.in_buff a.errno os more u k.all_read k.chunks k.arrives (head_text_size h rest)
          k.fits in
      let req1 : NetHttpRequest = record req { in_buff = b } in
      let (r', parsed, head) =
        parse_request-head_text fuel req1 h rest k.well_formed k.no_body at k.ready enough in
      let (q, runs, same_fd, bytes) =
        after_parse-file a s req1 r' h rest text head k.all_sent k.no_query k.file (
          subst (λ r. length (page r text) < 2 ^ 31) (sym (answer_of-change a req h b req.timer))
            k.below) in
      (
        q,
        ap (λ l. after_read a fuel (s, req) (read_fd req.in_buff a.errno l)) k.reads
            ∙ ap (after_read a fuel (s, req)) read
            ∙ after_read-parse a fuel _ eagain s req b (omega (arith, head_text_size h rest))
            ∙ ap (after_parse a s) parsed
            ∙ runs,
        same_fd,
        bytes ∙ ap (λ r. page r text) (answer_of-change a req h b req.timer),
      )
