-- ===== src/Request/Stop.antt =====
-- libnet/net_httprequest.h, `parseRequest`: when its loop ends, and what it has done then.
use c_s_online_library.Buffer.Defs.{DataBuffer, find_crlf, set_cur_ptr}
use c_s_online_library.Common.{
  ℕ, zero, suc, ◌+◌, ◌≡◌, refl, sym, subst, ap, ◌∙◌, Bool, true, false, some, none, Option, Bytes,
  crlf, codes, [], search_for, find, take, drop, ◌∷◌, arith, ℤ, pos, negsuc,
}
use c_s_online_library.Request.Defs.{
  NetHttpRequest, ParseState, expect_request_line, expect_headers, expect_body, got_all, get_header,
  atoi,
}
use c_s_online_library.Request.Parse.{
  Turn, again, finish, fault, done, undefined, add_header, parse_version, parse_target, set_target,
  set_version, set_method, parse_request_line, after_line, request_line_turn, headers_turn,
  body_turn, turn_in, parse_turn, parse_request, unread_to,
}

-- What the request line leaves alone.
abbrev pub Keeps : NetHttpRequest → NetHttpRequest → Type 0
Keeps r r' = (r'.in_buff ≡ r.in_buff) × (r'.state ≡ r.state)

set_version-Keeps : (r : NetHttpRequest) (text : Bytes) → Keeps r (set_version r text).0
unfolding set_version
set_version-Keeps r [] = (refl, refl)
set_version-Keeps r (c ∷ text) = ground arith

parse_version-Keeps : (r : NetHttpRequest) (text : Bytes) → Keeps r (parse_version r text).0
unfolding parse_version
parse_version-Keeps r text = ground (arith, set_version-Keeps r (drop 7 text))

set_target-Keeps : (r : NetHttpRequest) (text : Bytes) → Keeps r (set_target r text)
unfolding set_target
set_target-Keeps r text = ground arith

parse_target-Keeps : (r : NetHttpRequest) (text : Bytes) → Keeps r (parse_target r text).0
unfolding parse_target
parse_target-Keeps r text =
    let space = find b' ' text in
    let r' = set_target r (take space text) in
    ground
      (arith, set_target-Keeps r (take space text), parse_version-Keeps r' (drop (suc space) text))

pub parse_request_line-Keeps :
    (r : NetHttpRequest) (line : Bytes) → Keeps r (parse_request_line r line).0
unfolding parse_request_line set_method
parse_request_line-Keeps r line =
    let space = find b' ' line in
    let r' = (set_method r (take space line)).0 in
    ground (arith, parse_target-Keeps r' (drop (suc space) line))

-- A round from a buffer with storage: it leaves the storage, and a round that ends the loop with
-- success ends it in `GotAll`.
abbrev Complete : Turn → Type 0
Complete (again r) = r.in_buff.allocated ≡ true
Complete (finish true r) = r.state ≡ got_all
Complete (finish false r) = Unit
Complete fault = Unit

set_cur_ptr-allocated :
    (b : DataBuffer) (p : Option ℕ) → (set_cur_ptr b p).0.allocated ≡ b.allocated
unfolding set_cur_ptr
set_cur_ptr-allocated b none = refl
set_cur_ptr-allocated b (some p) = ground arith

after_line-Complete :
    (p : ℕ) (s : NetHttpRequest × Bool) → s.0.in_buff.allocated ≡ true → Complete (after_line p s)
after_line-Complete p (r, true) h = set_cur_ptr-allocated r.in_buff (some p) ∙ h
after_line-Complete p (r, false) h = tt

find_crlf_allocated : (b : DataBuffer) → b.allocated ≡ true → (p : ℕ) × (find_crlf b ≡ some p)
unfolding find_crlf
find_crlf_allocated b h = (b.cur + search_for crlf (drop b.cur b.char_vec), rw h)

request_line_turn-Complete :
    (r : NetHttpRequest) (p : ℕ)
    → r.in_buff.allocated ≡ true
    → Complete (request_line_turn r (some p))
unfolding request_line_turn
request_line_turn-Complete r p h =
    after_line-Complete (p + 2) (parse_request_line r line)
      (ap (λ b. b.allocated) (parse_request_line-Keeps r line).0 ∙ h)
  where
    line : Bytes
    line = unread_to r.in_buff p

headers_turn-Complete :
    (r : NetHttpRequest) (p : ℕ) → r.in_buff.allocated ≡ true → Complete (headers_turn r (some p))
unfolding headers_turn add_header
headers_turn-Complete r p h = ground (arith, set_cur_ptr-allocated r.in_buff (some (p + 2)))

body_turn-Complete : (r : NetHttpRequest) (len : ℤ) → Complete (body_turn r len)
unfolding body_turn
body_turn-Complete r (negsuc n) = tt
body_turn-Complete r (pos n) = ground arith

turn_in-Complete :
    (s : ParseState) (r : NetHttpRequest) → r.in_buff.allocated ≡ true → Complete (turn_in s r)
unfolding turn_in
turn_in-Complete expect_request_line r h =
    let (p, e) = find_crlf_allocated r.in_buff h in
    subst (λ o. Complete (request_line_turn r o)) (sym e) (request_line_turn-Complete r p h)
turn_in-Complete expect_headers r h =
    let (p, e) = find_crlf_allocated r.in_buff h in
    subst (λ o. Complete (headers_turn r o)) (sym e) (headers_turn-Complete r p h)
turn_in-Complete expect_body r h =
    body_turn-Complete r (atoi (get_header r (codes "Content-Length")))
turn_in-Complete got_all r h = h

-- Success means a whole request: once the buffer has storage, `parseRequest` cannot return true
-- and ask for more input, although its callers test `parseFinish` for that.
parse_request-done_true :
    (fuel : ℕ) (r r' : NetHttpRequest)
    → r.in_buff.allocated ≡ true
    → parse_request fuel r ≡ done true r'
    → r'.state ≡ got_all
unfolding parse_request
parse_request-done_true zero r r' h e = cc
parse_request-done_true (suc fuel) r r' h e =
    go (parse_turn r) refl (unfold parse_turn in turn_in-Complete r.state r h)
      (λ x. parse_request-done_true fuel x r')
  where
    go :
        (t : Turn)
        → parse_turn r ≡ t
        → Complete t
        → ((x : NetHttpRequest)
            → x.in_buff.allocated ≡ true
            → parse_request fuel x ≡ done true r'
            → r'.state ≡ got_all)
        → r'.state ≡ got_all
    go (again x) q c rest = rest x c (rw (q, parse_request) at e)
    go (finish true x) q c rest =
        let d : done true x ≡ done true r' = rw (q, parse_request) at e in cc
    go (finish false x) q c rest =
        let d : done false x ≡ done true r' = rw (q, parse_request) at e in cc
    go fault q c rest = let d : undefined ≡ done true r' = rw (q, parse_request) at e in cc
