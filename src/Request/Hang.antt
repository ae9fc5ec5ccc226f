-- ===== src/Request/Hang.antt =====
-- libnet/net_httprequest.h, `parseRequest`: the states in which its loop does not end.
use c_s_online_library.Buffer.Defs.{set_cur_ptr}
use c_s_online_library.Common.{
  ℕ, zero, suc, ◌+◌, ◌≡◌, refl, ap, ◌∙◌, false, some, Bytes, crlf, starts_with, search_none, find,
  find-lt, length, take, take_length, drop, ◌++◌, ◌∷◌, arith,
}
use c_s_online_library.Request.Defs.{NetHttpRequest, expect_headers, got_all}
use c_s_online_library.Request.Parse.{
  again, running, add_header, seek, turn_in, parse_turn, parse_request,
}
use c_s_online_library.Request.Reader.{At, parse_turn-headers, headers_turn-line, set_cur_ptr_past}
use native.Mathlib.Nat.{add_assoc}

-- A loop whose every round from `P` goes on in `P` runs for ever.
parse_request_for_ever {ℓ} :
    (P : NetHttpRequest → Type ℓ)
    → ((r : NetHttpRequest) → P r → (r' : NetHttpRequest) × (parse_turn r ≡ again r') × P r')
    → (fuel : ℕ) (r : NetHttpRequest) → P r
    → (r' : NetHttpRequest) × (parse_request fuel r ≡ running r') × P r'
unfolding parse_request
parse_request_for_ever P goes_on zero r h = (r, refl, h)
parse_request_for_ever P goes_on (suc fuel) r h =
    let (r', e, h') = goes_on r h in
    let (r'', e', h'') = parse_request_for_ever P goes_on fuel r' h' in
    (r'', rw (e, parse_request) e', h'')

-- A finished request that was not reset: `parseRequest` never returns, and changes nothing.
pub parse_request-got_all :
    (fuel : ℕ) (r : NetHttpRequest) → r.state ≡ got_all → parse_request fuel r ≡ running r
parse_request-got_all fuel r h =
    let (r', e, same) =
      parse_request_for_ever (λ x. (x ≡ r) × (x.state ≡ got_all))
        (λ x (e, s). (x, unfold parse_turn in rw (s, turn_in), (e, s))) fuel r (refl, h) in
    e ∙ ap running same.0

-- The unread bytes are the start of a header line: they have a colon and no line break.
pub record IsPartialHeader (r : NetHttpRequest) (key text : Bytes) : Type 0 where
  pub at : At r.in_buff (key ++ b':' ∷ text)
  pub expects : r.state ≡ expect_headers
  pub no_break : (m : ℕ) → starts_with crlf (drop m (key ++ b':' ∷ text)) ≡ false

IsPartialHeader-turn :
    (r : NetHttpRequest) (key text : Bytes)
    → IsPartialHeader r key text
    → (r' : NetHttpRequest) × (parse_turn r ≡ again r')
      × (IsPartialHeader r' key text × (r'.in_buff ≡ r.in_buff))
unfolding add_header
IsPartialHeader-turn r key text h = (
  seek with_header (r.in_buff.cur + length u + 2),
  turn,
  (record { at = rw same h.at; expects = h.expects; no_break = h.no_break }, same),
)
  where
    u : Bytes
    u = key ++ b':' ∷ text

    with_header : NetHttpRequest
    with_header = add_header r (take (find b':' u) u) (drop (suc (find b':' u)) u)

    whole : take (length u) u ≡ u
    whole = take_length u

    same : (seek with_header (r.in_buff.cur + length u + 2)).in_buff ≡ r.in_buff
    same =
        ap (λ n. (set_cur_ptr r.in_buff (some n)).0) (add_assoc r.in_buff.cur (length u) 2)
        ∙ set_cur_ptr_past h.at (length u + 2) (omega arith)

    turn : parse_turn r ≡ again (seek with_header (r.in_buff.cur + length u + 2))
    turn =
        parse_turn-headers r h.at h.expects
        ∙ rw (search_none crlf u h.no_break)
            (headers_turn-line r (length u) u h.at (take_length u) (find-lt b':' key text))

-- A header line that has not arrived in full: as soon as its colon is there and its line break is
-- not, `parseRequest` never returns. It adds the same header over and over and reads nothing.
pub parse_request-partial_header :
    (fuel : ℕ) (r : NetHttpRequest) (key text : Bytes)
    → IsPartialHeader r key text
    → (r' : NetHttpRequest) × (parse_request fuel r ≡ running r') × (r'.in_buff ≡ r.in_buff)
parse_request-partial_header fuel r key text h =
    let (r', e, p) =
      parse_request_for_ever (λ x. IsPartialHeader x key text × (x.in_buff ≡ r.in_buff))
        (λ x (hx, ex).
          let (y, e, (hy, ey)) = IsPartialHeader-turn x key text hx in (y, e, (hy, ey ∙ ex)))
        fuel r (h, refl) in
    (r', e, p.1)
