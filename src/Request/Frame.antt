-- ===== src/Request/Frame.antt =====
-- libnet/net_httprequest.h: what `parseRequest` leaves as it is, whatever the input.
use c_s_online_library.Common.{
  ℕ, zero, suc, ◌≡◌, refl, ◌∙◌, ◌+◌, ◌&&◌, ◌==◌, leb, find, length, take, drop, codes, bytes_eq,
  Bool-cases, inl, inr, Bool, true, false, Option, none, some, [], ◌∷◌, Bytes, ℤ, pos, negsuc,
  arith,
}
use c_s_online_library.Request.Defs.{
  NetHttpRequest, expect_request_line, expect_headers, expect_body, got_all, ParseState, is_post,
}
use c_s_online_library.Request.Parse.{
  Turn, again, finish, fault, Outcome, running, done, undefined, parse_request, parse_turn, turn_in,
  request_line_turn, headers_turn, body_turn, after_line, parse_request_line, parse_target,
  parse_version, set_version, set_target, set_method, set_path, set_query, add_header, unread_to,
}

-- The descriptor, the timer, the working flag and what is to be sent
pub record Keeps (r r' : NetHttpRequest) : Type 0 where
  pub fd : r'.fd ≡ r.fd
  pub timer : r'.timer ≡ r.timer
  pub working : r'.working ≡ r.working
  pub out_buff : r'.out_buff ≡ r.out_buff

Keeps-trans : (a b c : NetHttpRequest) → Keeps a b → Keeps b c → Keeps a c
Keeps-trans a b c k l = record {
  fd = l.fd ∙ k.fd;
  timer = l.timer ∙ k.timer;
  working = l.working ∙ k.working;
  out_buff = l.out_buff ∙ k.out_buff;
}

Keeps-refl : (r : NetHttpRequest) → Keeps r r
Keeps-refl r = record { fd = refl; timer = refl; working = refl; out_buff = refl }

set_version-Keeps : (r : NetHttpRequest) (text : Bytes) → Keeps r (set_version r text).0
unfolding set_version
set_version-Keeps r [] = ground arith
set_version-Keeps r (c ∷ cs) = ground arith

set_target-Keeps : (r : NetHttpRequest) (text : Bytes) → Keeps r (set_target r text)
unfolding set_target set_path set_query
set_target-Keeps r text = ground arith

parse_version-Keeps : (r : NetHttpRequest) (text : Bytes) → Keeps r (parse_version r text).0
unfolding parse_version
parse_version-Keeps r text =
    elim (Bool-cases (length text == 8 && bytes_eq (take 7 text) (codes "HTTP/1."))) [
      | inl e ↦ rw e (set_version-Keeps r (drop 7 text))
      | inr e ↦ rw e (Keeps-refl r)
    ]

parse_target-Keeps : (r : NetHttpRequest) (text : Bytes) → Keeps r (parse_target r text).0
unfolding parse_target
parse_target-Keeps r text = elim (Bool-cases (find b' ' text == length text)) [
  | inl e ↦ rw e (Keeps-refl r)
  | inr e ↦
      let target = set_target r (take (find b' ' text) text) in
      rw e (
        Keeps-trans r target _ (set_target-Keeps r (take (find b' ' text) text))
          (parse_version-Keeps target (drop (suc (find b' ' text)) text)))
]

set_method-Keeps : (r : NetHttpRequest) (text : Bytes) → Keeps r (set_method r text).0
unfolding set_method
set_method-Keeps r text = record { fd = refl; timer = refl; working = refl; out_buff = refl }

parse_request_line-Keeps :
    (r : NetHttpRequest) (line : Bytes) → Keeps r (parse_request_line r line).0
unfolding parse_request_line
parse_request_line-Keeps r line =
    let word = take (find b' ' line) line in
    elim (Bool-cases (find b' ' line == length line)) [
      | inl e ↦ rw e (Keeps-refl r)
      | inr e ↦ elim (Bool-cases (set_method r word).1) [
        | inl known ↦
            rw (e, known)
              (Keeps-trans r (set_method r word).0 _ (set_method-Keeps r word)
                (parse_target-Keeps (set_method r word).0 (drop (suc (find b' ' line)) line)))
        | inr unknown ↦ rw (e, unknown) (set_method-Keeps r word)
      ]
    ]

-- What a round of the loop, and the loop, leave
abbrev TurnKeeps : NetHttpRequest → Turn → Type 0
TurnKeeps r (again r') = Keeps r r'
TurnKeeps r (finish ok r') = Keeps r r'
TurnKeeps r fault = Unit

abbrev pub OutcomeKeeps : NetHttpRequest → Outcome → Type 0
OutcomeKeeps r (running r') = Keeps r r'
OutcomeKeeps r (done ok r') = Keeps r r'
OutcomeKeeps r undefined = Unit

after_line-Keeps :
    (r : NetHttpRequest) (p : ℕ) (l : NetHttpRequest × Bool)
    → Keeps r l.0
    → TurnKeeps r (after_line p l)
after_line-Keeps r p (r', true) k = record {
  fd = k.fd;
  timer = k.timer;
  working = k.working;
  out_buff = k.out_buff;
}
after_line-Keeps r p (r', false) k = k

request_line_turn-Keeps : (r : NetHttpRequest) (p : Option ℕ) → TurnKeeps r (request_line_turn r p)
unfolding request_line_turn
request_line_turn-Keeps r none = Keeps-refl r
request_line_turn-Keeps r (some p) =
    after_line-Keeps r (p + 2) _ (parse_request_line-Keeps r (unread_to r.in_buff p))

headers_turn-Keeps : (r : NetHttpRequest) (p : Option ℕ) → TurnKeeps r (headers_turn r p)
unfolding headers_turn add_header
headers_turn-Keeps r none = Keeps-refl r
headers_turn-Keeps r (some p) =
    let line = unread_to r.in_buff p in
    elim (Bool-cases (find b':' line == length line)) [
      | inr e ↦ rw e (record { fd = refl; timer = refl; working = refl; out_buff = refl })
      | inl e ↦ elim (Bool-cases (is_post r.method)) [
        | inl post ↦
            rw (e, post) (record { fd = refl; timer = refl; working = refl; out_buff = refl })
        | inr other ↦
            rw (e, other) (record { fd = refl; timer = refl; working = refl; out_buff = refl })
      ]
    ]

body_turn-Keeps : (r : NetHttpRequest) (n : ℤ) → TurnKeeps r (body_turn r n)
unfolding body_turn
body_turn-Keeps r (negsuc n) = tt
body_turn-Keeps r (pos n) =
    elim (Bool-cases (leb (r.in_buff.cur + n) (length r.in_buff.char_vec))) [
      | inl e ↦ rw e (record { fd = refl; timer = refl; working = refl; out_buff = refl })
      | inr e ↦ rw e tt
    ]

turn_in-Keeps : (state : ParseState) (r : NetHttpRequest) → TurnKeeps r (turn_in state r)
unfolding turn_in
turn_in-Keeps expect_request_line r = request_line_turn-Keeps r _
turn_in-Keeps expect_headers r = headers_turn-Keeps r _
turn_in-Keeps expect_body r = body_turn-Keeps r _
turn_in-Keeps got_all r = Keeps-refl r

OutcomeKeeps-trans :
    (a b : NetHttpRequest) (o : Outcome) → Keeps a b → OutcomeKeeps b o → OutcomeKeeps a o
OutcomeKeeps-trans a b (running r) k l = Keeps-trans a b r k l
OutcomeKeeps-trans a b (done ok r) k l = Keeps-trans a b r k l
OutcomeKeeps-trans a b undefined k l = tt

after_turn :
    (r : NetHttpRequest) (t : Turn) (go_on : NetHttpRequest → Outcome)
    → TurnKeeps r t
    → ((r' : NetHttpRequest) → OutcomeKeeps r' (go_on r'))
    → OutcomeKeeps r
        (elim t [ again r' ↦ go_on r' | finish ok r' ↦ done ok r' | fault ↦ undefined ])
after_turn r (again r') go_on k h = OutcomeKeeps-trans r r' (go_on r') k (h r')
after_turn r (finish ok r') go_on k h = k
after_turn r fault go_on k h = tt

-- Whatever the fuel and the input, `parseRequest` leaves the descriptor of the request, its timer, its
-- working flag and its output.
pub parse_request-Keeps : (fuel : ℕ) (r : NetHttpRequest) → OutcomeKeeps r (parse_request fuel r)
unfolding parse_request parse_turn
parse_request-Keeps zero r = Keeps-refl r
parse_request-Keeps (suc fuel) r =
    after_turn r (turn_in r.state r) (parse_request fuel) (turn_in-Keeps r.state r)
      (parse_request-Keeps fuel)
