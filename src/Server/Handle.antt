-- ===== src/Server/Handle.antt =====
-- libnet/net_httpserver.h: `__doRequest` and `__doResponse` leave the requests, their timers and the
-- tasks in order.
use c_s_online_library.Buffer.Defs.{DataBuffer}
use c_s_online_library.Buffer.Socket.{WriteOutcome, Read, Write, eagain, write_to_sock}
use c_s_online_library.Common.{
  ℤ, pos, int_eq, ℕ, ◌≡◌, refl, ◌∙◌, true, false, not, ◌&&◌, Option, none, some, List, ◌∷◌, ◌==◌,
  Bool-cases, inl, inr, pos, negsuc, is_negative, int_eq,
}
use c_s_online_library.Request.Defs.{
  NetHttpRequest, parse_finish, append_out_buffer, write_buff, reset_parse, keep_alive,
  write_able_bytes,
}
use c_s_online_library.Request.Frame.{OutcomeKeeps, parse_request-Keeps}
use c_s_online_library.Request.Parse.{Outcome, running, done, undefined, parse_request}
use c_s_online_library.Response.Defs.{make_response, new_response}
use c_s_online_library.Server.Defs.{
  NetHttpServer, in_once, in_out_once, Handled, Run, returns, faults, out_of_answers, ◌>>=◌, must,
  write_back, rearm,
}
use c_s_online_library.Server.Handlers.{
  Answers, send, answer_bad, answer_ok, after_parse, after_read, do_request, after_write,
  do_response, ok_request,
}
use c_s_online_library.Server.Track.{Held, write_back-Tracked}
use c_s_online_library.Server.Keep.{
  Ended, Safe, to_Safe, Held-change, Held-wire, Held-rearm, forget_timer-Held, wait_for-Ended,
  shut-Ended,
}

after_must :
    {A : Type 0} (o : Option A) (k : A → Run NetHttpServer)
    → ((a : A) → Safe (k a))
    → Safe (must o >>= k)
after_must none k h = tt
after_must (some a) k h = h a

-- `req->writeBuff`, and what follows it
after_send :
    (os : List WriteOutcome) (s : NetHttpServer) (req : NetHttpRequest)
    (k : Handled × ℕ → Run NetHttpServer)
    → Held s req
    → req.timer ≡ none
    → ((s' : NetHttpServer) (req' : NetHttpRequest) (n : ℕ)
        → Held s' req'
        → req'.timer ≡ none
        → Safe (k ((s', req'), n)))
    → Safe (send os (s, req) >>= k)
unfolding send write_buff
after_send os s req k h none_yet next = after_write_to_sock (write_buff req os).1
  where
    req' : NetHttpRequest
    req' = (write_buff req os).0

    held : Held s req'
    held = Held-change s req req' h refl refl

    after_write_to_sock :
        (w : Write)
        → Safe (
            (elim w [
              | Write.returned r sent ↦ elim r [
                | pos n ↦ returns ((record s { wire = (req.fd, sent) ∷ s.wire }, req'), n)
                | negsuc n ↦ faults
              ]
              | Write.pending sent ↦ out_of_answers
              | Write.beside sent ↦ faults
              | Write.unset ↦ faults
            ])
            >>= k)
    after_write_to_sock (Write.returned (pos n) sent) =
        next (record s { wire = (req.fd, sent) ∷ s.wire }) req' n
          (Held-wire s ((req.fd, sent) ∷ s.wire) req' held) none_yet
    after_write_to_sock (Write.returned (negsuc n) sent) = tt
    after_write_to_sock (Write.pending sent) = tt
    after_write_to_sock (Write.beside sent) = tt
    after_write_to_sock Write.unset = tt

append_out-Held :
    (s : NetHttpServer) (req : NetHttpRequest) (out : DataBuffer)
    → Held s req
    → Held s (append_out_buffer req out)
unfolding append_out_buffer
append_out-Held s req out h = Held-change s req (append_out_buffer req out) h refl refl

append_out_timer :
    (req : NetHttpRequest) (out : DataBuffer) → (append_out_buffer req out).timer ≡ req.timer
unfolding append_out_buffer
append_out_timer req out = refl

answer_bad-Safe :
    (a : Answers) (s : NetHttpServer) (req : NetHttpRequest)
    → Held s req
    → req.timer ≡ none
    → Safe (answer_bad a (s, req))
unfolding answer_bad
answer_bad-Safe a s req h none_yet = after_must _ _ (λ out.
    after_send a.writes s (append_out_buffer req out) _ (append_out-Held s req out h)
      (append_out_timer req out ∙ none_yet)
      (λ s' req' n held t. to_Safe _ (shut-Ended s' req' held)))

answer_ok-Safe :
    (a : Answers) (s : NetHttpServer) (req : NetHttpRequest)
    → Held s req
    → Safe (answer_ok a (s, req))
unfolding answer_ok rearm
answer_ok-Safe a s req h =
    after_must (make_response a.host (new_response (ok_request a.unset req)))
      (λ x. returns (write_back (rearm in_out_once (s, append_out_buffer req x))))
      (λ out.
        write_back-Tracked _ (append_out_buffer req out)
          (Held-rearm in_out_once s (append_out_buffer req out) (append_out-Held s req out h)))

after_parse-Safe :
    (a : Answers) (s : NetHttpServer) (req : NetHttpRequest) (o : Outcome)
    → Held s req
    → req.timer ≡ none
    → OutcomeKeeps req o
    → Safe (after_parse a s o)
unfolding after_parse
after_parse-Safe a s req (running r) h t k = tt
after_parse-Safe a s req undefined h t k = tt
after_parse-Safe a s req (done false r) h t k =
    answer_bad-Safe a s r (Held-change s req r h k.fd k.timer) (k.timer ∙ t)
after_parse-Safe a s req (done true r) h t k =
    let held = Held-change s req r h k.fd k.timer in
    elim (Bool-cases (parse_finish r)) [
      | inl e ↦ rw e (answer_ok-Safe a s r held)
      | inr e ↦ rw e (write_back-Tracked s r held)
    ]

after_read-Safe :
    (a : Answers) (fuel : ℕ) (s : NetHttpServer) (req : NetHttpRequest) (r : Read)
    → Held s req
    → req.timer ≡ none
    → Safe (after_read a fuel (s, req) r)
unfolding after_read
after_read-Safe a fuel s req (Read.pending b e) h t = tt
after_read-Safe a fuel s req (Read.returned b size e) h t =
    let req' : NetHttpRequest = record req { in_buff = b } in
    let held = Held-change s req req' h refl refl in
    let closes = to_Safe _ (shut-Ended s req' held) in
    elim (Bool-cases (int_eq size (pos 0))) [
      | inl ends ↦ rw ends closes
      | inr more ↦ elim (Bool-cases (is_negative size && not (e == eagain))) [
        | inl fails ↦ rw (more, fails) closes
        | inr works ↦ elim (Bool-cases (is_negative size && e == eagain)) [
          | inl waits ↦
              rw (more, works, waits) (to_Safe _ (wait_for-Ended in_once a.now s req' held t))
          | inr reads ↦
              rw (more, works, reads)
                (after_parse-Safe a s req' (parse_request fuel req') held t
                  (parse_request-Keeps fuel req'))
        ]
      ]
    ]

pub do_request-Safe :
    (a : Answers) (fuel : ℕ) (s : NetHttpServer) (req : NetHttpRequest)
    → Held s req
    → Safe (do_request a fuel (s, req))
unfolding do_request
do_request-Safe a fuel s req h =
    let (m, run, held) = forget_timer-Held s req h in
    rw (run, do_request)
      (after_read-Safe a fuel (record s { timers = m }) (record req { timer = none }) _ held refl)

after_write-Ended :
    (now : ℕ) (to_write : ℤ) (n : ℕ) (s : NetHttpServer) (req : NetHttpRequest)
    → Held s req
    → req.timer ≡ none
    → Ended s.wire (after_write now to_write n (s, req))
unfolding after_write reset_parse
after_write-Ended now to_write n s req h t = elim (Bool-cases (int_eq (pos n) to_write)) [
  | inl all ↦ elim (Bool-cases (keep_alive req)) [
    | inl keep ↦
        rw (all, keep)
          (wait_for-Ended in_once now s (reset_parse req)
            (Held-change s req (reset_parse req) h refl refl) t)
    | inr close ↦ rw (all, close) (shut-Ended s req h)
  ]
  | inr part ↦ rw part (wait_for-Ended in_out_once now s req h t)
]

pub do_response-Safe :
    (a : Answers) (s : NetHttpServer) (req : NetHttpRequest)
    → Held s req
    → Safe (do_response a (s, req))
unfolding do_response
do_response-Safe a s req h =
    let (m, run, held) = forget_timer-Held s req h in
    let s1 : NetHttpServer = record s { timers = m } in
    let req1 : NetHttpRequest = record req { timer = none } in
    rw (run, do_response)
      (elim (Bool-cases (int_eq (write_able_bytes req1) (pos 0))) [
        | inl nothing ↦ rw nothing (to_Safe _ (wait_for-Ended in_once a.now s1 req1 held refl))
        | inr some_ ↦ rw some_ (
            after_send a.writes s1 req1 _ held refl (λ s' req' n held' t.
              to_Safe _ (after_write-Ended a.now (write_able_bytes req1) n s' req' held' t)))
      ])

send_taken :
    (os : List WriteOutcome) (s : NetHttpServer) (req : NetHttpRequest) (n : ℕ) (sent : List ℕ)
    → write_to_sock req.out_buff.char_vec os ≡ Write.returned (pos n) sent
    → send os (s, req)
      ≡ returns ((record s { wire = (req.fd, sent) ∷ s.wire }, (write_buff req os).0), n)
unfolding send write_buff
send_taken os s req n sent takes = rw (takes, send) refl

-- `__doResponse` on bytes that the socket takes
pub do_response-sends :
    (a : Answers) (s : NetHttpServer) (req : NetHttpRequest) (n : ℕ) (sent : List ℕ)
    → Held s req
    → (int_eq (write_able_bytes req) (pos 0)) ≡ false
    → write_to_sock req.out_buff.char_vec a.writes ≡ Write.returned (pos n) sent
    → Ended ((req.fd, sent) ∷ s.wire) (do_response a (s, req))
unfolding do_response write_buff write_able_bytes
do_response-sends a s req n sent h some_ takes =
    let (m, run, held) = forget_timer-Held s req h in
    let s0 : NetHttpServer = record s { timers = m } in
    let s1 : NetHttpServer = record s0 { wire = (req.fd, sent) ∷ s.wire } in
    let req1 : NetHttpRequest = record req { timer = none } in
    let req2 : NetHttpRequest = (write_buff req1 a.writes).0 in
    let held2 = Held-change s1 req1 req2 (Held-wire s0 s1.wire req1 held) refl refl in
    let ended = after_write-Ended a.now (write_able_bytes req1) n s1 req2 held2 refl in
    let sending = send_taken a.writes s0 req1 n sent takes in
    rw (run, do_response) (rw some_ (rw sending ended))
