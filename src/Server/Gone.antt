-- ===== src/Server/Gone.antt =====
-- libnet/net_httpserver.h with libnet/data_buffer.h: a request whose client has closed its side.
use c_s_online_library.Buffer.Defs.{DataBuffer}
use c_s_online_library.Buffer.Receive.{IsChunk, read_fd-until_close}
use c_s_online_library.Buffer.Socket.{ReadOutcome, Read, eof, eagain, read_fd}
use c_s_online_library.Common.{
  ℕ, ◌≡◌, ◌≢◌, refl, ap, ◌∙◌, subst, false, none, List, ◌∷◌, ◌++◌, All, ◌==◌, if◌then◌else◌, arith,
  to_int, minus_one, length, int_eq,
}
use c_s_online_library.Request.Defs.{NetHttpRequest, read_buff}
use c_s_online_library.Server.Always.{QuietlyServed-Tracked}
use c_s_online_library.Server.Defs.{NetHttpServer, ServerTask, on_request, returns, find_request}
use c_s_online_library.Server.Handlers.{Answers, shut, after_read, do_request}
use c_s_online_library.Server.Keep.{Closed, Held-change, forget_timer-Held, shut-Closed}
use c_s_online_library.Server.Loop.{run_task}
use c_s_online_library.Server.Reach.{QuietlyServed, goes_on, works}
use c_s_online_library.Server.Serve.{run_task-request}
use c_s_online_library.Server.Steps.{task-Held}
use c_s_online_library.Server.Track.{Held}

-- A result of -1 with another errno than EAGAIN
after_read-failed :
    (a : Answers) (fuel e : ℕ) (s : NetHttpServer) (req : NetHttpRequest) (b : DataBuffer)
    → (e == eagain) ≡ false
    → after_read a fuel (s, req) (Read.returned b minus_one e)
      ≡ shut (s, record req { in_buff = b })
unfolding after_read int_eq
after_read-failed a fuel e s req b other = rw (other, after_read) refl

do_request-Closed :
    (a : Answers) (fuel : ℕ) (s : NetHttpServer) (req : NetHttpRequest) (os more : List ReadOutcome)
    → Held s req
    → All IsChunk os
    → a.reads ≡ os ++ eof ∷ more
    → (a.errno == eagain) ≡ false
    → Closed req.fd s.wire (do_request a fuel (s, req))
unfolding do_request read_buff
do_request-Closed a fuel s req os more h chunks reads other =
    let (m, forgets, held) = forget_timer-Held s req h in
    let s1 : NetHttpServer = record s { timers = m } in
    let req1 : NetHttpRequest = record req { timer = none } in
    let r = read_fd-until_close req.in_buff a.errno os more chunks in
    let fails : read_fd req.in_buff a.errno a.reads ≡ Read.returned r.after minus_one a.errno =
      ap (read_fd req.in_buff a.errno) reads
      ∙ r.stopped
      ∙ ap (λ i. Read.returned r.after i a.errno)
          (ap (λ c. if c then to_int (length r.after.char_vec) else minus_one) other) in
    let req2 : NetHttpRequest = record req1 { in_buff = r.after } in
    let (s', run, wire, gone, t) = shut-Closed s1 req2 (Held-change s1 req1 req2 held refl refl) in
    (
      s',
      rw (forgets, do_request)
          (ap (after_read a fuel (s1, req1)) fails
            ∙ after_read-failed a fuel a.errno s1 req1 r.after other
            ∙ run),
      wire,
      gone,
      t,
    )

-- In every state of a quiet run, in which a handler runs to its end before another step and
-- timers expire only when none that is due is of a request marked as working,
-- for a worker that takes the task of a request whose client has sent something, or nothing, and closed
-- its side, where errno is not EAGAIN from before: the handler returns and uses nothing that is freed, the connection's request is gone, and nothing is
-- put on the wire, even where the bytes that were read are a whole request.
pub QuietlyServed-closed :
    (fd fuel j : ℕ) (a : Answers) (s : NetHttpServer) (ts : List ServerTask)
    (os more : List ReadOutcome)
    → QuietlyServed fd s
    → s.tasks ≡ on_request j ∷ ts
    → All IsChunk os
    → a.reads ≡ os ++ eof ∷ more
    → a.errno ≢ eagain
    → (s' : NetHttpServer) × (run_task a fuel s ≡ returns s')
      × QuietlyServed fd s'
      × (find_request j s'.requests ≡ none)
      × (s'.wire ≡ s.wire)
QuietlyServed-closed fd fuel j a s ts os more served e chunks reads other =
    let t = QuietlyServed-Tracked fd s served in
    let (req, there, held) = task-Held s (on_request j) ts t e in
    let (s', run, wire, gone, _) =
      do_request-Closed a fuel (record s { tasks = ts }) req os more held chunks reads
        (ground (arith, other)) in
    let runs = run_task-request a fuel j s req ts e there ∙ run in
    let same = t.linked.has_fd j req there in
    (
      s',
      runs,
      goes_on served (works a fuel runs),
      subst (λ i. find_request i s'.requests ≡ none) same gone,
      wire,
    )
