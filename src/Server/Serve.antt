-- ===== src/Server/Serve.antt =====
-- libnet/net_httpserver.h with libnet/net_epoll.h: from the bytes of a request for a file to its response
-- on the wire, by way of the event loop and two workers.
use c_s_online_library.Buffer.Defs.{data_size}
use c_s_online_library.Buffer.Send.{answers, total_of}
use c_s_online_library.Buffer.Socket.{ReadOutcome, WriteOutcome, wrote}
use c_s_online_library.Common.{
  int_eq, pos, to_int_small, ℕ, ◌+◌, ◌<◌, ◌^◌, ◌≡◌, ◌≢◌, refl, ap, ◌∙◌, sym, subst, true, false,
  Option, none, some, List, [], ◌∷◌, ◌++◌, Bytes, All, length, ◌==◌, arith,
}
use c_s_online_library.Request.Defs.{NetHttpRequest, write_able_bytes}
use c_s_online_library.Request.Render.{Head}
use c_s_online_library.Server.Defs.{
  NetHttpServer, in_out_once, returns, find_request, put_request, write_back, rearm,
}
use c_s_online_library.Server.Handlers.{Answers, do_request}
use c_s_online_library.Response.File.{page}
use c_s_online_library.Server.Defs.{ServerTask, on_request, on_response}
use c_s_online_library.Server.Keep.{forget_timer-Held}
use c_s_online_library.Server.Loop.{execute, handle_connection, handle_event, run_task}
use c_s_online_library.Server.Page.{answer_of, answer_of-change, Asks, after_read-file}
use c_s_online_library.Server.Reach.{QuietlyServed, goes_on, events, works}
use c_s_online_library.Server.Steps.{task-Held}
use c_s_online_library.Server.Track.{task_fd, Held, find_request-put_request}
use c_s_online_library.Server.Always.{QuietlyServed-Tracked, QuietlyServed-response}
use c_s_online_library.Timer.Defs.{TimerManager}

pub run_task-request :
    (a : Answers) (fuel j : ℕ) (s : NetHttpServer) (req : NetHttpRequest) (ts : List ServerTask)
    → s.tasks ≡ on_request j ∷ ts
    → find_request j s.requests ≡ some req
    → run_task a fuel s ≡ do_request a fuel (record s { tasks = ts }, req)
unfolding run_task
run_task-request a fuel j s req ts e there = rw (e, run_task) (rw (there, run_task) refl)

Asks-timer :
    (a : Answers) (req : NetHttpRequest) (h : Head) (rest text : Bytes) (os more : List ReadOutcome)
    (t : Option ℕ)
    → Asks a req h rest text os more
    → Asks a (record req { timer = t }) h rest text os more
Asks-timer a req h rest text os more t k = record {
  ready = k.ready;
  all_read = k.all_read;
  all_sent = k.all_sent;
  well_formed = k.well_formed;
  no_body = k.no_body;
  no_query = k.no_query;
  file = k.file;
  below =
      subst (λ r. length (page r text) < 2 ^ 31) (sym (answer_of-change a req h req.in_buff t))
        k.below;
  reads = k.reads;
  chunks = k.chunks;
  arrives = k.arrives;
  fits = k.fits;
}

-- `__doRequest`
do_request-file :
    (a : Answers) (fuel : ℕ) (s : NetHttpServer) (req : NetHttpRequest) (h : Head)
    (rest text : Bytes) (os more : List ReadOutcome)
    → Held s req
    → Asks a req h rest text os more
    → length h.headers + 1 < fuel
    → (m : TimerManager) × (q : NetHttpRequest) × (do_request a fuel (s, req)
        ≡ returns (write_back (rearm in_out_once (record s { timers = m }, q))))
      × (q.fd ≡ req.fd)
      × (q.out_buff.char_vec ≡ page (answer_of a req h) text)
unfolding do_request
do_request-file a fuel s req h rest text os more held k enough =
    let (m, forgets, _) = forget_timer-Held s req held in
    let (q, runs, same_fd, bytes) =
      after_read-file a (record req { timer = none }) h rest text os more fuel
        (record s { timers = m }) (Asks-timer a req h rest text os more none k) enough in
    (
      m,
      q,
      rw (forgets, do_request) runs,
      same_fd,
      bytes ∙ ap (λ r. page r text) (answer_of-change a req h req.in_buff none),
    )

-- EPOLLOUT of a connection
handle_event-out :
    (now j : ℕ) (s : NetHttpServer) (q : NetHttpRequest)
    → (j == s.listen_fd) ≡ false
    → find_request j s.requests ≡ some q
    → handle_event now [] (j, 4) s ≡ returns (execute on_response (s, q))
unfolding handle_event handle_connection
handle_event-out now j s q other there = rw (other, handle_event) (rw (there, handle_event) refl)

find_changed :
    (j : ℕ) (q old : NetHttpRequest) (rs : List NetHttpRequest)
    → find_request j rs ≡ some old
    → q.fd ≡ j
    → find_request j (put_request q rs) ≡ some q
find_changed j q old rs found e =
    find_request-put_request j q old rs (ap (λ i. find_request i rs) e ∙ found) ∙ ground (arith, e)

has_output :
    (q : NetHttpRequest)
    → 0 < length q.out_buff.char_vec
    → length q.out_buff.char_vec < 2 ^ 31
    → (int_eq (write_able_bytes q) (pos 0)) ≡ false
unfolding write_able_bytes data_size int_eq
has_output q h small =
    ap (λ i. int_eq i (pos 0)) (to_int_small (length q.out_buff.char_vec) small) ∙ ground (arith, h)

last_positive :
    (n total last : ℕ) (ns : List ℕ) → n ≡ total → total_of ns + last ≡ total → 0 < last → 0 < n
last_positive n total last ns e t h = omega (arith, e, t, h)

-- The event and the worker of a response that is ready
response_leg :
    (fd fuel now j last : ℕ) (b : Answers) (s : NetHttpServer) (q : NetHttpRequest) (out : Bytes)
    (ns : List ℕ) (more : List WriteOutcome)
    → QuietlyServed fd s
    → s.tasks ≡ []
    → (j == s.listen_fd) ≡ false
    → find_request j s.requests ≡ some q
    → q.fd ≡ j
    → q.out_buff.char_vec ≡ out
    → length out < 2 ^ 31
    → b.writes ≡ answers ns ++ wrote last ∷ more
    → total_of ns + last ≡ length out
    → 0 < last
    → last < 2 ^ 31
    → (s2 : NetHttpServer) × (s3 : NetHttpServer) × (handle_event now [] (j, 4) s ≡ returns s2)
      × (run_task b fuel s2 ≡ returns s3)
      × QuietlyServed fd s3
      × (s3.wire ≡ (j, out) ∷ s.wire)
unfolding execute write_back
response_leg fd fuel now j last b s q out ns more served idle_ other there at bytes below taken
      total positive small =
    let run2 = handle_event-out now j s q other there in
    let q2 : NetHttpRequest = record q { working = true } in
    let size = ap length bytes in
    let (s3, run3, served3, wire) =
      QuietlyServed-response fd fuel j last b (execute on_response (s, q)) q2 [] ns more
        (goes_on served
          (events now j 4 q other there (subst (All (λ u. task_fd u ≢ j)) (sym idle_) tt) run2))
        (ap (λ l. l ++ on_response q.fd ∷ []) idle_ ∙ ap (λ i. on_response i ∷ []) at)
        (find_changed j q2 q s.requests there at)
        (has_output q2 (last_positive _ _ last ns size total positive)
          (subst (λ o. length o < 2 ^ 31) (sym bytes) below))
        taken (total ∙ sym size) positive small in
    (execute on_response (s, q), s3, run2, run3, served3, wire ∙ ap (λ l. (j, l) ∷ s.wire) bytes)

-- From any state of a quiet run, in which a handler runs to its end before another step and
-- timers expire only when none that is due is of a request marked as working,
-- where the only task is a request that expects its request
-- line, with nothing unread and nothing to send, and whose bytes, in any chunks up to EAGAIN, are a
-- head that asks, without a body or a query, for a file that is no program, and that is below 2 GiB together with the
-- head of its response: a worker that
-- takes the task, the event that the connection can be written, and a worker that takes that task put
-- the status line, the header fields, an empty line and the file on the wire, in order and nothing
-- else, if the socket takes the bytes in any parts, the last of them below 2 ^ 31. The input fits an
-- `int`, and the parser has more rounds than the head has lines. Each of the three returns, and the
-- run is still a quiet one.
pub QuietlyServed-page :
    (fd fuel now j last : ℕ) (a b : Answers) (s : NetHttpServer) (req : NetHttpRequest) (h : Head)
    (rest text : Bytes) (os more : List ReadOutcome) (ns : List ℕ) (more_writes : List WriteOutcome)
    → QuietlyServed fd s
    → s.tasks ≡ on_request j ∷ []
    → find_request j s.requests ≡ some req
    → (j == s.listen_fd) ≡ false
    → Asks a req h rest text os more
    → length h.headers + 1 < fuel
    → b.writes ≡ answers ns ++ wrote last ∷ more_writes
    → total_of ns + last ≡ length (page (answer_of a req h) text)
    → 0 < last
    → last < 2 ^ 31
    → (s1 : NetHttpServer) × (s2 : NetHttpServer) × (s3 : NetHttpServer) × (run_task a fuel s
        ≡ returns s1)
      × (handle_event now [] (j, 4) s1 ≡ returns s2)
      × (run_task b fuel s2 ≡ returns s3)
      × QuietlyServed fd s3
      × (s3.wire ≡ (j, page (answer_of a req h) text) ∷ s.wire)
unfolding rearm write_back
QuietlyServed-page fd fuel now j last a b s req h rest text os more ns more_writes served e there
      other k enough taken total positive small =
    let t = QuietlyServed-Tracked fd s served in
    let (old, found, held_old) = task-Held s (on_request j) [] t e in
    let one : old ≡ req = cc in
    let s0 : NetHttpServer = record s { tasks = [] } in
    let held : Held s0 req = subst (Held s0) one held_old in
    let (m, q, runs, same_fd, bytes) =
      do_request-file a fuel s0 req h rest text os more held k enough in
    let at : q.fd ≡ j = same_fd ∙ t.linked.has_fd j req there in
    let run1 = run_task-request a fuel j s req [] e there ∙ runs in
    let s1 : NetHttpServer = write_back (rearm in_out_once (record s0 { timers = m }, q)) in
    let (s2, s3, run2, run3, served3, wire) =
      response_leg fd fuel now j last b s1 q (page (answer_of a req h) text) ns more_writes
        (goes_on served (works a fuel run1)) refl other (find_changed j q req s.requests there at)
        at bytes k.below taken total positive small in
    (s1, s2, s3, run1, run2, run3, served3, wire)
