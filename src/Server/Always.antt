-- ===== src/Server/Always.antt =====
-- libnet/net_httpserver.h, libnet/net_epoll.h and libnet/net_timer.h: what holds in every state that
-- the server reaches.
use c_s_online_library.Server.Handle.{do_response-sends}
use c_s_online_library.Common.{
  int_eq, ◌⊎◌, Option-cases, inl, inr, ℕ, ◌<◌, ◌≡◌, refl, ap, ◌∙◌, sym, subst, false, none, some,
  List, ◌∷◌, ◌++◌, All, length, ◌+◌, ◌^◌, pos, to_int_small,
}
use c_s_online_library.Request.Defs.{NetHttpRequest, write_able_bytes}
use c_s_online_library.Server.Defs.{
  NetHttpServer, started, ServerTask, on_response, Run, returns, find_request,
}
use c_s_online_library.Server.Handlers.{Answers, do_response}
use c_s_online_library.Server.Keep.{Safe}
use c_s_online_library.Server.Link.{forget-IsLinked, live_callback}
use c_s_online_library.Server.Loop.{handle_expire_timers, run_task}
use c_s_online_library.Server.Track.{requests_of, Tracked, Held}
use c_s_online_library.Timer.Order.{NotDue, Meets, next_expiry-Meets}
use c_s_online_library.Timer.Defs.{del_timer, TimerManager, get_next_expire_time}
use c_s_online_library.Buffer.Send.{answers, total_of, write_to_sock_sends}
use c_s_online_library.Buffer.Socket.{WriteOutcome, wrote, Write, write_to_sock}
use c_s_online_library.Server.Reach.{
  IsQuiet, QuietStep, accepts, events, works, waits, expires, QuietlyServed, begins, goes_on,
}
use c_s_online_library.Server.Steps.{accept-Tracked, handle_event-Safe, task-Held, run_task-Safe}
use c_s_online_library.Server.Rounds.{drop_deleted-IsLinked, handle_expire_timers-Tracked}

started-Tracked : (fd : ℕ) → Tracked (started fd)
unfolding live_callback find_request
started-Tracked fd = record {
  linked = record {
    has_fd = λ j r h. cc;
    points = λ j p r h. cc;
    owned = λ p j h. cc;
    below = tt;
    names = tt;
    ordered = tt;
  };
  unique = tt;
  tasks_ok = tt;
}

Safe-state : (r : Run NetHttpServer) (s' : NetHttpServer) → r ≡ returns s' → Safe r → Tracked s'
Safe-state r s' e safe = subst Safe e safe

ends_state :
    (r : Run NetHttpServer) (a b : NetHttpServer)
    → r ≡ returns a
    → r ≡ returns b
    → Tracked a
    → Tracked b
ends_state r a b e f k = subst Safe (sym e ∙ f) k

QuietStep-Tracked : (s s' : NetHttpServer) → QuietStep s s' → Tracked s → Tracked s'
unfolding get_next_expire_time
QuietStep-Tracked s s' (accepts now fd new run) k =
    let (a, run', tracked) = accept-Tracked now fd s k new in ends_state _ a s' run' run tracked
QuietStep-Tracked s s' (events now fd bits req other there others run) k =
    Safe-state _ s' run (handle_event-Safe now fd bits s req k other there others)
QuietStep-Tracked s s' (works a fuel run) k =
    Safe-state _ s' run (run_task-Safe a fuel s s.tasks refl k)
QuietStep-Tracked s s' (waits _ now) k = record {
  linked =
      drop_deleted-IsLinked (requests_of s.requests) s.timers s.timers.time_queue refl k.linked;
  unique = k.unique;
  tasks_ok = k.tasks_ok;
}
QuietStep-Tracked s s' (expires now quiet run) k =
    let (a, run', tracked, _) = handle_expire_timers-Tracked now s quiet k in
    ends_state _ a s' run' run tracked

pub QuietlyServed-Tracked : (fd : ℕ) (s : NetHttpServer) → QuietlyServed fd s → Tracked s
QuietlyServed-Tracked fd s begins = started-Tracked fd
QuietlyServed-Tracked fd s (goes_on earlier step) =
    QuietStep-Tracked _ s step (QuietlyServed-Tracked fd _ earlier)

-- In every state of a quiet run, in which a handler runs to its end before another step and
-- timers expire only when none that is due is of a request marked as working,
-- a request of the set has no timer, or one that is in the queue, is live and closes that request; and
-- `delTimer` on it uses nothing that is freed.
pub QuietlyServed-timers :
    (fd j : ℕ) (s : NetHttpServer) (req : NetHttpRequest)
    → QuietlyServed fd s
    → find_request j s.requests ≡ some req
    → ((req.timer ≡ none)
        ⊎ ((p : ℕ) × (req.timer ≡ some p) × (live_callback p s.timers.time_queue ≡ some j)))
      × ((m : TimerManager) × (del_timer s.timers req ≡ some (m, record req { timer = none })))
QuietlyServed-timers fd j s req served there =
    let t = QuietlyServed-Tracked fd s served in
    let f = requests_of s.requests in
    let at = t.linked.has_fd j req there in
    let (m, run, _) = forget-IsLinked f s.timers req t.linked (ap f at ∙ there) in
    (
      elim (Option-cases req.timer) [
        | inl e ↦ inl e
        | inr (p, e) ↦ inr (p, e, t.linked.points j p req there e)
      ],
      (m, run),
    )

-- In every state of a quiet run, in which a handler runs to its end before another step and
-- timers expire only when none that is due is of a request marked as working,
-- and at another such time: `handleExpireTimers` uses nothing that is freed, returns, and leaves no timer
-- in the queue, deleted or live, that is due.
pub QuietlyServed-expires :
    (fd now : ℕ) (s : NetHttpServer)
    → QuietlyServed fd s
    → IsQuiet now s
    → (s' : NetHttpServer) × (handle_expire_timers now s ≡ returns s')
      × QuietlyServed fd s'
      × All (NotDue now) s'.timers.time_queue
QuietlyServed-expires fd now s served quiet =
    let (s', run, tracked, stops) =
      handle_expire_timers-Tracked now s quiet (QuietlyServed-Tracked fd s served) in
    (
      s',
      run,
      goes_on served (expires now quiet run),
      subst (Meets now s'.timers.time_queue) stops
          (next_expiry-Meets s'.timers.time_queue now tracked.linked.ordered),
    )

run_task-response :
    (a : Answers) (fuel j : ℕ) (s : NetHttpServer) (req : NetHttpRequest) (ts : List ServerTask)
    → s.tasks ≡ on_response j ∷ ts
    → find_request j s.requests ≡ some req
    → run_task a fuel s ≡ do_response a (record s { tasks = ts }, req)
unfolding run_task
run_task-response a fuel j s req ts e there = rw (e, run_task) (rw (there, run_task) refl)

-- In every state of a quiet run: a worker that takes the task of a response, whose bytes the
-- socket takes in any parts, puts exactly these bytes on the wire and returns. The last part is
-- below 2 ^ 31 bytes.
pub QuietlyServed-response :
    (fd fuel j last : ℕ) (a : Answers) (s : NetHttpServer) (req : NetHttpRequest)
    (ts : List ServerTask) (ns : List ℕ) (more : List WriteOutcome)
    → QuietlyServed fd s
    → s.tasks ≡ on_response j ∷ ts
    → find_request j s.requests ≡ some req
    → (int_eq (write_able_bytes req) (pos 0)) ≡ false
    → a.writes ≡ answers ns ++ wrote last ∷ more
    → total_of ns + last ≡ length req.out_buff.char_vec
    → 0 < last
    → last < 2 ^ 31
    → (s' : NetHttpServer) × (run_task a fuel s ≡ returns s')
      × QuietlyServed fd s'
      × (s'.wire ≡ (j, req.out_buff.char_vec) ∷ s.wire)
QuietlyServed-response fd fuel j last a s req ts ns more served e there some_ taken total positive
      small =
    let k = QuietlyServed-Tracked fd s served in
    let (r, found, held) = task-Held s (on_response j) ts k e in
    let same : r ≡ req = cc in
    let h : Held (record s { tasks = ts }) req = subst (Held (record s { tasks = ts })) same held in
    let sends : write_to_sock req.out_buff.char_vec a.writes
        ≡ Write.returned (pos last) req.out_buff.char_vec =
      ap (write_to_sock req.out_buff.char_vec) taken
      ∙ write_to_sock_sends req.out_buff.char_vec ns last more total positive
      ∙ ap (λ i. Write.returned i req.out_buff.char_vec) (to_int_small last small) in
    let (s', run, wire, _) =
      do_response-sends a (record s { tasks = ts }) req last req.out_buff.char_vec h some_ sends in
    let runs = run_task-response a fuel j s req ts e there ∙ run in
    (
      s',
      runs,
      goes_on served (works a fuel runs),
      wire ∙ ap (λ i. (i, req.out_buff.char_vec) ∷ s.wire) (k.linked.has_fd j req there),
    )
