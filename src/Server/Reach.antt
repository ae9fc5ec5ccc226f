-- ===== src/Server/Reach.antt =====
-- libnet/net_httpserver.h with libnet/net_epoll.h and libnet/net_timer.h: quiet runs of the server:
-- new connections, events, tasks and timers in any order, where a handler runs to its end before another
-- step, and timers expire only at quiet times. The code has neither restriction: `run` lets handlers and
-- the expiry of timers overlap.
use c_s_online_library.Common.{ℕ, ◌≡◌, ◌≢◌, true, false, none, some, List, [], ◌∷◌, All, ◌==◌}
use c_s_online_library.Request.Defs.{NetHttpRequest}
use c_s_online_library.Server.Defs.{
  NetHttpServer, started, returns, find_request, accept_connection,
}
use c_s_online_library.Server.Handlers.{Answers}
use c_s_online_library.Server.Loop.{handle_event, handle_expire_timers, run_task}
use c_s_online_library.Server.Track.{task_fd}
use c_s_online_library.Timer.Defs.{NetTimer, is_due, get_next_expire_time}

-- No timer that is due, and not deleted, is of a request that is marked as working.
abbrev pub QuietTimers : ℕ → List NetHttpRequest → List NetTimer → Type 0
QuietTimers now rs = All (λ t.
    is_due t now ≡ true
    → t.deleted ≡ false
    → (req : NetHttpRequest) → find_request t.callback rs ≡ some req
    → req.working ≡ false)

abbrev pub IsQuiet : ℕ → NetHttpServer → Type 0
IsQuiet now s = QuietTimers now s.requests s.timers.time_queue

-- A step of a quiet run. An event is of a connection that has no task: epoll waits for it again (EPOLLONESHOT) only
-- when a handler has asked for it at its end.
pub data QuietStep : NetHttpServer → NetHttpServer → Type 0 where
  accepts :
      {s s' : NetHttpServer} (now fd : ℕ)
      → find_request fd s.requests ≡ none
      → accept_connection now (fd ∷ []) s ≡ returns s'
      → QuietStep s s'
  events :
      {s s' : NetHttpServer} (now fd bits : ℕ) (req : NetHttpRequest)
      → (fd == s.listen_fd) ≡ false
      → find_request fd s.requests ≡ some req
      → All (λ t. task_fd t ≢ fd) s.tasks
      → handle_event now [] (fd, bits) s ≡ returns s'
      → QuietStep s s'
  works :
      {s s' : NetHttpServer} (a : Answers) (fuel : ℕ)
      → run_task a fuel s ≡ returns s'
      → QuietStep s s'
  waits :
      (s : NetHttpServer) (now : ℕ)
      → QuietStep s (record s { timers = (get_next_expire_time s.timers now).0 })
  expires :
      {s s' : NetHttpServer} (now : ℕ)
      → IsQuiet now s
      → handle_expire_timers now s ≡ returns s'
      → QuietStep s s'

-- The states of the quiet runs
pub data QuietlyServed (fd : ℕ) : NetHttpServer → Type 0 where
  begins : QuietlyServed fd (started fd)
  goes_on : {s s' : NetHttpServer} → QuietlyServed fd s → QuietStep s s' → QuietlyServed fd s'
