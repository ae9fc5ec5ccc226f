-- ===== src/Server/Loop.antt =====
-- libnet/net_epoll.h, `handleEvents`, and the rounds of `run` in libnet/net_httpserver.h. Events are
-- the bits of `events`; a task waits in `tasks` until a thread of the pool runs it.
use c_s_online_library.Common.{
  ℕ, zero, suc, ◌/◌, ◌%◌, ◌^◌, Bool, true, ◌||◌, none, some, List, [], ◌∷◌, ◌++◌, ◌==◌, ℤ,
  if◌then◌else◌, length,
}
use c_s_online_library.Server.Defs.{
  NetHttpServer, ServerTask, on_request, on_response, Handled, Run, returns, faults, ◌>>=◌,
  find_request, write_back, close_connection, accept_connection,
}
use c_s_online_library.Server.Handlers.{Answers, shut, do_request, do_response}
use c_s_online_library.Timer.Defs.{
  NetTimer, get_next_expire_time, idle, freed, fires, next_expiry, pop,
}

abbrev pub epollin : ℕ
epollin = 0

abbrev pub epollout : ℕ
epollout = 2

abbrev pub epollerr : ℕ
epollerr = 3

abbrev pub epollhup : ℕ
epollhup = 4

-- `events & (1 << k)`
abbrev pub has_bit : ℕ → ℕ → Bool
has_bit events k = (events / 2 ^ k) % 2 == 1

-- `setWorking`, and a task in the pool's queue
unfoldable pub execute : (ℕ → ServerTask) → Handled → NetHttpServer
execute task (s, req) =
    let s' = write_back (s, record req { working = true }) in
    record s' { tasks = s'.tasks ++ task req.fd ∷ [] }

-- The branches for a connection's event. `(!events) & EPOLLIN` holds of no event at all only.
unfoldable pub handle_connection : ℕ → Handled → Run NetHttpServer
handle_connection events h =
    if has_bit events epollerr || has_bit events epollhup || events == 0
    then shut h
    else if has_bit events epollin
    then returns (execute on_request h)
    else if has_bit events epollout
    then returns (execute on_response h)
    else returns h.0

-- One round of `handleEvents`; accept4 returns `accepted` if the event is the listener's.
unfoldable pub handle_event : ℕ → List ℕ → ℕ × ℕ → NetHttpServer → Run NetHttpServer
handle_event now accepted (fd, events) s =
    if fd == s.listen_fd
    then accept_connection now accepted s
    else elim (find_request fd s.requests) [
      | none ↦ faults
      | some req ↦ handle_connection events (s, req)
    ]

-- `handleEvents`
unfoldable pub handle_events : ℕ → List ℕ → List (ℕ × ℕ) → NetHttpServer → Run NetHttpServer
handle_events now accepted [] s = returns s
handle_events now accepted (e ∷ es) s = do
  s' ← handle_event now accepted e s
  handle_events now accepted es s'

unfoldable pub pop_timer : NetHttpServer → NetHttpServer
pop_timer s = record s { timers = record s.timers { time_queue = pop s.timers.time_queue } }

-- The callback of an expired timer, then its pop and `delete`.
unfoldable pub fire : NetTimer → NetHttpServer → Run NetHttpServer
fire t s = elim (find_request t.callback s.requests) [
  | none ↦ faults
  | some req ↦ close_connection (s, req) >>= λ s'. returns (pop_timer s')
]

-- `handleExpireTimers`; a round takes a timer off the queue, which bounds the rounds.
unfoldable pub expire_loop : ℕ → ℕ → NetHttpServer → Run NetHttpServer
expire_loop zero now s = returns s
expire_loop (suc rounds) now s = elim (next_expiry s.timers.time_queue now) [
  | idle ↦ returns s
  | freed xs ↦ expire_loop rounds now (pop_timer s)
  | fires t ↦ fire t s >>= λ s'. expire_loop rounds now s'
]

unfoldable pub handle_expire_timers : ℕ → NetHttpServer → Run NetHttpServer
handle_expire_timers now s = expire_loop (length s.timers.time_queue) now s

-- A worker takes the oldest task and runs it.
unfoldable pub run_task : Answers → ℕ → NetHttpServer → Run NetHttpServer
run_task a fuel s = elim s.tasks [
  | [] ↦ returns s
  | on_request fd ∷ ts ↦ elim (find_request fd s.requests) [
    | none ↦ faults
    | some req ↦ do_request a fuel (record s { tasks = ts }, req)
  ]
  | on_response fd ∷ ts ↦ elim (find_request fd s.requests) [
    | none ↦ faults
    | some req ↦ do_response a (record s { tasks = ts }, req)
  ]
]

-- A round of the loop of `run`. `epoll_wait` gives the events for a timeout, at most as many as are
-- asked for; the times are those at which the timers are looked at.
unfoldable pub run_round : (ℤ → List (ℕ × ℕ)) → ℕ → List ℕ → ℕ → NetHttpServer → Run NetHttpServer
run_round epoll_wait now accepted later s =
    let next = get_next_expire_time s.timers now in
    handle_events now accepted (epoll_wait next.1) (record s { timers = next.0 }) >>= λ s'.
    handle_expire_timers later s'
