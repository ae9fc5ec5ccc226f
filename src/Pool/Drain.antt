-- ===== src/Pool/Drain.antt =====
-- libnet/threadpool.h: what `Shutdown` leaves undone, without `ShutdownNow`.
use c_s_online_library.Common.{ℕ, ◌≡◌, List, []}
use c_s_online_library.Pool.Defs.{Task, TpState, running, stop, terminated, exited, ThreadPool}

-- Once a thread has ended the pool is closed and nothing is queued.
abbrev Closed : TpState → List Task → Type 0
Closed running q = ⊥
Closed stop q = q ≡ []
Closed terminated q = q ≡ []

-- `Shutdown` terminates the pool behind its last task.
abbrev Late : TpState → List Task → Type 0
Late running q = Unit
Late stop q = Unit
Late terminated q = q ≡ []

abbrev Drained : ThreadPool → Type 0
Drained p = ((i : ℕ) → p.threads i ≡ exited → Closed p.state p.queue) × Late p.state p.queue
