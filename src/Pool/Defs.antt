-- ===== src/Pool/Defs.antt =====
-- libnet/task_queue.h and libnet/threadpool.h. The priority queue is its list of tasks, the top
-- first; of two with one priority the older is in front. What a thread does between taking and
-- giving back the mutex is one step; a task runs between two steps.
use c_s_online_library.Common.{
  ℕ, suc, ◌+◌, ◌<◌, ◌%◌, ◌^◌, ◌≡◌, Bool, true, false, Option, none, some, List, [], ◌∷◌, ltb, ◌==◌,
  if◌then◌else◌,
}

-- `Task`, with the number of its `TaskPriority`
pub record Task : Type 0 where
  pub runnable : ℕ
  pub priority : ℕ

-- NO_3
abbrev pub no_3 : ℕ
no_3 = 2

-- `TaskQueue::Push`, the top being a task that is less than none by `TaskCmp`
unfoldable pub push_task : Task → List Task → List Task
push_task t [] = t ∷ []
push_task t (x ∷ xs) = if ltb x.priority t.priority then t ∷ x ∷ xs else x ∷ push_task t xs

-- `TaskQueue::Front`, `none` for NULL
abbrev pub front : List Task → Option ℕ
front [] = none
front (t ∷ ts) = some t.runnable

-- `TaskQueue::Pop`
abbrev pub pop_task : List Task → List Task
pop_task [] = []
pop_task (t ∷ ts) = ts

-- `TPState`
pub data TpState : Type 0 where
  running stop terminated : TpState

-- A thread waits for `mCond`, is about to test `mState`, runs a task, or has ended.
pub data Worker : Type 0 where
  asleep ready exited : Worker
  busy : ℕ → Worker

-- `shutting` and `hurrying` count the calls of `Shutdown` and `ShutdownNow` that are between the test
-- of `mState` and its assignment, which no mutex protects.
pub record ThreadPool : Type 0 where
  pub queue : List Task
  pub task_count : ℕ
  pub finish_count : ℕ
  pub threads : ℕ → Worker
  pub state : TpState
  pub shutting : ℕ
  pub hurrying : ℕ

-- `Init`; the counters, which no code sets, start at any value.
abbrev pub init : ℕ → ℕ → ThreadPool
init tasks finished = record {
  queue = [];
  task_count = tasks;
  finish_count = finished;
  threads = λ i. ready;
  state = running;
  shutting = 0;
  hurrying = 0;
}

-- `mState >= STOP`
abbrev pub stopped : TpState → Bool
stopped running = false
stopped stop = true
stopped terminated = true

-- Thread `i` becomes `w`.
abbrev pub set_thread : ℕ → Worker → ThreadPool → ThreadPool
set_thread i w p = record p { threads = λ j. if j == i then w else p.threads j }

-- `Execute`; the signal is a step of the thread that it wakes. `none` is NULL.
unfoldable pub execute_task : Option ℕ → ThreadPool → Bool × ThreadPool
execute_task none p = (false, p)
execute_task (some r) p = if stopped p.state then (false, p) else (
  true,
  record p {
    queue = push_task (record { runnable = r; priority = no_3 }) p.queue;
    task_count = (p.task_count + 1) % 2 ^ 64;
  },
)

-- `--mTaskCount` and `Pop`; the thread gives back the mutex and runs the task.
abbrev pub take_task : ℕ → ℕ → ThreadPool → ThreadPool
take_task i r p = set_thread i (busy r) (record p {
  queue = pop_task p.queue;
  task_count = (p.task_count + 18446744073709551615) % 2 ^ 64;
})

-- `ThreadProc` from the test of `mState` to where it gives back the mutex
unfoldable pub thread_turn : ℕ → ThreadPool → ThreadPool
thread_turn i p = elim p.state [
  | running ↦ elim (front p.queue) [ none ↦ set_thread i asleep p | some r ↦ take_task i r p ]
  | stop ↦ elim (front p.queue) [ none ↦ set_thread i exited p | some r ↦ take_task i r p ]
  | terminated ↦ set_thread i exited p
]

-- The end of a task: the mutex again, and `mFinishCount++`.
abbrev pub finish_task : ℕ → ThreadPool → ThreadPool
finish_task i p = set_thread i ready (record p { finish_count = (p.finish_count + 1) % 2 ^ 64 })

-- The test of `Shutdown`
abbrev pub shutdown : ThreadPool → ThreadPool
shutdown p = if stopped p.state then p else record p { shutting = suc p.shutting }

-- `mState = STOP` in `Shutdown`, and the broadcast
abbrev pub set_stop : ℕ → ThreadPool → ThreadPool
set_stop left p = record p { shutting = left; state = stop }

-- The test of `ShutdownNow`
abbrev pub shutdown_now : ThreadPool → ThreadPool
shutdown_now p = elim p.state [
  | running ↦ record p { hurrying = suc p.hurrying }
  | stop ↦ p
  | terminated ↦ record p { hurrying = suc p.hurrying }
]

-- `mState = TERMINATED` in `ShutdownNow`, and the broadcast
abbrev pub set_terminated : ℕ → ThreadPool → ThreadPool
set_terminated left p = record p { hurrying = left; state = terminated }

-- A step of a pool of `n` threads, whose clients may call `ShutdownNow` or do not. A sleeping thread may wake at any time, as a condition variable
-- allows; `joined` is the end of `Shutdown`, and `cleared` that of `ShutdownNow`.
pub data Step (n : ℕ) (now : Bool) : ThreadPool → ThreadPool → Type 0 where
  executes : (r : Option ℕ) (p : ThreadPool) → Step n now p (execute_task r p).1
  wakes : (i : ℕ) (p : ThreadPool) → p.threads i ≡ asleep → Step n now p (set_thread i ready p)
  turns : (i : ℕ) (p : ThreadPool) → p.threads i ≡ ready → Step n now p (thread_turn i p)
  ends : (i r : ℕ) (p : ThreadPool) → p.threads i ≡ busy r → Step n now p (finish_task i p)
  shuts : (p : ThreadPool) → Step n now p (shutdown p)
  stops : (left : ℕ) (p : ThreadPool) → p.shutting ≡ suc left → Step n now p (set_stop left p)
  shuts_now : (p : ThreadPool) → now ≡ true → Step n now p (shutdown_now p)
  terminates :
      (left : ℕ) (p : ThreadPool)
      → p.hurrying ≡ suc left
      → now ≡ true
      → Step n now p (set_terminated left p)
  joined :
      (p : ThreadPool)
      → ((i : ℕ) → i < n → p.threads i ≡ exited)
      → p.state ≡ stop
      → Step n now p (record p { state = terminated })
  cleared :
      (p : ThreadPool)
      → ((i : ℕ) → i < n → p.threads i ≡ exited)
      → p.state ≡ terminated
      → now ≡ true
      → Step n now p (record p { queue = []; task_count = 0 })

-- The states that a pool of `n` threads gets into.
pub data Reachable (n : ℕ) (now : Bool) : ThreadPool → Type 0 where
  starts : (a b : ℕ) → Reachable n now (init a b)
  steps : {p q : ThreadPool} → Reachable n now p → Step n now p q → Reachable n now q
