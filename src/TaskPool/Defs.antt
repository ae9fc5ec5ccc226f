-- ===== src/TaskPool/Defs.antt =====
-- src/include/thread_pool/thread_pool.h: `ThreadPool`, whose queue gives the most urgent task first. A
-- step is what a thread does under the mutex, or its test of `pool_is_start_` outside of it.
use c_s_online_library.Common.{
  ℕ, zero, suc, ◌+◌, ◌≤◌, ◌≡◌, Bool, true, false, List, [], ◌∷◌, ◌++◌, All, if◌then◌else◌,
}

pub data TaskPriority : Type 0 where
  no_1 no_2 no_3 : TaskPriority

abbrev pub rank : TaskPriority → ℕ
rank no_1 = 0
rank no_2 = 1
rank no_3 = 2

-- A task with its priority; tasks are named by numbers.
pub record TaskPair : Type 0 where
  pub first : TaskPriority
  pub second : ℕ

-- The pool, with the number of the threads before the test of the loop, before the lock of `take`,
-- in `pthread_cond_wait` and behind the loop, the tasks that run, and all that were added and taken
pub record TaskPool : Type 0 where
  pub pool_is_start : Bool
  pub tasks : List TaskPair
  pub looping : ℕ
  pub taking : ℕ
  pub waiting : ℕ
  pub exited : ℕ
  pub working : List TaskPair
  pub added : List TaskPair
  pub taken : List TaskPair

-- `start` on a new pool
abbrev pub started_pool : ℕ → TaskPool
started_pool threads = record {
  pool_is_start = true;
  tasks = [];
  looping = threads;
  taking = 0;
  waiting = 0;
  exited = 0;
  working = [];
  added = [];
  taken = [];
}

-- `pthread_cond_signal`
abbrev pub signal : TaskPool → TaskPool
signal p = elim p.waiting [ zero ↦ p | suc n ↦ record p { waiting = n; taking = suc p.taking } ]

unfoldable pub add_task : TaskPair → TaskPool → TaskPool
add_task t p = signal (record p { tasks = t ∷ p.tasks; added = t ∷ p.added })

-- `stop` up to its joins, with `pthread_cond_broadcast`
unfoldable pub stop_pool : TaskPool → TaskPool
stop_pool p =
    if p.pool_is_start
    then record p { pool_is_start = false; taking = p.waiting + p.taking; waiting = 0 }
    else p

-- The test of the loop, by the last of `suc n` threads
unfoldable pub loop_test : ℕ → TaskPool → TaskPool
loop_test n p =
    if p.pool_is_start
    then record p { looping = n; taking = suc p.taking }
    else record p { looping = n; exited = suc p.exited }

-- `take` of the task `t`, with these behind it
unfoldable pub take_top : ℕ → TaskPair → List TaskPair → TaskPool → TaskPool
take_top n t rest p = record p {
  taking = n;
  tasks = rest;
  working = t ∷ p.working;
  taken = t ∷ p.taken;
}

-- A step of one of the threads
pub data PoolTurn : TaskPool → TaskPool → Type 0 where
  loops : (p : TaskPool) (n : ℕ) → p.looping ≡ suc n → PoolTurn p (loop_test n p)
  -- `take` with nothing to take
  waits :
      (p : TaskPool) (n : ℕ)
      → p.taking ≡ suc n
      → p.tasks ≡ []
      → p.pool_is_start ≡ true
      → PoolTurn p (record p { taking = n; waiting = suc p.waiting })
  -- `take` of a task such that no other is more urgent
  takes :
      (p : TaskPool) (n : ℕ) (t : TaskPair) (before after : List TaskPair)
      → p.taking ≡ suc n
      → p.pool_is_start ≡ true
      → p.tasks ≡ before ++ (t ∷ after)
      → All (λ u. rank t.first ≤ rank u.first) p.tasks
      → PoolTurn p (take_top n t (before ++ after) p)
  -- `take` of the stopped pool, which returns no task
  leaves :
      (p : TaskPool) (n : ℕ)
      → p.taking ≡ suc n
      → p.pool_is_start ≡ false
      → PoolTurn p (record p { taking = n; looping = suc p.looping })
  -- the end of `task(NULL)`
  finishes :
      (p : TaskPool) (t : TaskPair) (before after : List TaskPair)
      → p.working ≡ before ++ (t ∷ after)
      → PoolTurn p (record p { working = before ++ after; looping = suc p.looping })

-- A step of a thread, of the pool's owner, or a spurious wake-up
pub data PoolStep : TaskPool → TaskPool → Type 0 where
  runs : {p p' : TaskPool} → PoolTurn p p' → PoolStep p p'
  adds : (p : TaskPool) (t : TaskPair) → PoolStep p (add_task t p)
  stops : (p : TaskPool) → PoolStep p (stop_pool p)
  wakes_up :
      (p : TaskPool) (n : ℕ)
      → p.waiting ≡ suc n
      → PoolStep p (record p { waiting = n; taking = suc p.taking })

pub data Runs (threads : ℕ) : TaskPool → Type 0 where
  begins : Runs threads (started_pool threads)
  goes_on : {p p' : TaskPool} → Runs threads p → PoolStep p p' → Runs threads p'
