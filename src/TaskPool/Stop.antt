-- ===== src/TaskPool/Stop.antt =====
-- src/include/thread_pool/thread_pool.h: no task gets lost in the pool, no wake-up is missed, and
-- `stop` comes to its end.
use c_s_online_library.Common.{
  ℕ, suc, ◌⊎◌, inl, inr, ◌+◌, ◌*◌, ◌<◌, ◌≤◌, ◌≡◌, refl, sym, ap, subst, ◌∙◌, true, false,
  Bool-cases, ltb, List, [], ◌∷◌, ◌++◌, All, length, length-middle, tally, ℕ-cases, List-cases,
  arith,
}
use mathlib.Core.Bool.{false≢true}
use c_s_online_library.TaskPool.Defs.{
  rank, TaskPair, TaskPool, loop_test, PoolTurn, loops, waits, takes, leaves, finishes, Runs,
}
use c_s_online_library.TaskPool.Sound.{IsSound, Runs-IsSound}

All-more_urgent :
    (t u : TaskPair) (ts : List TaskPair)
    → rank t.first ≤ rank u.first
    → All (λ v. rank u.first ≤ rank v.first) ts
    → All (λ v. rank t.first ≤ rank v.first) ts
All-more_urgent t u [] h a = tt
All-more_urgent t u (x ∷ xs) h a = (omega (arith, h, a.0), All-more_urgent t u xs h a.1)

-- Of some tasks, one is such that no other is more urgent.
most_urgent :
    (t : TaskPair) (ts : List TaskPair)
    → (u : TaskPair) × (before : List TaskPair) × (after : List TaskPair) × (t ∷ ts
        ≡ before ++ (u ∷ after))
      × All (λ v. rank u.first ≤ rank v.first) (t ∷ ts)
most_urgent t [] = (t, [], [], refl, (omega arith, tt))
most_urgent t (x ∷ xs) =
    let (u, before, after, q, least) = most_urgent x xs in
    elim (Bool-cases (ltb (rank u.first) (rank t.first))) [
      | inl less ↦ (u, t ∷ before, after, ap (λ l. t ∷ l) q, (ground (arith, less), least))
      | inr more ↦ (
        t,
        [],
        x ∷ xs,
        refl,
        (omega arith, All-more_urgent t u (x ∷ xs) (ground (arith, more)) least),
      )
    ]

task_turn :
    {k : ℕ} {p : TaskPool}
    → IsSound k p
    → p.pool_is_start ≡ true
    → 0 < length p.tasks
    → 0 < k
    → (p' : TaskPool) × PoolTurn p p'
task_turn {p = p} s on some_task some_thread = elim (ℕ-cases p.looping) [
  | inr (n, e) ↦ (_, loops p n e)
  | inl none_loops ↦ elim (List-cases p.working) [
    | inr (t, ts, e) ↦ (_, finishes p t [] ts e)
    | inl none_works ↦ elim (ℕ-cases p.taking) [
      | inl none_takes ↦ absurd (
          omega
            (arith, s.awake on some_task some_thread, none_loops, ap length none_works, none_takes))
      | inr (n, e) ↦ elim (List-cases p.tasks) [
        | inl none_there ↦ absurd (omega (arith, some_task, ap length none_there))
        | inr (t, ts, there) ↦
            let (u, before, after, q, least) = most_urgent t ts in
            (
              _,
              takes p n u before after e on (there ∙ q)
                  (subst (All (λ v. rank u.first ≤ rank v.first)) (sym there) least),
            )
      ]
    ]
  ]
]

-- In every state that the pool reaches, in any order of its threads: each task that was added has
-- been taken or is in the queue, as often as it was added; and while the pool is not stopped, has
-- threads, and has tasks in the queue, some thread can go on. No wake-up is missed: while a thread
-- waits, there are at most as many tasks in the queue as threads that are on their way to take one.
pub task_pool_keeps_tasks :
    {threads : ℕ} {p : TaskPool}
    → Runs threads p
    → ((w : TaskPair → ℕ) → tally w p.added ≡ tally w p.taken + tally w p.tasks)
      × (p.pool_is_start ≡ true
          → 0 < length p.tasks
          → 0 < threads
          → (p' : TaskPool) × PoolTurn p p')
      × (0 < p.waiting → length p.tasks ≤ p.taking)
task_pool_keeps_tasks r = let s = Runs-IsSound r in (s.tasks_kept, task_turn s, s.woken)

-- How many turns the threads of a stopped pool have left
abbrev pub turns_left : TaskPool → ℕ
turns_left p = p.looping + 2 * (p.taking + length p.working)

stopped_turn :
    {p p' : TaskPool}
    → p.pool_is_start ≡ false
    → PoolTurn p p'
    → (suc (turns_left p') ≡ turns_left p) × (p'.tasks ≡ p.tasks) × (p'.taken ≡ p.taken)
unfolding loop_test
stopped_turn off (loops p n e) = rw (off, loop_test) (omega (arith, e), refl, refl)
stopped_turn off (waits p n e no_task on) = absurd (false≢true (sym off ∙ on))
stopped_turn off (takes p n t before after e on q least) = absurd (false≢true (sym off ∙ on))
stopped_turn off (leaves p n e off') = (omega (arith, e), refl, refl)
stopped_turn off (finishes p t before after q) =
    (omega (arith, ap length q, length-middle before t after), refl, refl)

joins_or_turns :
    {k : ℕ} {p : TaskPool}
    → IsSound k p
    → p.pool_is_start ≡ false
    → (p.exited ≡ k) ⊎ ((p' : TaskPool) × PoolTurn p p')
joins_or_turns {p = p} s off = elim (ℕ-cases p.looping) [
  | inr (n, e) ↦ inr (_, loops p n e)
  | inl none_loops ↦ elim (List-cases p.working) [
    | inr (t, ts, e) ↦ inr (_, finishes p t [] ts e)
    | inl none_works ↦ elim (ℕ-cases p.taking) [
      | inl none_takes ↦ inl (
          omega (
            arith,
            s.threads_kept,
            s.none_waiting off,
            none_loops,
            ap length none_works,
            none_takes,
          ))
      | inr (n, e) ↦ inr (_, leaves p n e off)
    ]
  ]
]

-- The joins of `stop` return: in a stopped pool, all threads have ended or one of them can go on;
-- each turn of a thread takes one from the number of turns that are left, which is at most twice the
-- number of threads; and no turn takes a task, so that those in the queue are never run.
pub stop_pool_joins :
    {threads : ℕ} {p : TaskPool}
    → Runs threads p
    → p.pool_is_start ≡ false
    → ((p.exited ≡ threads) ⊎ ((p' : TaskPool) × PoolTurn p p'))
      × (turns_left p ≤ 2 * threads)
      × ((p' : TaskPool)
          → PoolTurn p p'
          → (suc (turns_left p') ≡ turns_left p) × (p'.tasks ≡ p.tasks) × (p'.taken ≡ p.taken))
stop_pool_joins r off =
    let s = Runs-IsSound r in
    (joins_or_turns s off, omega (arith, s.threads_kept), (λ _. stopped_turn off))
