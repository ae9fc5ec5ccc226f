-- ===== src/TaskPool/Sound.antt =====
-- src/include/thread_pool/thread_pool.h: what every step of the pool keeps.
use c_s_online_library.Common.{
  ℕ, inl, inr, ◌+◌, ◌≤◌, ◌<◌, ◌≡◌, refl, sym, ap, ◌∙◌, true, false, Bool-cases, length,
  length-middle, length-append, tally, tally-middle, ℕ-cases, arith,
}
use mathlib.Core.Bool.{false≢true}
use c_s_online_library.TaskPool.Defs.{
  TaskPair, TaskPool, add_task, stop_pool, loop_test, take_top, PoolTurn, loops, waits, takes,
  leaves, finishes, PoolStep, runs, adds, stops, wakes_up, Runs, begins, goes_on,
}

-- No thread gets lost, or ends or waits where it should not; the tasks that were added were taken or
-- are in the queue; while there are some, a thread is awake; and while a thread waits, there are no more
-- of them than threads on their way to take one.
pub record IsSound (threads : ℕ) (p : TaskPool) : Type 0 where
  pub threads_kept : p.looping + p.taking + p.waiting + length p.working + p.exited ≡ threads
  pub none_exited : p.pool_is_start ≡ true → p.exited ≡ 0
  pub none_waiting : p.pool_is_start ≡ false → p.waiting ≡ 0
  pub tasks_kept : (w : TaskPair → ℕ) → tally w p.added ≡ tally w p.taken + tally w p.tasks
  pub awake :
      p.pool_is_start ≡ true
      → 0 < length p.tasks
      → 0 < threads
      → 0 < p.looping + p.taking + length p.working
  pub woken : 0 < p.waiting → length p.tasks ≤ p.taking

add_task-IsSound : {k : ℕ} (t : TaskPair) (p : TaskPool) → IsSound k p → IsSound k (add_task t p)
unfolding add_task
add_task-IsSound t p s = elim (ℕ-cases p.waiting) [
  | inl none_waits ↦
      rw (none_waits, add_task)
        (record {
          threads_kept = omega (arith, s.threads_kept, none_waits);
          none_exited = s.none_exited;
          none_waiting = λ _. none_waits;
          tasks_kept = λ w. omega (arith, s.tasks_kept w);
          awake = λ on _ some_thread.
              omega (arith, s.threads_kept, s.none_exited on, none_waits, some_thread);
          woken = λ w. absurd (omega (arith, w));
        })
  | inr (n, one_waits) ↦
      rw (one_waits, add_task)
        (record {
          threads_kept = omega (arith, s.threads_kept, one_waits);
          none_exited = s.none_exited;
          none_waiting = λ off. absurd (omega (arith, s.none_waiting off, one_waits));
          tasks_kept = λ w. omega (arith, s.tasks_kept w);
          awake = λ on _ some_thread. omega arith;
          woken = λ w. omega (arith, s.woken, one_waits);
        })
]

stop_pool-IsSound : {k : ℕ} (p : TaskPool) → IsSound k p → IsSound k (stop_pool p)
unfolding stop_pool
stop_pool-IsSound p s = elim (Bool-cases p.pool_is_start) [
  | inl on ↦ rw on (record {
    threads_kept = omega (arith, s.threads_kept);
    none_exited = λ e. absurd (false≢true e);
    none_waiting = λ _. refl;
    tasks_kept = s.tasks_kept;
    awake = λ e _ _. absurd (false≢true e);
    woken = λ w. absurd (omega (arith, w));
  })
  | inr off ↦ rw off (record {
    threads_kept = s.threads_kept;
    none_exited = λ on. absurd (false≢true on);
    none_waiting = λ _. s.none_waiting off;
    tasks_kept = s.tasks_kept;
    awake = λ on _ _. absurd (false≢true on);
    woken = λ w. s.woken w;
  })
]

PoolTurn-IsSound : {k : ℕ} {p p' : TaskPool} → PoolTurn p p' → IsSound k p → IsSound k p'
unfolding loop_test take_top
PoolTurn-IsSound (loops p n e) s = elim (Bool-cases p.pool_is_start) [
  | inl on ↦
      rw (on, loop_test)
        (record {
          threads_kept = omega (arith, s.threads_kept, e);
          none_exited = λ _. s.none_exited on;
          none_waiting = λ off. absurd (false≢true (sym off));
          tasks_kept = s.tasks_kept;
          awake = λ _ _ _. omega arith;
          woken = λ w. omega (arith, s.woken w);
        })
  | inr off ↦
      rw (off, loop_test)
        (record {
          threads_kept = omega (arith, s.threads_kept, e);
          none_exited = λ on. absurd (false≢true on);
          none_waiting = λ _. s.none_waiting off;
          tasks_kept = s.tasks_kept;
          awake = λ on _ _. absurd (false≢true on);
          woken = λ w. absurd (omega (arith, w, s.none_waiting off));
        })
]
PoolTurn-IsSound (waits p n e no_task on) s = record {
  threads_kept = omega (arith, s.threads_kept, e);
  none_exited = s.none_exited;
  none_waiting = λ off. absurd (false≢true (sym off ∙ on));
  tasks_kept = s.tasks_kept;
  awake = λ _ some_task _. absurd (omega (arith, some_task, ap length no_task));
  woken = λ w. omega (arith, ap length no_task);
}
PoolTurn-IsSound (takes p n t before after e on q urgent) s = record {
  threads_kept = omega (arith, s.threads_kept, e);
  none_exited = s.none_exited;
  none_waiting = s.none_waiting;
  tasks_kept = λ w. omega (arith, s.tasks_kept w, ap (tally w) q, tally-middle w before t after);
  awake = λ _ _ _. omega arith;
  woken = λ w.
      omega (
        arith,
        s.woken w,
        e,
        ap length q,
        length-middle before t after,
        length-append before after,
      );
}
PoolTurn-IsSound (leaves p n e off) s = record {
  threads_kept = omega (arith, s.threads_kept, e);
  none_exited = s.none_exited;
  none_waiting = s.none_waiting;
  tasks_kept = s.tasks_kept;
  awake = λ _ _ _. omega arith;
  woken = λ w. absurd (omega (arith, w, s.none_waiting off));
}
PoolTurn-IsSound (finishes p t before after q) s = record {
  threads_kept = omega (arith, s.threads_kept, ap length q, length-middle before t after);
  none_exited = s.none_exited;
  none_waiting = s.none_waiting;
  tasks_kept = s.tasks_kept;
  awake = λ _ _ _. omega arith;
  woken = λ w. omega (arith, s.woken w);
}

PoolStep-IsSound : {k : ℕ} {p p' : TaskPool} → PoolStep p p' → IsSound k p → IsSound k p'
PoolStep-IsSound (runs r) s = PoolTurn-IsSound r s
PoolStep-IsSound (adds p t) s = add_task-IsSound t p s
PoolStep-IsSound (stops p) s = stop_pool-IsSound p s
PoolStep-IsSound (wakes_up p n e) s = record {
  threads_kept = omega (arith, s.threads_kept, e);
  none_exited = s.none_exited;
  none_waiting = λ off. absurd (omega (arith, s.none_waiting off, e));
  tasks_kept = s.tasks_kept;
  awake = λ _ _ _. omega arith;
  woken = λ w. omega (arith, s.woken (omega (arith, e)), e);
}

pub Runs-IsSound : {k : ℕ} {p : TaskPool} → Runs k p → IsSound k p
Runs-IsSound begins = record {
  threads_kept = omega arith;
  none_exited = λ _. refl;
  none_waiting = λ _. refl;
  tasks_kept = λ w. refl;
  awake = λ _ _ some_thread. omega (arith, some_thread);
  woken = λ w. absurd (omega (arith, w));
}
Runs-IsSound (goes_on r s) = PoolStep-IsSound s (Runs-IsSound r)
