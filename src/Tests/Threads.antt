-- ===== src/Tests/Threads.antt =====
-- The threads of src/server.cc and of src/include/thread_pool/thread_pool.h on concrete input.
use c_s_online_library.Common.{
  ℕ, suc, ◌+◌, ◌*◌, ◌≤◌, ◌<◌, ◌≡◌, refl, true, false, ◌⊎◌, some, [], ◌∷◌, ◌++◌, length, tally,
  arith,
}
use c_s_online_library.Dispatch.Balance.{dispatch_safe, dispatch_no_deadlock}
use c_s_online_library.Dispatch.Defs.{
  Dispatch, start, pop_fd, Turn, arrives, turns, admits, pushes, posts, wakes, Reachable, starts,
  steps,
}
use c_s_online_library.TaskPool.Defs.{
  TaskPair, TaskPool, no_1, no_3, add_task, stop_pool, loop_test, take_top, PoolTurn, loops, takes,
  runs, adds, stops, Runs, begins, goes_on,
}
use c_s_online_library.TaskPool.Stop.{turns_left, task_pool_keeps_tasks, stop_pool_joins}

-- The descriptor 7 was pushed and announced, and a consumer was woken for it.
abbrev woken_for_7 : Dispatch
woken_for_7 = record (start 2) {
  sem_capacity = 499;
  fd_que = 7 ∷ [];
  idle = 1;
  woken = 1;
  pushed = 7 ∷ [];
}

woken-Reachable : Reachable 2 woken_for_7
woken-Reachable =
    steps
      (steps
        (steps (steps (steps starts (arrives _ 7)) (turns (admits _ 7 499 [] [] refl refl)))
          (turns (pushes _ 7 [] [] refl)))
        (turns (posts _ 0 refl)))
      (turns (wakes _ 1 0 refl refl))

dispatch_safe_example :
    (1 ≤ 500)
    × (woken_for_7.pushed ≡ woken_for_7.popped ++ woken_for_7.fd_que)
    × ((n : ℕ) → woken_for_7.woken ≡ suc n → (d' : Dispatch) × (pop_fd n woken_for_7 ≡ some d'))
dispatch_safe_example = dispatch_safe woken-Reachable

-- Another client's event, while the first one is not yet taken out
abbrev one_arrives : Dispatch
one_arrives = record woken_for_7 { arriving = 8 ∷ [] }

dispatch_no_deadlock_example :
    ((d' : Dispatch) × Turn one_arrives d') ⊎ (length one_arrives.handling ≡ 2)
dispatch_no_deadlock_example = dispatch_no_deadlock 8 [] (steps woken-Reachable (arrives _ 8)) refl

abbrev late : TaskPair
late = record { first = no_3; second = 1 }

abbrev urgent : TaskPair
urgent = record { first = no_1; second = 2 }

-- Two tasks are added, and the only thread takes the more urgent one.
abbrev busy : TaskPool
busy = record {
  pool_is_start = true;
  tasks = late ∷ [];
  looping = 0;
  taking = 0;
  waiting = 0;
  exited = 0;
  working = urgent ∷ [];
  added = urgent ∷ late ∷ [];
  taken = urgent ∷ [];
}

busy-Runs : Runs 1 busy
unfolding add_task loop_test take_top
busy-Runs =
    goes_on
      (goes_on (goes_on (goes_on begins (adds _ late)) (adds _ urgent)) (runs (loops _ 0 refl)))
      (runs (takes _ 0 urgent [] (late ∷ []) refl refl refl (omega arith, (omega arith, tt))))

task_pool_keeps_tasks_example :
    ((w : TaskPair → ℕ) → tally w busy.added ≡ tally w busy.taken + tally w busy.tasks)
    × (busy.pool_is_start ≡ true
        → 0 < length busy.tasks
        → 0 < 1
        → (p' : TaskPool) × PoolTurn busy p')
    × (0 < busy.waiting → length busy.tasks ≤ busy.taking)
task_pool_keeps_tasks_example = task_pool_keeps_tasks busy-Runs

abbrev stopped : TaskPool
stopped = record busy { pool_is_start = false }

stopped-Runs : Runs 1 stopped
unfolding stop_pool
stopped-Runs = goes_on busy-Runs (stops _)

stop_pool_joins_example :
    ((stopped.exited ≡ 1) ⊎ ((p' : TaskPool) × PoolTurn stopped p'))
    × (turns_left stopped ≤ 2 * 1)
    × ((p' : TaskPool)
        → PoolTurn stopped p'
        → (suc (turns_left p') ≡ turns_left stopped)
          × (p'.tasks ≡ late ∷ [])
          × (p'.taken ≡ urgent ∷ []))
stop_pool_joins_example = stop_pool_joins stopped-Runs refl
