-- ===== src/Tests/Pools.antt =====
-- libnet/threadpool.h on concrete input.
use c_s_online_library.Common.{some}
use c_s_online_library.Pool.Defs.{
  ThreadPool, init, execute_task, thread_turn, shutdown, finish_task, set_stop,
}

-- A task is taken, the pool is shut down, and the thread ends after its task.
abbrev ended : ThreadPool
ended =
    thread_turn 0
      (finish_task 0 (set_stop 0 (shutdown (thread_turn 0 (execute_task (some 9) (init 0 0)).1))))
