-- ===== src/Pool.antt =====
-- libnet/task_queue.h and libnet/threadpool.h: the pool that runs the server's handlers. `Defs` has
-- the queue, the pool and its steps; `Drain` is about its shutdown.
pub mod Defs
pub mod Drain
