-- ===== src/Dispatch.antt =====
-- src/server.cc: how the descriptors of clients get from epoll to the threads that run `main_job`.
-- `Defs` has the queue, its semaphores and the threads' steps, `Events` the event loop's calls, and
-- `Reading` what a thread reads, and `Startup` what `main` does before; `Balance` is about all
-- interleavings.
pub mod Defs
pub mod Events
pub mod Reading
pub mod Balance
pub mod Startup
