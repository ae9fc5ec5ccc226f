-- ===== src/TaskPool.antt =====
-- src/include/thread_pool/thread_pool.h: the second server's pool of threads.
pub mod Defs
pub mod Sound
pub mod Stop
