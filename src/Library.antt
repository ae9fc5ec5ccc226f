-- ===== src/Library.antt =====
-- src/server.cc and src/client.cc, the first version of the library service. `Path` and `Files` are
-- about where a book's file is, `Http` and `Exchange` about the messages, `Cache`, `Lookup`, `Erase` and `Evict`
-- about the cache, `Job`, `Shelf` and `Coherence` about `main_job`, and `Write` about `socket_write`;
-- `Spec` is an abstract service, which `Refine` relates to `main_job`.
pub mod Path
pub mod Files
pub mod Http
pub mod Exchange
pub mod Cache
pub mod Write
pub mod Job
pub mod Lookup
pub mod Shelf
pub mod Coherence
pub mod Spec
pub mod Refine
pub mod Erase
pub mod Evict
