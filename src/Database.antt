-- ===== src/Database.antt =====
-- src/include/database: the tools for Redis and MySQL, which no server uses yet. `Heap` has the objects
-- of the two client libraries.
pub mod Heap
pub mod Redis
pub mod Mysql
