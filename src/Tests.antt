-- ===== src/Tests.antt =====
-- The theorems at work on concrete input, and runs of the definitions.
mod Buffers
mod Timers
mod Requests
mod Responses
mod Books
mod Pools
mod Service
mod Evictions
mod Threads
mod Seconds
mod Servers
mod Databases
