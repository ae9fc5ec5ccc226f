-- ===== src/Lib.antt =====
-- The server of an online library, in three versions: `libnet/`, an HTTP server on epoll with a
-- pool of threads, timers and CGI; `src/server.cc` with `src/client.cc`, the service of books with
-- a cache of mapped files, and its terminal client; and `src/Server.cc`, the unfinished start of
-- another one.
--
-- The parts, and how they work together:
-- - Buffer: `libnet/data_buffer.h`. The byte buffer of a connection. A pointer into the vector is
--   an offset. `Buffer.Socket` has `ReadFd` and `write_to_sock`, whose system calls are lists of
--   answers: a call takes the next one, and a loop without an answer is `pending`.
-- - Request: `libnet/net_httprequest.h`. A connection's request; `Request.Parse` is `parseRequest`,
--   one definition for each branch of its loop. The loop is recursion on fuel, with `running` for
--   the end of the fuel.
-- - Response: `libnet/net_httpresponse.h`. `makeResponse`, the error page, the static file and CGI.
--   The file system and the CGI program are a record of functions, `Host`.
-- - Timer: `libnet/net_timer.h`. Timers are objects with names; the ones that exist are those of
--   the queue, so that a request's pointer to one that is freed is a name that is not found.
-- - Server: `libnet/net_httpserver.h` and `libnet/net_epoll.h`. The state has the requests, the
--   timers, the interest set of epoll, the tasks in the pool and what was sent. A handler ends with
--   a state, in undefined behaviour, or outside of the fuel or the answers given to it. `Reach` has
--   the quiet runs of the server as a relation of steps in any order: connections, events, tasks,
--   waits and timers. `Link` and `Track` say how requests, timers and tasks belong together,
--   `Relink`, `Keep`, `Handle`, `Steps` and `Rounds` follow the operations, and `Always` has what
--   holds in every state of them. `Page` and `Serve` follow a request for a file from its bytes to
--   the response on the wire, and `Gone` a client that has closed its side.
-- - Pool: `libnet/task_queue.h` and `libnet/threadpool.h`. The threads' critical sections as steps
--   of a relation, in any order.
-- - SockTool: `libnet/net_socktool.h`. `createListenFd` and `urlDecode`.
-- - Mq: `libnet/net_mq.h`. A message with its tag, and a POSIX message queue.
-- - Library: `src/server.cc` and `src/client.cc`, the service of books. `Path` and `Files` are
--   about where a book's file is, `Http` and `Exchange` about the messages, `Cache`, `Lookup` and
--   `Evict` about the cache and its eviction, `Write` about `socket_write`, and `Job`, `Coherence`
--   and `Shelf` about `main_job`. `Spec` has an abstract service, a map from ids to texts, and
--   `Refine` relates the two. The disk (`DiskOps`, with the law that what is written is there
--   afterwards, and nothing else has changed) and std::priority_queue (`HeapOps`, and what it
--   promises in `HeapLaws`) are arguments.
-- - Dispatch: the rest of `src/server.cc`: `Startup` is `main` up to its loop, `Events` the loop
--   and `Do_Connect`, `Defs` and `Balance` the queue of descriptors between producers and
--   consumers, as steps of a relation, and `Reading` what a consumer reads before it calls
--   `main_job`.
-- - Client: the dialogs of `src/client.cc`, and, in `Answers`, the client on the answers of
--   `main_job`.
-- - Echo: `src/Server.cc` with `src/include/socktool/sock_ser.hpp`, the second version of the
--   server, which only sends back what it reads. `Options` is its `main`, with regexec as an
--   argument.
-- - Database: `src/include/database`, the life of the objects of the Redis and MySQL tools. The
--   client libraries, and the settings that the JSON library reads, are given by their answers.
-- - TaskPool: `src/include/thread_pool/thread_pool.h`, its pool of threads, as steps of a relation.
-- - Common: numbers, lists and text that the others share. Tests: the theorems on concrete input.
--
-- The numbers are natural numbers; an `int` that the code computes is a ℤ with its range checked or
-- its conversion written out (`to_int`, `checked`), and a `size_t` wraps where the code relies on
-- it.
-- Bounds: the parser's fuel is any number, and a theorem on its result says how much is enough;
-- `expire_loop` takes one round for each timer, which is what the loop does, as each round takes
-- one off the queue; `erase_heap` takes one round for each entry of the heap. Threads are counted,
-- or listed with what they hold, by the place where they are; a step is what one does under the
-- mutex, or one call of a semaphore.
--
-- Not modelled: the logging, the pthread wrappers, the child's side of CGI, what is printed only to
-- ask, two jobs of `main_job` at once (they are ordered by the lock of the cache), handlers of
-- libnet's server that overlap each other or the expiry of timers, beyond the race that `Hazards`
-- has (`Reach` has the quiet runs, where they do not), the rows of the database tools, and
-- `CJsonObject/`, another project's library, whose text is an argument.
pub mod Common
pub mod Buffer
pub mod Request
pub mod Response
pub mod SockTool
pub mod Timer
pub mod Server
pub mod Library
pub mod Database
pub mod Dispatch
pub mod Client
pub mod Mq
pub mod Echo
pub mod TaskPool
pub mod Pool
pub mod Tests
