-- ===== src/Server.antt =====
-- libnet/net_httpserver.h and libnet/net_epoll.h: the HTTP server. `Defs` has the state that its
-- handlers share, `Handlers` the handlers, `Loop` the event loop; `Reach` is the server as a relation
-- of steps. `Link` and `Track` say how requests, timers and tasks belong together; `Relink`, `Keep`,
-- `Handle`, `Steps`, `Expiry` and `Rounds` follow the operations, and `Always` is about every reached
-- state. `Page` and `Serve` follow a request to its response, `Gone` a client that has left;
-- `Hazards` is about states from which a handler cannot go on.
pub mod Defs
pub mod Handlers
pub mod Loop
pub mod Hazards
pub mod Link
pub mod Relink
pub mod Track
pub mod Keep
pub mod Handle
pub mod Expiry
pub mod Reach
pub mod Steps
pub mod Rounds
pub mod Always
pub mod Page
pub mod Serve
pub mod Gone
