-- ===== src/Request.antt =====
-- libnet/net_httprequest.h: one connection's request. `Defs` has its data and methods, `Parse` the
-- parser; the theorems are about the header map, the parser's output, its stops and its hangs.
pub mod Defs
pub mod Parse
pub mod Reader
pub mod Hang
pub mod Stop
pub mod Ends
pub mod Frame
pub mod Headers
pub mod Body
pub mod Render
pub mod RoundTrip
pub mod Arrive
