-- ===== src/Response.antt =====
-- libnet/net_httpresponse.h: what the server answers. `Defs` has the response and its methods; the
-- theorems are about the framing of the output and about the choice of the answer.
pub mod Defs
pub mod Framing
pub mod Choice
pub mod Pages
pub mod File
