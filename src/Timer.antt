-- ===== src/Timer.antt =====
-- libnet/net_timer.h: the timers (`Defs`), the order of their queue and what leaves it (`Order`),
-- and the flags that connect a request to its timer (`Flags`).
pub mod Defs
pub mod Order
pub mod Flags
