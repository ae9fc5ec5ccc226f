-- ===== src/Buffer.antt =====
-- libnet/data_buffer.h: the buffer (`Defs`), its calls of read and write (`Socket`), and the
-- theorems about its cursor, about reading and about writing.
pub mod Defs
pub mod Cursor
pub mod Socket
pub mod Receive
pub mod Send
