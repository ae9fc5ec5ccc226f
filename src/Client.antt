-- ===== src/Client.antt =====
-- src/client.cc: the dialogs of the terminal client. `Defs` has the dialogs, `Answers` what the user
-- sees of the server's books.
pub mod Defs
pub mod Answers
