-- ===== src/Client/Answers.antt =====
-- src/client.cc with src/server.cc: the client's dialog on the answers of `main_job`.
use c_s_online_library.Common.{ℕ, Option, none, some, List, [], ◌∷◌, ◌++◌, Bytes, length, drop}
use c_s_online_library.Library.Cache.{HeapOps}
use c_s_online_library.Library.Job.{DiskOps, Service, finished, faulted, waits, writing, main_job}

abbrev join : List Bytes → Bytes
join [] = []
join (l ∷ ls) = l ++ join ls

module _ {H D : Type 0} (heap : HeapOps H) (disk : DiskOps D) (hash_size buf_size now : ℕ)
    (first_read : Bytes → Bytes) where
  -- What a client reads from the server with its one read(2), which gives `first_read` of the bytes
  -- that the job for its text has put on the wire.
  unfoldable pub server_peer : Service D → Bytes → Option Bytes
  server_peer s text = elim (main_job heap disk hash_size buf_size now text s) [
    | finished s' ↦ some (first_read (join (drop (length s.sent) s'.sent)))
    | faulted s' ↦ none
    | waits s' ↦ none
    | writing s' ↦ none
  ]
