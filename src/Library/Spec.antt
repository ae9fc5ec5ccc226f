-- ===== src/Library/Spec.antt =====
-- What the service of books promises: a map from the ids of the books that there are to their texts.
-- A read is answered with the text, a change with "200 OK", and it changes that book only.
use c_s_online_library.Common.{
  ℕ, ◌≤◌, ◌<◌, ◌≡◌, Option, none, some, List, [], ◌∷◌, Bytes, bytes_eq, length, if◌then◌else◌,
}
use c_s_online_library.Library.Http.{found_text, get_text, put_text}
use c_s_online_library.Library.Job.{stored_reply, not_found_reply}
use c_s_online_library.Library.Path.{checkinput, ok}

pub data Request : Type 0 where
  get : Bytes → Request
  put : Bytes → Bytes → Request

-- The bytes that the client sends
abbrev pub request_text : Request → Bytes
request_text (get id) = get_text id
request_text (put id text) = put_text id text

abbrev pub Shelf : Type 0
Shelf = Bytes → Option Bytes

abbrev pub put_book : Bytes → Bytes → Shelf → Shelf
put_book id text f j = if bytes_eq j id then some text else f j

-- The replies to a run of requests
unfoldable pub spec_run : Shelf → List (ℕ × Request) → List Bytes
spec_run f [] = []
spec_run f ((now, get id) ∷ rs) = elim (f id) [
  | none ↦ not_found_reply ∷ spec_run f rs
  | some text ↦ found_text text ∷ spec_run f rs
]
spec_run f ((now, put id text) ∷ rs) = stored_reply ∷ spec_run (put_book id text f) rs

-- The requests are for books that there are, by valid ids, and what is written is not empty, and
-- a read of it fits the server's buffer.
abbrev pub Served : ℕ → Shelf → List (ℕ × Request) → Type 0
Served buf_size f [] = Unit
Served buf_size f ((now, get id) ∷ rs) =
    (checkinput id ≡ ok) × ((text : Bytes) × (f id ≡ some text)) × Served buf_size f rs
Served buf_size f ((now, put id text) ∷ rs) =
    (checkinput id ≡ ok)
    × ((old : Bytes) × (f id ≡ some old))
    × (length (found_text text) ≤ buf_size)
    × (0 < length text)
    × Served buf_size (put_book id text f) rs
