-- ===== src/Tests/Service.antt =====
-- src/server.cc with src/client.cc, as a whole, on concrete input: a disk with the one book "7".
use c_s_online_library.Buffer.Socket.{wrote, ReadOutcome, chunk, failed, eagain}
use c_s_online_library.Common.{
  ℕ, ◌≡◌, ◌≢◌, refl, true, false, Option, none, some, List, [], ◌∷◌, ◌++◌, Bytes, bytes_eq,
  bytes_eq_iff, codes, length, take, drop, ◌==◌, arith, pos, if◌then◌else◌, ◌%◌,
}
use c_s_online_library.Dispatch.Reading.{handle_fd, handle_fd-put_text}
use c_s_online_library.Dispatch.Defs.{start}
use c_s_online_library.Dispatch.Startup.{
  StartCalls, init_hash, to_port, serves, start_server, start_server_without_config,
}
use c_s_online_library.Library.Cache.{Entry, HeapOps}
use c_s_online_library.Library.Files.{weight, hash-weight}
use c_s_online_library.Library.Http.{get_text, put_text, found_text, Reply, failure}
use c_s_online_library.Library.Job.{DiskOps, Service, stored_reply, main_job, faulted}
use c_s_online_library.Library.Path.{checkinput, ok, all_digits, hash}
use c_s_online_library.Request.Defs.{atoi, long_to_int}
use c_s_online_library.Common.{to_int}
use c_s_online_library.Library.Spec.{Request, get, put, Shelf, spec_run}

abbrev pub heap : HeapOps (List Entry)
heap = record {
  new_heap = [];
  heap_size = length;
  heap_push = λ e h. e ∷ h;
  heap_top = λ h. elim h [ [] ↦ none | e ∷ h' ↦ some e ];
  heap_pop = λ h. elim h [ [] ↦ [] | e ∷ h' ↦ h' ];
}

-- One file
record Page : Type 0 where
  name : Bytes
  text : Bytes

abbrev stat_size : Page → Bytes → Option ℕ
stat_size d path = if bytes_eq d.name path then some (length d.text) else none

abbrev map_file : Page → Bytes → ℕ → Option Bytes
map_file d path n = if bytes_eq d.name path then some d.text else none

abbrev store : Page → Bytes → Bytes → Option Page
store d path text = if bytes_eq d.name path then some (record d { text = text }) else none

stat_size-store :
    (d d' : Page) (path text : Bytes)
    → store d path text ≡ some d'
    → stat_size d' path ≡ some (length text)
stat_size-store d d' path text e = ground arith

map_file-store :
    (d d' : Page) (path text : Bytes)
    → store d path text ≡ some d'
    → map_file d' path (length text) ≡ some text
map_file-store d d' path text e = ground arith

stat_size-store_ne :
    (d d' : Page) (path path' text : Bytes)
    → store d path text ≡ some d'
    → path' ≢ path
    → stat_size d' path' ≡ stat_size d path'
stat_size-store_ne d d' path path' text e ne =
    ground (arith, bytes_eq_iff d.name path, bytes_eq_iff d.name path')

map_file-store_ne :
    (d d' : Page) (path path' text : Bytes) (n : ℕ)
    → store d path text ≡ some d'
    → path' ≢ path
    → map_file d' path' n ≡ map_file d path' n
map_file-store_ne d d' path path' text n e ne =
    ground (arith, bytes_eq_iff d.name path, bytes_eq_iff d.name path')

abbrev disk : DiskOps Page
disk = record {
  stat_size = stat_size;
  map_file = map_file;
  store = store;
  stat_size-store = stat_size-store;
  map_file-store = λ d d' path text some_. map_file-store d d' path text;
  stat_size-store_ne = stat_size-store_ne;
  map_file-store_ne = map_file-store_ne;
}

abbrev path : Bytes
path = codes "./books/dir7/7"

abbrev server : Service Page
server = record {
  disk = record { name = path; text = codes "{}" };
  cache = [];
  locked = false;
  holder = 0;
  thread = 1;
  takes = λ text. wrote (length text) ∷ [];
  sent = [];
}

abbrev books : Shelf
books id = if bytes_eq id (codes "7") then some (codes "{}") else none

valid : checkinput (codes "7") ≡ ok
unfolding checkinput all_digits
valid = refl

-- A read, a change, and a read of what was changed
abbrev requests : List (ℕ × Request)
requests = (1, get (codes "7")) ∷ (2, put (codes "7") (codes "new")) ∷ (3, get (codes "7")) ∷ []

replies :
    spec_run books requests ≡ found_text (codes "{}") ∷ stored_reply ∷ found_text (codes "new") ∷ []
unfolding spec_run bytes_eq
replies = refl

abbrev no_reply : Reply
no_reply = record { type = failure; code = none; body = none }

-- The change of book "7" in two chunks, into a buffer that holds the same text with an "X" behind it
abbrev change : Bytes
change = put_text (codes "7") (codes "{}")

abbrev answers : List ReadOutcome
answers = chunk 80 (take 5 (drop 1 change)) ∷ chunk 112 (drop 7 change) ∷ []

handle_fd-put_text_example :
    handle_fd heap disk 10 3000 1 (change ++ (88 ∷ 0 ∷ [])) (answers ++ (failed eagain ∷ [])) server
    ≡ some (main_job heap disk 10 3000 1 (put_text (codes "7") (codes "{}X")) server)
handle_fd-put_text_example =
    handle_fd-put_text heap disk 10 3000 1 answers [] (codes "7") (codes "{}")
      (change ++ (88 ∷ 0 ∷ [])) (88 ∷ []) [] server (tt, (tt, tt)) refl valid (omega arith)
      (omega arith) refl (omega arith)

valid_12 : checkinput (codes "12") ≡ ok
unfolding checkinput all_digits
valid_12 = refl

hash-weight_example : hash 10 (codes "12") ≡ some (pos (weight (codes "12") % 10))
hash-weight_example = hash-weight 10 (codes "12") (omega arith) valid_12

weight_12 : weight (codes "12") ≡ 4
unfolding weight
weight_12 = refl

abbrev calls : StartCalls
calls = record {
  capacity_made = true;
  product_made = true;
  socket = some 3;
  binds = λ port. port == 8080;
  listens = true;
  processors = 4;
}

port_8080 : calls.binds (to_port (atoi (codes "8080"))) ≡ true
unfolding to_port atoi long_to_int to_int
port_8080 = refl

no_config : (init_hash none).0 ≡ 0
unfolding init_hash
no_config = refl

start_server_without_config_example :
    (start_server calls none 2 (codes "8080") ≡ serves 3 0 (start 8))
    × ((s' : Service Page) × (main_job heap disk 0 3000 1 (get_text (codes "7")) server
          ≡ faulted s'))
start_server_without_config_example =
    start_server_without_config heap disk 3000 1 calls none (codes "8080") 3 (codes "7") server refl
      refl refl port_8080 refl no_config refl refl valid
