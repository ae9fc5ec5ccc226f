-- ===== src/Tests/Books.antt =====
-- src/server.cc and src/client.cc on concrete input: a disk with one file, and a heap that is a
-- list.
use c_s_online_library.Common.{
  ℕ, ◌≡◌, ◌≢◌, Bool, true, false, Option, none, some, List, [], ◌∷◌, Bytes, bytes_eq, bytes_eq_iff,
  codes, length, arith, if◌then◌else◌,
}
use c_s_online_library.Library.Cache.{Entry, HeapOps}
use c_s_online_library.Library.Http.{Reply, failure}
use c_s_online_library.Library.Job.{DiskOps, Service}
use c_s_online_library.Buffer.Socket.{wrote}
use c_s_online_library.Library.Write.{
  SocketWrite, socket_write, empty_writes, socket_write-two_parts,
}

abbrev heap : HeapOps (List Entry)
heap = record {
  new_heap = [];
  heap_size = length;
  heap_push = λ e h. e ∷ h;
  heap_top = λ h. elim h [ [] ↦ none | e ∷ h' ↦ some e ];
  heap_pop = λ h. elim h [ [] ↦ [] | e ∷ h' ↦ h' ];
}

-- One file, which can be written or not.
record Disk : Type 0 where
  name : Bytes
  text : Bytes
  writable : Bool

abbrev stat_size : Disk → Bytes → Option ℕ
stat_size d path = if bytes_eq d.name path then some (length d.text) else none

abbrev map_file : Disk → Bytes → ℕ → Option Bytes
map_file d path n = if bytes_eq d.name path then some d.text else none

abbrev store : Disk → Bytes → Bytes → Option Disk
store d path text =
    if d.writable
    then (if bytes_eq d.name path then some (record d { text = text }) else none)
    else none

stat_size-store :
    (d d' : Disk) (path text : Bytes)
    → store d path text ≡ some d'
    → stat_size d' path ≡ some (length text)
stat_size-store d d' path text e = ground arith

map_file-store :
    (d d' : Disk) (path text : Bytes)
    → store d path text ≡ some d'
    → map_file d' path (length text) ≡ some text
map_file-store d d' path text e = ground arith

stat_size-store_ne :
    (d d' : Disk) (path path' text : Bytes)
    → store d path text ≡ some d'
    → path' ≢ path
    → stat_size d' path' ≡ stat_size d path'
stat_size-store_ne d d' path path' text e ne =
    ground (arith, bytes_eq_iff d.name path, bytes_eq_iff d.name path')

map_file-store_ne :
    (d d' : Disk) (path path' text : Bytes) (n : ℕ)
    → store d path text ≡ some d'
    → path' ≢ path
    → map_file d' path' n ≡ map_file d path' n
map_file-store_ne d d' path path' text n e ne =
    ground (arith, bytes_eq_iff d.name path, bytes_eq_iff d.name path')

abbrev disk : DiskOps Disk
disk = record {
  stat_size = stat_size;
  map_file = map_file;
  store = store;
  stat_size-store = stat_size-store;
  map_file-store = λ d d' path text some_. map_file-store d d' path text;
  stat_size-store_ne = stat_size-store_ne;
  map_file-store_ne = map_file-store_ne;
}

abbrev path : Bytes
path = codes "./books/dir7/7"

abbrev no_reply : Reply
no_reply = record { type = failure; code = none; body = none }

-- The book "7", mapped in the cache, and its file
abbrev shelf : Bytes → Bool → Service Disk
shelf name writable = record {
  disk = record { name = name; text = codes "{}"; writable = writable };
  cache =
      (codes "7", record { size = 2; cont = 1; lasttime = 0; per = 1; data_ = some (codes "{}") })
      ∷ [];
  locked = false;
  holder = 0;
  thread = 1;
  takes = λ text. wrote (length text) ∷ [];
  sent = [];
}

abbrev bare : Service Disk
bare = record (shelf (codes "elsewhere") true) { cache = [] }

socket_write-two_parts_example :
    socket_write (codes "HTTP") (wrote 1 ∷ wrote 3 ∷ empty_writes 9)
    ≡ SocketWrite.again (codes "HTTP")
socket_write-two_parts_example =
    socket_write-two_parts (codes "HTTP") 1 9 (omega arith) (omega arith)
