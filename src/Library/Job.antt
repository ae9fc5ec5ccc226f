-- ===== src/Library/Job.antt =====
-- src/server.cc, `main_job`: one request. The disk is an argument, `DiskOps`. `pthread_rwlock_t
-- map_lock` is the field `locked`, set while the thread `holder` holds it as a writer. A job of another
-- thread that finds it set waits. A thread that asks for a lock that it holds gets EDEADLK, which nothing
-- looks at, goes on, and gives the lock back at the end.
use c_s_online_library.Common.{
  ℕ, suc, ◌+◌, ◌-◌, ◌*◌, ◌/◌, ◌≡◌, ◌≢◌, Bool, true, false, Option, none, some, List, [], ◌∷◌, ◌++◌,
  Bytes, codes, crlf, length, take, ltb, ◌<◌, ◌==◌, if◌then◌else◌,
}
use c_s_online_library.Library.Cache.{
  CacheNode, Cache, find_node, put_node, HeapOps, free_part_of_map,
}
use c_s_online_library.Library.Http.{
  HttpType, HttpMsg, server_read_http, found_text, not_found_text,
}
use c_s_online_library.Library.Path.{file_hash}
use c_s_online_library.Library.Write.{SocketWrite, socket_write}
use c_s_online_library.Buffer.Socket.{WriteOutcome}

-- stat, open with mmap, and fopen for writing with fprintf and fclose; what is written is what is
-- there afterwards, and the other files are as they were. An empty file is not mapped.
pub record DiskOps (D : Type 0) : Type 0 where
  pub stat_size : D → Bytes → Option ℕ
  pub map_file : D → Bytes → ℕ → Option Bytes
  pub store : D → Bytes → Bytes → Option D
  pub stat_size-store :
      (d d' : D) (path text : Bytes)
      → store d path text ≡ some d'
      → stat_size d' path ≡ some (length text)
  pub map_file-store :
      (d d' : D) (path text : Bytes)
      → 0 < length text
      → store d path text ≡ some d'
      → map_file d' path (length text) ≡ some text
  pub stat_size-store_ne :
      (d d' : D) (path path' text : Bytes)
      → store d path text ≡ some d'
      → path' ≢ path
      → stat_size d' path' ≡ stat_size d path'
  pub map_file-store_ne :
      (d d' : D) (path path' text : Bytes) (n : ℕ)
      → store d path text ≡ some d'
      → path' ≢ path
      → map_file d' path' n ≡ map_file d path' n

-- `sent` has what is written to the socket, in order; `takes` is what write(2) answers while a buffer
-- is written, and `thread` the thread that runs the job.
pub record Service (D : Type 0) : Type 0 where
  pub disk : D
  pub cache : Cache
  pub locked : Bool
  pub holder : ℕ
  pub thread : ℕ
  pub takes : Bytes → List WriteOutcome
  pub sent : List Bytes

-- What becomes of a job: it returns, it uses a pointer that is not valid, it waits for the
-- lock, or it is in `socket_write` behind the answers that there are.
pub data Job (D : Type 0) : Type 0 where
  finished faulted waits writing : Service D → Job D

-- "HTTP/1.1 404 NOTFOUND\r\n\r\n" with its NUL
abbrev pub not_found_reply : Bytes
not_found_reply = not_found_text ++ (0 ∷ [])

abbrev pub stored_reply : Bytes
stored_reply = codes "HTTP/1.1 200 OK" ++ (crlf ++ crlf)

abbrev pub denied_reply : Bytes
denied_reply = codes "HTTP/1.1 503 Server Unavailable" ++ (crlf ++ crlf)

abbrev pub bad_reply : Bytes
bad_reply = codes "HTTP/1.1 400 Bad Request" ++ (crlf ++ crlf)

abbrev pub said : {D : Type 0} → Bytes → Service D → Service D
said text s = record s { sent = s.sent ++ (text ∷ []) }

-- `socket_write` of a reply, whose result nothing looks at, and what follows it
unfoldable pub say : {D : Type 0} → Bytes → Service D → (Service D → Job D) → Job D
say text s next = elim (socket_write text (s.takes text)) [
  | SocketWrite.again taken ↦ writing (said taken s)
  | SocketWrite.returned r taken ↦ next (said taken s)
]

-- The end of a read: the book behind the iterator, `none` behind `end()` or an erased entry
unfoldable pub reply_book : {D : Type 0} → ℕ → Option CacheNode → Service D → Job D
reply_book buf_size none s = faulted s
reply_book buf_size (some node) s = elim node.data_ [
  | none ↦ faulted s
  | some text ↦
      let reply = found_text (take node.size text) in
      if ltb buf_size (length reply) then faulted s else say reply s finished
]

-- The lock of a job: `none` while another thread holds it. A lock that the thread holds itself is one
-- that this job gives back.
unfoldable pub enter : {D : Type 0} → Service D → Option (Service D)
enter s =
    if s.locked
    then (if s.holder == s.thread then some (record s { locked = false }) else none)
    else some s

-- The `msg` of `main_job`, before it is read
abbrev pub new_msg : HttpMsg
new_msg = record { fileid = []; type = HttpType.err; body = none }

module _ {H D : Type 0} (heap : HeapOps H) (disk : DiskOps D) (hash_size buf_size now : ℕ) where
  -- A read of a book that is not in the cache
  unfoldable pub read_from_disk : Bytes → Service D → Job D
  read_from_disk id s = elim (file_hash hash_size id) [
    | none ↦ faulted s
    | some path ↦ elim (disk.stat_size s.disk path) [
      | none ↦ say not_found_reply s (reply_book buf_size none)
      | some size ↦
          let node : CacheNode = record {
            size = size;
            cont = 1;
            lasttime = now;
            per = 1;
            data_ = disk.map_file s.disk path size;
          } in
          reply_book buf_size (some node) (record s { cache = put_node id node s.cache })
    ]
  ]

  -- A read of a book that is in the cache; the iterator is from before `free_part_of_map`.
  unfoldable pub read_from_cache : Bytes → Service D → Job D
  read_from_cache id s = elim (find_node id s.cache) [
    | none ↦ faulted s
    | some node ↦
        let used = record node {
          cont = suc node.cont;
          lasttime = now;
          per = (3 * node.per + 7 * (now - node.lasttime)) / 10;
        } in
        reply_book buf_size (some used) (record s { cache = put_node id used s.cache })
  ]

  unfoldable pub read_book : Bytes → Service D → Job D
  read_book id s =
      let s' = record s { cache = free_part_of_map heap s.cache } in
      elim (find_node id s.cache) [
        | none ↦ read_from_disk id s'
        | some node ↦ read_from_cache id s'
      ]

  -- A change of a book that is not in the cache
  unfoldable pub write_to_disk : Bytes → Bytes → Service D → Job D
  write_to_disk id text s = elim (file_hash hash_size id) [
    | none ↦ faulted s
    | some path ↦ elim (disk.stat_size s.disk path) [
      | none ↦ say not_found_reply s finished
      | some size ↦ elim (disk.store s.disk path text) [
        | none ↦ say denied_reply s finished
        | some d ↦ say stored_reply (record s { disk = d }) finished
      ]
    ]
  ]

  -- The book is mapped again; a second `stat` that fails leaves a size that is not set.
  unfoldable pub map_again : Bytes → Bytes → CacheNode → Service D → Job D
  map_again id path node s = elim (disk.stat_size s.disk path) [
    | none ↦ faulted s
    | some size ↦
        let node' = record node { size = size; data_ = disk.map_file s.disk path size } in
        finished (record s { cache = put_node id node' s.cache; locked = false })
  ]

  -- A change of a book that is in the cache: behind munmap. The reply that the file cannot be
  -- written leaves the lock as it is.
  unfoldable pub write_to_cache : Bytes → Bytes → CacheNode → Service D → Job D
  write_to_cache id text node s =
      let unmapped = record node { data_ = none } in
      let s' = record s {
        cache = put_node id unmapped s.cache;
        locked = true;
        holder = s.thread;
      } in
      elim (file_hash hash_size id) [
        | none ↦ faulted s'
        | some path ↦ elim (disk.stat_size s.disk path) [
          | none ↦ say not_found_reply s' (λ t. finished (record t { locked = false }))
          | some size ↦ elim (disk.store s.disk path text) [
            | none ↦ say denied_reply s' finished
            | some d ↦ say stored_reply (record s' { disk = d }) (map_again id path unmapped)
          ]
        ]
      ]

  unfoldable pub write_book : Bytes → Bytes → Service D → Job D
  write_book id text s = elim (find_node id s.cache) [
    | none ↦ write_to_disk id text s
    | some node ↦ write_to_cache id text node s
  ]

  -- A message behind the parser; the body of a PUT is always set.
  unfoldable pub do_message : HttpMsg → Service D → Job D
  do_message msg s = elim msg.type [
    | HttpType.read ↦ elim (enter s) [ none ↦ waits s | some t ↦ read_book msg.fileid t ]
    | HttpType.write ↦ elim (enter s) [
      | none ↦ waits s
      | some t ↦ elim msg.body [ none ↦ faulted t | some text ↦ write_book msg.fileid text t ]
    ]
    | HttpType.err ↦ say bad_reply s finished
  ]

  -- `main_job`
  unfoldable pub main_job : Bytes → Service D → Job D
  main_job buf s = elim (server_read_http buf new_msg) [
    | none ↦ faulted s
    | some msg ↦ do_message msg s
  ]
