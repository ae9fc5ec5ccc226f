-- ===== src/Library/Shelf.antt =====
-- src/server.cc: the reads and writes of one book, in the cache and on the disk.
use c_s_online_library.Buffer.Socket.{wrote}
use c_s_online_library.Library.Write.{SocketWrite, socket_write, socket_write-refusals}
use c_s_online_library.Common.{
  pos, ap, none, true, ltb, ◌<◌, ℕ, ◌≤◌, ◌≡◌, ◌≢◌, refl, ◌∙◌, false, some, [], ◌∷◌, ◌++◌, Bytes,
  bytes_eq, length, take_length, Option-cases, inl, inr, arith, subst,
}
use c_s_online_library.Library.Cache.{CacheNode, Cache, find_node, put_node, HeapOps}
use c_s_online_library.Library.Lookup.{
  find_node-put_node, find_node-put_node_self, length-put_node, free_nothing,
}
use c_s_online_library.Library.Http.{found_text}
use c_s_online_library.Library.Job.{
  DiskOps, Service, Job, finished, stored_reply, say, said, reply_book, read_from_disk,
  read_from_cache, read_book, write_to_disk, map_again, write_to_cache, write_book,
}
use c_s_online_library.Library.Path.{file_hash}

-- The socket takes each reply with one write.
abbrev pub TakesWhole : {D : Type 0} → Service D → Type 0
TakesWhole s = (text : Bytes) → s.takes text ≡ wrote (length text) ∷ []

-- So `socket_write` returns.
pub say-whole :
    {D : Type 0} (text : Bytes) (s : Service D) (next : Service D → Job D)
    → TakesWhole s
    → say text s next ≡ next (said text s)
unfolding say
say-whole text s next takes =
    let returns_ : socket_write text (s.takes text)
        ≡ SocketWrite.returned (pos (length text)) text =
      ap (socket_write text) (takes text) ∙ socket_write-refusals text 0 [] in
    rw (returns_, say) refl

reply_whole :
    {D : Type 0} (buf_size : ℕ) (node : CacheNode) (text : Bytes) (s : Service D)
    → node.data_ ≡ some text
    → node.size ≡ length text
    → length (found_text text) ≤ buf_size
    → TakesWhole s
    → reply_book buf_size (some node) s ≡ finished (said (found_text text) s)
unfolding reply_book
reply_whole buf_size node text s d n room whole =
    let cut = take_length text in
    let fits : ltb buf_size (length (found_text text)) ≡ false = ground (arith, room) in
    rw (d, reply_book) (rw (n, cut) (rw fits (say-whole (found_text text) s finished whole)))

-- The entry has the whole of `text` mapped.
pub record Mapped (text : Bytes) (node : CacheNode) : Type 0 where
  pub mapped : node.data_ ≡ some text
  pub whole : node.size ≡ length text

-- An entry for this book, if there is one, is up to date.
abbrev pub Fresh : Bytes → Bytes → Cache → Type 0
Fresh id text c = (node : CacheNode) → find_node id c ≡ some node → Mapped text node

pub put_node-Fresh :
    (id text : Bytes) (node : CacheNode) (c : Cache)
    → Mapped text node
    → Fresh id text (put_node id node c)
put_node-Fresh id text node c m n e =
    let same : node ≡ n = cc (find_node-put_node_self id node c) in subst (Mapped text) same m

pub put_node-Fresh_ne :
    (id j text : Bytes) (node : CacheNode) (c : Cache)
    → bytes_eq j id ≡ false
    → Fresh j text c
    → Fresh j text (put_node id node c)
put_node-Fresh_ne id j text node c ne fresh n e =
    fresh n (ground (arith, find_node-put_node j id node c))

find_node-put_node_ne :
    (j k : Bytes) (n : CacheNode) (c : Cache)
    → bytes_eq j k ≡ false
    → find_node j (put_node k n c) ≡ find_node j c
find_node-put_node_ne j k n c ne = rw (find_node-put_node j k n c, ne) refl

module _ {D : Type 0} (disk : DiskOps D) where
  -- The file has `text`.
  pub record Stored (path text : Bytes) (d : D) : Type 0 where
    pub stat_size : disk.stat_size d path ≡ some (length text)
    pub map_file : disk.map_file d path (length text) ≡ some text

  pub store-Stored :
      (path text : Bytes) (d d' : D)
      → 0 < length text
      → disk.store d path text ≡ some d'
      → Stored path text d'
  store-Stored path text d d' some_ e = record {
    stat_size = disk.stat_size-store d d' path text e;
    map_file = disk.map_file-store d d' path text some_ e;
  }

  pub store-Stored_ne :
      (path path' text text' : Bytes) (d d' : D)
      → disk.store d path text ≡ some d'
      → path' ≢ path
      → Stored path' text' d
      → Stored path' text' d'
  store-Stored_ne path path' text text' d d' e other there = record {
    stat_size = disk.stat_size-store_ne d d' path path' text e other ∙ there.stat_size;
    map_file = disk.map_file-store_ne d d' path path' text (length text') e other ∙ there.map_file;
  }

  -- A change that is answered with 200: the reply, the lock, the disk, and the cache, where only the
  -- entry of this book is another.
  pub record Changed (id text : Bytes) (d : D) (s s' : Service D) : Type 0 where
    pub replied : s'.sent ≡ s.sent ++ (stored_reply ∷ [])
    pub free : s'.locked ≡ false
    pub same_takes : s'.takes ≡ s.takes
    pub disk_now : s'.disk ≡ d
    pub fresh : Fresh id text s'.cache
    pub others : (j : Bytes) → bytes_eq j id ≡ false → find_node j s'.cache ≡ find_node j s.cache
    pub same_length : length s'.cache ≡ length s.cache

module _ {H D : Type 0} (heap : HeapOps H) (disk : DiskOps D) (hash_size buf_size now : ℕ) where
  read_from_disk_text :
      (id path text : Bytes) (s : Service D)
      → file_hash hash_size id ≡ some path
      → Stored disk path text s.disk
      → length (found_text text) ≤ buf_size
      → TakesWhole s
      → (node : CacheNode) × Mapped text node
        × (read_from_disk heap disk hash_size buf_size now id s
            ≡ finished (said (found_text text) (record s { cache = put_node id node s.cache })))
  unfolding read_from_disk
  read_from_disk_text id path text s h there room takes =
      rw (h, read_from_disk)
        (rw (there.stat_size, read_from_disk)
          (
            _,
            record { mapped = there.map_file; whole = refl },
            reply_whole buf_size _ text _ there.map_file refl room takes,
          ))

  read_from_cache_text :
      (id text : Bytes) (node : CacheNode) (s : Service D)
      → find_node id s.cache ≡ some node
      → Mapped text node
      → length (found_text text) ≤ buf_size
      → TakesWhole s
      → (node' : CacheNode) × Mapped text node'
        × (read_from_cache heap disk hash_size buf_size now id s
            ≡ finished (said (found_text text) (record s { cache = put_node id node' s.cache })))
  unfolding read_from_cache
  read_from_cache_text id text node s f m room takes =
      rw (f, read_from_cache)
        (
          _,
          record { mapped = m.mapped; whole = m.whole },
          reply_whole buf_size _ text _ m.mapped m.whole room takes,
        )

  -- A read of a book with a file, whose entry in the cache, if any, is up to date.
  pub read_book_text :
      (id path text : Bytes) (s : Service D)
      → file_hash hash_size id ≡ some path
      → Stored disk path text s.disk
      → Fresh id text s.cache
      → length s.cache ≤ 200000
      → length (found_text text) ≤ buf_size
      → TakesWhole s
      → (node : CacheNode) × Mapped text node
        × (read_book heap disk hash_size buf_size now id s
            ≡ finished (said (found_text text) (record s { cache = put_node id node s.cache })))
  unfolding read_book
  read_book_text id path text s h there fresh few room takes =
      elim (Option-cases (find_node id s.cache)) [
        | inl f ↦
            rw (f, read_book)
              (rw (free_nothing heap s.cache few)
                (read_from_disk_text id path text s h there room takes))
        | inr (node, f) ↦
            rw (f, read_book)
              (rw (free_nothing heap s.cache few)
                (read_from_cache_text id text node s f (fresh node f) room takes))
      ]

  write_to_cache_changes :
      (id text path : Bytes) (size : ℕ) (node : CacheNode) (s : Service D) (d : D)
      → find_node id s.cache ≡ some node
      → file_hash hash_size id ≡ some path
      → disk.stat_size s.disk path ≡ some size
      → disk.store s.disk path text ≡ some d
      → 0 < length text
      → TakesWhole s
      → (s' : Service D) × (write_to_cache heap disk hash_size buf_size now id text node s
          ≡ finished s')
        × Changed disk id text d s s'
  unfolding write_to_cache map_again
  write_to_cache_changes id text path size node s d f h there w some_ takes =
      let now_there = store-Stored disk path text s.disk d some_ w in
      let unmapped : CacheNode = record node { data_ = none } in
      let s1 : Service D = record s {
        disk = d;
        cache = put_node id unmapped s.cache;
        locked = true;
        holder = s.thread;
      } in
      rw (h, write_to_cache)
        (rw (there, write_to_cache)
          (rw (w, write_to_cache)
            (rw
              (say-whole stored_reply s1
                (map_again heap disk hash_size buf_size now id path unmapped) takes)
              (rw (now_there.stat_size, map_again)
                (
                  _,
                  refl,
                  record {
                    replied = refl;
                    free = refl;
                    same_takes = refl;
                    disk_now = refl;
                    fresh =
                        put_node-Fresh id text _ _
                          (record { mapped = now_there.map_file; whole = refl });
                    others = λ j ne.
                        find_node-put_node_ne j id _ _ ne ∙ find_node-put_node_ne j id _ _ ne;
                    same_length =
                        length-put_node id _ _ _ (find_node-put_node_self id _ _)
                        ∙ length-put_node id _ node s.cache f;
                  },
                )))))

  pub write_book_changes :
      (id text path : Bytes) (size : ℕ) (s : Service D) (d : D)
      → s.locked ≡ false
      → file_hash hash_size id ≡ some path
      → disk.stat_size s.disk path ≡ some size
      → disk.store s.disk path text ≡ some d
      → 0 < length text
      → TakesWhole s
      → (s' : Service D) × (write_book heap disk hash_size buf_size now id text s ≡ finished s')
        × Changed disk id text d s s'
  unfolding write_book write_to_disk
  write_book_changes id text path size s d free h there w some_ takes =
      elim (Option-cases (find_node id s.cache)) [
        | inl f ↦
            rw (f, write_book)
              (rw (h, write_to_disk)
                (rw (there, write_to_disk)
                  (rw (w, write_to_disk)
                    (rw (say-whole stored_reply (record s { disk = d }) finished takes) (
                      _,
                      refl,
                      record {
                        replied = refl;
                        free = free;
                        same_takes = refl;
                        disk_now = refl;
                        fresh = λ n e. absurd (cc);
                        others = λ j ne. refl;
                        same_length = refl;
                      },
                    )))))
        | inr (node, f) ↦
            rw (f, write_book)
              (write_to_cache_changes id text path size node s d f h there w some_ takes)
      ]
