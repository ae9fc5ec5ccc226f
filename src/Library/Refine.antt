-- ===== src/Library/Refine.antt =====
-- src/server.cc: `main_job`, one job after the other, implements the map of books of `Spec`.
use c_s_online_library.Common.{
  ℕ, ◌+◌, ◌<◌, ◌≤◌, ◌≡◌, refl, ap, ◌∙◌, sym, subst, false, Option, none, some, List, [], ◌∷◌, ◌++◌,
  Bytes, bytes_eq, bytes_eq_iff, length, Bool-cases, inl, inr, arith,
}
use c_s_online_library.Library.Cache.{CacheNode, Cache, HeapOps, put_node}
use c_s_online_library.Library.Coherence.{main_job-get_text}
use c_s_online_library.Library.Http.{found_text}
use c_s_online_library.Library.Job.{
  DiskOps, Service, finished, faulted, waits, writing, said, main_job,
}
use c_s_online_library.Library.Lookup.{find_node-put_node, length-put_node-le}
use c_s_online_library.Library.Path.{checkinput, ok, file_hash, checkinput-file_hash}
use c_s_online_library.Library.Shelf.{
  TakesWhole, Mapped, Fresh, Stored, put_node-Fresh_ne, read_book_text,
}
use c_s_online_library.Library.Spec.{Request, get, request_text, Shelf}

module _ {H D : Type 0} (heap : HeapOps H) (disk : DiskOps D) (hash_size buf_size : ℕ) where
  -- The jobs of a run of requests, each at its time; `none` if one does not return.
  unfoldable pub serve : Service D → List (ℕ × Request) → Option (Service D)
  serve s [] = some s
  serve s ((now, r) ∷ rs) = elim (main_job heap disk hash_size buf_size now (request_text r) s) [
    | finished s' ↦ serve s' rs
    | faulted s' ↦ none
    | waits s' ↦ none
    | writing s' ↦ none
  ]

-- The service has the books of `f`: each in its file, and none out of date in the cache. Its lock is
-- free, and its socket takes each reply with one write.
pub record Shows {D : Type 0} (disk : DiskOps D) (hash_size buf_size : ℕ) (f : Shelf)
    (s : Service D) : Type 0 where
  pub free : s.locked ≡ false
  pub takes : TakesWhole s
  pub fits : (id text : Bytes) → f id ≡ some text → length (found_text text) ≤ buf_size
  pub on_disk :
      (id text path : Bytes)
      → checkinput id ≡ ok
      → f id ≡ some text
      → file_hash hash_size id ≡ some path
      → Stored disk path text s.disk
  pub in_cache : (id text : Bytes) → checkinput id ≡ ok → f id ≡ some text → Fresh id text s.cache

-- A read leaves an entry with the book's text, and the others as they were.
get-Fresh :
    (f : Shelf) (id text : Bytes) (node : CacheNode) (c : Cache)
    → f id ≡ some text
    → Mapped text node
    → (j t : Bytes) → f j ≡ some t
    → Fresh j t c
    → Fresh j t (put_node id node c)
get-Fresh f id text node c there m j t there' fresh = elim (Bool-cases (bytes_eq j id)) [
  | inl same ↦ λ n e.
      let key : j ≡ id = (bytes_eq_iff j id).0 same in
      let one : some text ≡ some t = sym there ∙ sym (ap f key) ∙ there' in
      let texts : text ≡ t = cc in
      let nodes : node ≡ n = ground (arith, find_node-put_node j id node c) in
      subst (Mapped t) nodes (subst (λ x. Mapped x node) texts m)
  | inr other ↦ put_node-Fresh_ne id j t node c other fresh
]

-- After a change a shelf has the new text, or, under another id, what it had.
data NowHas (id text : Bytes) (f : Shelf) (j t : Bytes) : Type 0 where
  changed : j ≡ id → text ≡ t → NowHas id text f j t
  kept : bytes_eq j id ≡ false → f j ≡ some t → NowHas id text f j t

module _ {H D : Type 0} (heap : HeapOps H) (disk : DiskOps D) (hash_size buf_size : ℕ)
    (pos_size : 0 < hash_size) (f : Shelf) (s : Service D)
    (shows : Shows disk hash_size buf_size f s) (now : ℕ) where
  pub get-Shows :
      (id text : Bytes)
      → checkinput id ≡ ok
      → f id ≡ some text
      → length s.cache ≤ 200000
      → (s' : Service D) × (main_job heap disk hash_size buf_size now (request_text (get id)) s
          ≡ finished s')
        × (s'.sent ≡ s.sent ++ (found_text text ∷ []))
        × (length s'.cache ≤ length s.cache + 1)
        × Shows disk hash_size buf_size f s'
  get-Shows id text e there few =
      let (dir, lt, h) = checkinput-file_hash hash_size id pos_size e in
      let (node, mapped, got) =
        read_book_text heap disk hash_size buf_size now id _ text s h
          (shows.on_disk id text _ e there h) (shows.in_cache id text e there) few
          (shows.fits id text there) shows.takes in
      (
        said (found_text text) (record s { cache = put_node id node s.cache }),
        main_job-get_text heap disk hash_size buf_size now id s shows.free e ∙ got,
        refl,
        omega (arith, length-put_node-le id node s.cache),
        record {
          free = shows.free;
          takes = shows.takes;
          fits = shows.fits;
          on_disk = shows.on_disk;
          in_cache = λ j t e' there'.
              get-Fresh f id text node s.cache there mapped j t there'
                (shows.in_cache j t e' there');
        },
      )
