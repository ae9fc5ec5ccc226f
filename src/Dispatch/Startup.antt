-- ===== src/Dispatch/Startup.antt =====
-- src/server.cc, `main` up to its event loop.
use c_s_online_library.Common.{
  ℕ, ◌-◌, ◌*◌, ◌%◌, ◌^◌, ◌≡◌, refl, Bool, true, false, not, Option, none, some, [], ◌∷◌, ◌∙◌, ap,
  Bytes, if◌then◌else◌, ◌==◌, ℤ, pos, negsuc, minus_one, Option-cases, inl, inr,
}
use c_s_online_library.Dispatch.Defs.{Dispatch, start}
use c_s_online_library.Library.Cache.{HeapOps, find_node, free_part_of_map}
use c_s_online_library.Library.Coherence.{main_job-get_text}
use c_s_online_library.Library.Http.{get_text}
use c_s_online_library.Library.Job.{DiskOps, Service, faulted, read_from_disk, read_book, main_job}
use c_s_online_library.Library.Path.{checkinput, ok, hash_loop, hash, file_hash}
use c_s_online_library.Request.Defs.{atoi}

-- sem_init of both semaphores, socket, whether bind to a port succeeds, listen, and the number of
-- processors
pub record StartCalls : Type 0 where
  pub capacity_made : Bool
  pub product_made : Bool
  pub socket : Option ℕ
  pub binds : ℕ → Bool
  pub listens : Bool
  pub processors : ℕ

-- `init_hash`: HASHSIZE, which is 0 before, and what is returned. The configuration file is missing,
-- or starts with no number, or with this one, which is not negative.
unfoldable pub init_hash : Option (Option ℕ) → ℕ × Bool
init_hash none = (0, false)
init_hash (some none) = (0, true)
init_hash (some (some size)) = (size, true)

-- An exit with a status, or the event loop on a listening socket, with HASHSIZE and the threads
pub data Startup : Type 0 where
  exits : ℤ → Startup
  serves : ℕ → ℕ → Dispatch → Startup

-- The port of `htons`, a 16-bit number, of an `int`
unfoldable pub to_port : ℤ → ℕ
to_port (pos n) = n % 2 ^ 16
to_port (negsuc n) = 2 ^ 16 - 1 - n % 2 ^ 16

-- `main`, with `argc` and its argument
unfoldable pub start_server : StartCalls → Option (Option ℕ) → ℕ → Bytes → Startup
start_server calls config argc arg =
    if not (argc == 2)
    then exits (pos 1)
    else if not calls.capacity_made
    then exits (pos 1)
    else if not calls.product_made
    then exits (pos 1)
    else elim calls.socket [
      | none ↦ exits (pos 1)
      | some fd ↦
          if not (calls.binds (to_port (atoi arg)))
          then exits minus_one
          else if not calls.listens
          then exits minus_one
          else serves fd (init_hash config).0 (start (2 * calls.processors))
    ]

file_hash-zero : (id : Bytes) → file_hash 0 id ≡ none
unfolding file_hash hash
file_hash-zero [] = refl
file_hash-zero (c ∷ cs) = elim (Option-cases (hash_loop (pos 0) (c ∷ cs))) [
  | inl e ↦ rw e refl
  | inr (n, e) ↦ rw e refl
]

module _ {H D : Type 0} (heap : HeapOps H) (disk : DiskOps D) (buf_size now : ℕ) where
  read_book_no_hash :
      (id : Bytes) (s : Service D)
      → s.cache ≡ []
      → file_hash 0 id ≡ none
      → (s' : Service D) × (read_book heap disk 0 buf_size now id s ≡ faulted s')
  unfolding read_book read_from_disk find_node
  read_book_no_hash id s empty_cache h =
      let absent : find_node id s.cache ≡ none = ap (find_node id) empty_cache in
      (
        record s { cache = free_part_of_map heap s.cache },
        rw (absent, read_book) (rw (h, read_from_disk) refl),
      )

  -- `main` does not look at what `init_hash` returns. Without the configuration file, or without a
  -- number in it, the server starts all the same when all its calls succeed; and the first read of any
  -- book, by a valid id, with the lock free and the cache still empty, divides by zero.
  pub start_server_without_config :
      (calls : StartCalls) (config : Option (Option ℕ)) (arg : Bytes) (fd : ℕ) (id : Bytes)
      (s : Service D)
      → calls.capacity_made ≡ true
      → calls.product_made ≡ true
      → calls.socket ≡ some fd
      → calls.binds (to_port (atoi arg)) ≡ true
      → calls.listens ≡ true
      → (init_hash config).0 ≡ 0
      → s.locked ≡ false
      → s.cache ≡ []
      → checkinput id ≡ ok
      → (start_server calls config 2 arg ≡ serves fd 0 (start (2 * calls.processors)))
        × ((s' : Service D) × (main_job heap disk 0 buf_size now (get_text id) s ≡ faulted s'))
  unfolding start_server
  start_server_without_config calls config arg fd id s c p k b l size free empty_cache e =
      let (s', run) = read_book_no_hash id s empty_cache (file_hash-zero id) in
      (
        rw (c, start_server)
            (rw (p, start_server)
              (rw (k, start_server)
                (rw (b, start_server)
                  (rw (l, start_server)
                    (ap (λ n. serves fd n (start (2 * calls.processors))) size))))),
        (s', main_job-get_text heap disk 0 buf_size now id s free e ∙ run),
      )
