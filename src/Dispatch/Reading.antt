-- ===== src/Dispatch/Reading.antt =====
-- src/server.cc, `pthread_handler` from the read loop on: what `main_job` gets. The buffer is fresh
-- from `new`, so that what it holds behind the bytes that are read is an argument, `junk`.
use c_s_online_library.Buffer.Receive.{IsChunk, arrived}
use c_s_online_library.Buffer.Socket.{ReadOutcome, chunk, eof, failed, eagain}
use c_s_online_library.Common.{
  ℕ, ◌<◌, ◌≤◌, ◌≡◌, refl, ap, sym, ◌∙◌, true, false, Option, none, some, List, [], ◌∷◌, ◌++◌,
  append_assoc, append-nil, Bytes, codes, crlf, All, All-append, Lacks, find, find-append, find-lt,
  IsDigit, length, length-append, take, drop, take-append_length, ltb, ◌==◌, if◌then◌else◌,
  Bool-cases, inl, inr, arith,
}
use c_s_online_library.Library.Cache.{HeapOps}
use c_s_online_library.Library.Exchange.{checkinput-IsId}
use c_s_online_library.Library.Http.{put_text}
use c_s_online_library.Library.Job.{DiskOps, Service, Job, finished, faulted, main_job}
use c_s_online_library.Library.Path.{checkinput, ok}

-- `closed` and the next turn; a job for the C string in the buffer, `none` if it has no end; `beside`,
-- a write past the buffer; or still reading.
pub data ReadJob : Type 0 where
  closed beside reading : ReadJob
  job : Option Bytes → ReadJob

-- The C string at the start of the memory
abbrev pub c_string : Bytes → Option Bytes
c_string mem = if ltb (find 0 mem) (length mem) then some (take (find 0 mem) mem) else none

-- The loop of reads, `got` being what is in the buffer so far. Each read is given BUFSIZE - 1 bytes
-- behind `got`, however much room there is.
unfoldable pub read_job : ℕ → Bytes → Bytes → List ReadOutcome → ReadJob
read_job buf_size junk got [] = reading
read_job buf_size junk got (chunk x xs ∷ os) =
    let more = read_job buf_size junk (got ++ (x ∷ xs)) os in
    if ltb buf_size (length (got ++ (x ∷ xs))) then beside else more
read_job buf_size junk got (eof ∷ os) = closed
read_job buf_size junk got (failed e ∷ os) =
    if e == eagain then job (c_string (got ++ drop (length got) junk)) else closed

module _ {H D : Type 0} (heap : HeapOps H) (disk : DiskOps D) (hash_size buf_size now : ℕ) where
  -- A turn of `pthread_handler` for a descriptor; `none` while it reads.
  unfoldable pub handle_fd : Bytes → List ReadOutcome → Service D → Option (Job D)
  handle_fd junk os s = elim (read_job buf_size junk [] os) [
    | closed ↦ some (finished s)
    | beside ↦ some (faulted s)
    | reading ↦ none
    | job t ↦ elim t [
      | none ↦ some (faulted s)
      | some text ↦ some (main_job heap disk hash_size buf_size now text s)
    ]
  ]

module _ (buf_size : ℕ) (junk : Bytes) (more : List ReadOutcome) where
  read_job_fits :
      (got : Bytes) (os : List ReadOutcome)
      → All IsChunk os
      → length (got ++ arrived os) ≤ buf_size
      → read_job buf_size junk got (os ++ failed eagain ∷ more)
        ≡ job (c_string ((got ++ arrived os) ++ drop (length (got ++ arrived os)) junk))
  unfolding read_job
  read_job_fits got [] h fits = rw (append-nil got) refl
  read_job_fits got (chunk x xs ∷ os) h fits =
      let step : (got ++ (x ∷ xs)) ++ arrived os ≡ got ++ ((x ∷ xs) ++ arrived os) =
        append_assoc got (x ∷ xs) (arrived os) in
      let run = read_job_fits (got ++ (x ∷ xs)) os h.1 (omega (arith, ap length step, fits)) in
      let room : ltb buf_size (length (got ++ (x ∷ xs))) ≡ false =
        ground (arith, fits, ap length step, length-append (got ++ (x ∷ xs)) (arrived os)) in
      rw room (run ∙ ap (λ m. job (c_string (m ++ drop (length m) junk))) step)
  read_job_fits got (eof ∷ os) h fits = absurd h.0
  read_job_fits got (failed e ∷ os) h fits = absurd h.0

  read_job_beside :
      (got : Bytes) (os : List ReadOutcome)
      → All IsChunk os
      → length got ≤ buf_size
      → buf_size < length (got ++ arrived os)
      → read_job buf_size junk got (os ++ failed eagain ∷ more) ≡ beside
  unfolding read_job
  read_job_beside got [] h small long = absurd (omega (arith, ap length (append-nil got)))
  read_job_beside got (chunk x xs ∷ os) h small long =
      elim (Bool-cases (ltb buf_size (length (got ++ (x ∷ xs))))) [
        | inl over ↦ rw over refl
        | inr room ↦ rw room (
            read_job_beside (got ++ (x ∷ xs)) os h.1 (ground arith)
              (omega (arith, ap length (append_assoc got (x ∷ xs) (arrived os)))))
      ]
  read_job_beside got (eof ∷ os) h small long = absurd h.0
  read_job_beside got (failed e ∷ os) h small long = absurd h.0

pub c_string-append : (text rest : Bytes) → Lacks 0 text → c_string (text ++ (0 ∷ rest)) ≡ some text
c_string-append text rest h =
    let lt : ltb (find 0 (text ++ (0 ∷ rest))) (length (text ++ (0 ∷ rest))) ≡ true =
      ground (arith, find-lt 0 text rest) in
    rw (lt, find-append 0 text rest h) (ap some (take-append_length text (0 ∷ rest)))

digits-Lacks_nul : (xs : Bytes) → All IsDigit xs → Lacks 0 xs
digits-Lacks_nul [] d = tt
digits-Lacks_nul (x ∷ xs) d = (omega (arith, d.0), digits-Lacks_nul xs d.1)

put_text-append :
    (id json behind : Bytes) → put_text id json ++ behind ≡ put_text id (json ++ behind)
put_text-append id json behind =
    ap (λ m. codes "PUT /api/v1/books/" ++ m) (append_assoc id (crlf ++ (crlf ++ json)) behind)

put_text-Lacks_nul :
    (id json : Bytes) → checkinput id ≡ ok → Lacks 0 json → Lacks 0 (put_text id json)
put_text-Lacks_nul id json valid j = All-append _ (codes "PUT /api/v1/books/") _ (omega arith) (
    All-append _ id _ (digits-Lacks_nul id (checkinput-IsId id valid).digits)
      (omega arith, (omega arith, (omega arith, (omega arith, j)))))

-- The C string that starts with a change of a book
c_string-put_text :
    (id json behind rest mem : Bytes)
    → checkinput id ≡ ok
    → Lacks 0 json
    → Lacks 0 behind
    → mem ≡ behind ++ (0 ∷ rest)
    → c_string (put_text id json ++ mem) ≡ some (put_text id (json ++ behind))
c_string-put_text id json behind rest mem valid j b tail =
    ap (λ m. c_string (put_text id json ++ m)) tail
    ∙ ap c_string (sym (append_assoc (put_text id json) behind (0 ∷ rest)))
    ∙ c_string-append (put_text id json ++ behind) rest
        (All-append _ (put_text id json) behind (put_text-Lacks_nul id json valid j) b)
    ∙ ap some (put_text-append id json behind)

module _ {H D : Type 0} (heap : HeapOps H) (disk : DiskOps D) (hash_size buf_size now : ℕ) where
  -- A change of a book that arrives in any chunks, all of it together no longer than the buffer, where
  -- the fresh buffer has a NUL behind it: `main_job` takes the bytes that the buffer happens to hold
  -- behind the request, up to the first NUL, for the end of the book's text.
  pub handle_fd-put_text :
      (os more : List ReadOutcome) (id json junk behind rest : Bytes) (s : Service D)
      → All IsChunk os
      → arrived os ≡ put_text id json
      → checkinput id ≡ ok
      → Lacks 0 json
      → Lacks 0 behind
      → drop (length (put_text id json)) junk ≡ behind ++ (0 ∷ rest)
      → length (put_text id json) ≤ buf_size
      → handle_fd heap disk hash_size buf_size now junk (os ++ failed eagain ∷ more) s
        ≡ some (main_job heap disk hash_size buf_size now (put_text id (json ++ behind)) s)
  unfolding handle_fd
  handle_fd-put_text os more id json junk behind rest s chunks text valid j b tail fits =
      let run =
        read_job_fits buf_size junk more [] os chunks (omega (arith, ap length text, fits)) in
      let string = c_string-put_text id json behind rest _ valid j b tail in
      rw
        (run ∙ ap (λ m. job (c_string (m ++ drop (length m) junk))) text ∙ ap job string, handle_fd)
        refl

  -- A longer one is written past the buffer.
  handle_fd-long :
      (os more : List ReadOutcome) (text junk : Bytes) (s : Service D)
      → All IsChunk os
      → arrived os ≡ text
      → buf_size < length text
      → handle_fd heap disk hash_size buf_size now junk (os ++ failed eagain ∷ more) s
        ≡ some (faulted s)
  unfolding handle_fd
  handle_fd-long os more text junk s chunks all long =
      let run =
        read_job_beside buf_size junk more [] os chunks (omega arith)
          (omega (arith, ap length all, long)) in
      rw (run, handle_fd) refl
