-- ===== src/Buffer/Receive.antt =====
-- What `ReadFd` makes of the answers of read(2), data_buffer.h.
use c_s_online_library.Common.{
  ℕ, ◌<◌, ◌^◌, ◌≡◌, ◌≢◌, refl, sym, ◌∙◌, ap, true, List, [], ◌∷◌, ◌++◌, Bytes, All, append-nil,
  append_assoc, length, take_length, ℤ, pos, minus_one, is_negative, to_int, to_int_small, arith,
  some, ◌||◌, ltb, ◌==◌, if◌then◌else◌,
}
use c_s_online_library.Buffer.Defs.{DataBuffer, append}
use c_s_online_library.Buffer.Socket.{
  ReadOutcome, chunk, eof, failed, eagain, Read, read_result, read_fd,
}

abbrev pub IsChunk : ReadOutcome → Type 0
IsChunk (chunk x xs) = Unit
IsChunk eof = ⊥
IsChunk (failed e) = ⊥

-- The bytes that a run of answers carries.
abbrev pub arrived : List ReadOutcome → Bytes
arrived [] = []
arrived (chunk x xs ∷ os) = (x ∷ xs) ++ arrived os
arrived (eof ∷ os) = arrived os
arrived (failed e ∷ os) = arrived os

-- `ReadFd` stops with errno `e` and result `r`; the buffer has the bytes `got` at its end and its
-- cursor where it was. Any byte gives it storage.
pub record Stops (b : DataBuffer) (got : Bytes) (r : DataBuffer → ℤ) (e : ℕ) (run : Read)
    : Type 0 where
  pub after : DataBuffer
  pub stopped : run ≡ Read.returned after (r after) e
  pub received : after.char_vec ≡ b.char_vec ++ got
  pub same_cur : after.cur ≡ b.cur
  pub has_storage : after.allocated ≡ (b.allocated || ltb 0 (length got))

read_fd_chunks :
    (errno e : ℕ) (last : ReadOutcome)
    → ((b : DataBuffer) (more : List ReadOutcome)
        → read_fd b errno (last ∷ more) ≡ Read.returned b (read_result b e) e)
    → (b : DataBuffer) (os more : List ReadOutcome) → All IsChunk os
    → Stops b (arrived os) (λ b'. read_result b' e) e (read_fd b errno (os ++ last ∷ more))
unfolding read_fd
read_fd_chunks errno e last ends b [] more c = record {
  after = b;
  stopped = ends b more;
  received = sym (append-nil _);
  same_cur = refl;
  has_storage = ground arith;
}
read_fd_chunks errno e last ends b (chunk x xs ∷ os) more c =
    let step = (append b (some (x ∷ xs)) (pos (length (x ∷ xs)))).0 in
    let s = read_fd_chunks errno e last ends step os more c.1 in
    record {
      after = s.after;
      stopped = s.stopped;
      received = s.received ∙ rw (take_length xs) (append_assoc b.char_vec (x ∷ xs) (arrived os));
      same_cur = s.same_cur;
      has_storage = ground (arith, s.has_storage);
    }
read_fd_chunks errno e last ends b (eof ∷ os) more c = absurd c.0
read_fd_chunks errno e last ends b (failed x ∷ os) more c = absurd c.0

Stops-result :
    {b : DataBuffer} {got : Bytes} {e : ℕ} {run : Read} (r r' : DataBuffer → ℤ)
    → ((b' : DataBuffer) → r b' ≡ r' b')
    → Stops b got r e run
    → Stops b got r' e run
Stops-result {e} r r' same s = record {
  after = s.after;
  stopped = s.stopped ∙ ap (λ x. Read.returned s.after x e) (same s.after);
  received = s.received;
  same_cur = s.same_cur;
  has_storage = s.has_storage;
}

-- Chunks up to EAGAIN: every byte is appended, in order, and the result is the buffer's size (as
-- an `int`), not the number of bytes read.
pub read_fd-until_eagain :
    (b : DataBuffer) (errno : ℕ) (os more : List ReadOutcome)
    → All IsChunk os
    → Stops b
        (arrived os)
        (λ b'. to_int (length b'.char_vec))
        eagain
        (read_fd b errno (os ++ failed eagain ∷ more))
unfolding read_result
read_fd-until_eagain b errno os more c =
    Stops-result _ _ (λ b'. refl)
      (read_fd_chunks errno eagain (failed eagain) (λ b' more'. unfold read_fd in refl) b os more c)

-- The peer closes after some chunks. No branch sets errno, so the result depends on the errno that
-- the thread had before: the buffer's size when that was EAGAIN, -1 otherwise.
pub read_fd-until_close :
    (b : DataBuffer) (errno : ℕ) (os more : List ReadOutcome)
    → All IsChunk os
    → Stops b
        (arrived os)
        (λ b'. if errno == eagain then to_int (length b'.char_vec) else minus_one)
        errno
        (read_fd b errno (os ++ eof ∷ more))
unfolding read_result
read_fd-until_close b errno os more c =
    Stops-result _ _ (λ b'. ground arith)
      (read_fd_chunks errno errno eof (λ b' more'. unfold read_fd in refl) b os more c)

-- `ReadFd` never returns -1 with errno EAGAIN, so a caller that asks for both has dead code.
pub read_fd-negative :
    (errno : ℕ) (os : List ReadOutcome) (b : DataBuffer) {after : DataBuffer} {r : ℤ} {e : ℕ}
    → read_fd b errno os ≡ Read.returned after r e
    → length after.char_vec < 2 ^ 31
    → is_negative r ≡ true
    → e ≢ eagain
unfolding read_fd
read_fd-negative errno [] b h small neg = cc
read_fd-negative errno (chunk x xs ∷ os) b h small neg =
    read_fd-negative errno os (append b (some (x ∷ xs)) (pos (length (x ∷ xs)))).0 h small neg
read_fd-negative errno (eof ∷ os) b h small neg = ground (arith, to_int_small (length b.char_vec))
read_fd-negative errno (failed x ∷ os) b h small neg =
    ground (arith, to_int_small (length b.char_vec))
