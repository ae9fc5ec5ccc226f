-- ===== src/Library/Write.antt =====
-- src/server.cc, `socket_write`: write(2) until all of the buffer is taken, on a list of answers.
use c_s_online_library.Common.{
  ℕ, zero, suc, ◌+◌, ◌-◌, ◌<◌, ◌≡◌, refl, false, List, [], ◌∷◌, ◌++◌, Bytes, length, take, drop,
  ◌==◌, if◌then◌else◌, arith, ℤ, pos, minus_one, append-nil, drop-drop, drop_length, take_all,
  take_length, take-append-drop, length-drop, ap, ◌∙◌,
}
use c_s_online_library.Buffer.Socket.{WriteOutcome, wrote, refused, eagain}

-- `again`: the loop goes on behind the answers; both have what the kernel has taken.
pub data SocketWrite : Type 0 where
  again : Bytes → SocketWrite
  returned : ℤ → Bytes → SocketWrite

-- The loop; `rest` is what is behind `p`, whose length is `total`. EINTR (4) is an error like any
-- other but EAGAIN.
unfoldable pub socket_write_loop : ℕ → Bytes → Bytes → List WriteOutcome → SocketWrite
socket_write_loop buflen rest sent [] = again sent
socket_write_loop buflen rest sent (refused e ∷ os) =
    let retried = socket_write_loop buflen rest sent os in
    if e == eagain then retried else returned minus_one sent
socket_write_loop buflen rest sent (wrote n ∷ os) =
    let more = socket_write_loop buflen (drop n rest) (sent ++ take n rest) os in
    if n == buflen then returned (pos buflen) (sent ++ take n rest) else more

-- `socket_write`
unfoldable pub socket_write : Bytes → List WriteOutcome → SocketWrite
socket_write buffer os = socket_write_loop (length buffer) buffer [] os

-- Refusals for the moment
abbrev pub refusals : ℕ → List WriteOutcome
refusals zero = []
refusals (suc k) = refused eagain ∷ refusals k

-- Writes of nothing, the only ones that are left once the buffer is sent
abbrev pub empty_writes : ℕ → List WriteOutcome
empty_writes zero = []
empty_writes (suc k) = wrote 0 ∷ empty_writes k

refused_then_whole :
    (buffer : Bytes) (k : ℕ) (more : List WriteOutcome)
    → socket_write buffer (refusals k ++ wrote (length buffer) ∷ more)
      ≡ returned (pos (length buffer)) (take (length buffer) buffer)
unfolding socket_write socket_write_loop
refused_then_whole buffer zero more = ground arith
refused_then_whole buffer (suc k) more = ground (arith, refused_then_whole buffer k more)

-- However often the socket refuses for the moment, one write that takes all of the buffer sends it
-- once, and its size is returned.
pub socket_write-refusals :
    (buffer : Bytes) (k : ℕ) (more : List WriteOutcome)
    → socket_write buffer (refusals k ++ wrote (length buffer) ∷ more)
      ≡ returned (pos (length buffer)) buffer
socket_write-refusals buffer k more =
    refused_then_whole buffer k more ∙ ap (returned (pos (length buffer))) (take_length buffer)

loop_empty :
    (buflen : ℕ) (sent : Bytes) (k : ℕ)
    → 0 < buflen
    → socket_write_loop buflen [] sent (empty_writes k) ≡ again sent
unfolding socket_write_loop
loop_empty buflen sent zero h = refl
loop_empty buflen sent (suc k) h = ground (arith, append-nil sent, loop_empty buflen sent k h)

-- A buffer that the socket takes in two parts is sent once and in full, and then `socket_write` does
-- not return: only a single write of the size of the buffer ends the loop, and it goes on with
-- writes of nothing, as many as there are.
pub socket_write-two_parts :
    (buffer : Bytes) (n k : ℕ)
    → 0 < n
    → n < length buffer
    → socket_write buffer (wrote n ∷ wrote (length buffer - n) ∷ empty_writes k) ≡ again buffer
unfolding socket_write socket_write_loop
socket_write-two_parts buffer n k pos_n lt =
    let gone : drop (length buffer - n) (drop n buffer) ≡ [] =
      drop-drop n (length buffer - n) buffer ∙ ap (λ m. drop m buffer) whole ∙ drop_length buffer in
    let tail : take (length buffer - n) (drop n buffer) ≡ drop n buffer =
      take_all (length buffer - n) (drop n buffer) (omega (arith, length-drop n buffer)) in
    let both = take-append-drop n buffer in
    let first : (n == length buffer) ≡ false = ground arith in
    let second : (length buffer - n == length buffer) ≡ false = ground arith in
    rw (first, second, gone, tail, both) (loop_empty (length buffer) buffer k (omega arith))
  where
    whole : n + (length buffer - n) ≡ length buffer
    whole = omega arith
