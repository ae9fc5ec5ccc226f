-- ===== src/Buffer/Socket.antt =====
-- libnet/data_buffer.h, `ReadFd` and `WriteFd`: the loops over read(2) and write(2). Each call of
-- the kernel is answered by the next outcome of a list; `pending` means that the list has run out.
-- `errno` is the thread's, and a call that succeeds leaves it.
use c_s_online_library.Common.{
  ℕ, ◌+◌, ◌-◌, not, some, List, [], ◌∷◌, ◌++◌, Bytes, length, take, drop, ◌==◌, if◌then◌else◌, ℤ,
  pos, negsuc, minus_one, to_int,
}
use c_s_online_library.Buffer.Defs.{DataBuffer, append}

-- read(2): at least one byte, the end of the stream, or -1 with this errno
pub data ReadOutcome : Type 0 where
  chunk : ℕ → Bytes → ReadOutcome
  eof : ReadOutcome
  failed : ℕ → ReadOutcome

-- EAGAIN on Linux
abbrev pub eagain : ℕ
eagain = 11

-- What read_from_sock leaves behind: its result, the bytes in the array, and `*Errno`, which is
-- the thread's errno in all three branches.
pub record Taken : Type 0 where
  pub result : ℤ
  pub array : Bytes
  pub errno : ℕ

-- `read_from_sock`, whose loop makes one call: every branch of its body leaves it. After EAGAIN
-- the result is `index`, to which -1 has been added.
unfoldable pub read_from_sock : ℕ → ReadOutcome → Taken
read_from_sock errno (chunk x xs) = record {
  result = pos (length (x ∷ xs));
  array = x ∷ xs;
  errno = errno;
}
read_from_sock errno eof = record { result = minus_one; array = []; errno = errno }
read_from_sock errno (failed e) =
    if not (e == eagain)
    then record { result = minus_one; array = []; errno = e }
    else record { result = minus_one; array = []; errno = e }

pub data Read : Type 0 where
  pending : DataBuffer → ℕ → Read
  returned : DataBuffer → ℤ → ℕ → Read

-- The end of `ReadFd`; its `size_t` becomes the `int` of `readBuff`.
unfoldable pub read_result : DataBuffer → ℕ → ℤ
read_result b errno = if not (errno == eagain) then minus_one else to_int (length b.char_vec)

-- `ReadFd`, from the loop on
unfoldable pub read_fd : DataBuffer → ℕ → List ReadOutcome → Read
unfolding read_from_sock read_result append
read_fd b errno [] = pending b errno
read_fd b errno (o ∷ os) =
    let t = read_from_sock errno o in
    let rest = read_fd (append b (some t.array) t.result).0 t.errno os in
    let stop = returned b (read_result b t.errno) t.errno in
    elim t.result [ pos n ↦ rest | negsuc n ↦ stop ]

-- write(2): the number of bytes taken, or -1 with this errno
pub data WriteOutcome : Type 0 where
  wrote : ℕ → WriteOutcome
  refused : ℕ → WriteOutcome

-- `beside`: the next write would start before the vector.
pub data Write : Type 0 where
  pending : Bytes → Write
  returned : ℤ → Bytes → Write
  beside : Bytes → Write
  unset : Write

-- The loop of `write_to_sock` over the vector `v`: `p` is the offset of the pointer, `total` the
-- bytes that it takes to be left, `sent` what the kernel has taken. `tmp` is unsigned, so that
-- `tmp < 0` fails: after -1, which is `tmp == 2 ^ 64 - 1`, `total` grows and `p` falls by one.
unfoldable pub write_loop : Bytes → ℕ → ℕ → Bytes → List WriteOutcome → Write
write_loop v p total sent [] = pending sent
write_loop v p total sent (wrote n ∷ os) =
    let rest = write_loop v (p + n) (total - n) (sent ++ take n (drop p v)) os in
    if n == total then returned (to_int n) (sent ++ take n (drop p v)) else rest
write_loop v p total sent (refused e ∷ os) =
    let rest = write_loop v (p - 1) (total + 1) sent os in if p == 0 then beside sent else rest

-- `write_to_sock`: without bytes to write it returns a variable that was never set.
unfoldable pub write_to_sock : Bytes → List WriteOutcome → Write
unfolding write_loop
write_to_sock [] os = unset
write_to_sock (x ∷ xs) os = write_loop (x ∷ xs) 0 (length (x ∷ xs)) [] os
