-- ===== src/Echo/Work.antt =====
-- src/include/socktool/sock_ser.hpp, `ServerConnetSockTool`, and src/Server.cc, `recv_and_work` and the
-- event loop of `all_works`.
use c_s_online_library.Buffer.Socket.{
  ReadOutcome, chunk, eof, failed, eagain, WriteOutcome, wrote, refused, Write, write_loop,
  write_to_sock,
}
use c_s_online_library.Common.{
  ℕ, ◌+◌, ◌-◌, ◌<◌, ◌≤◌, ◌≡◌, refl, ap, sym, ◌∙◌, Bool, Option, none, some, List, [], ◌∷◌, ◌++◌,
  append_assoc, Bytes, codes, Lacks, All-append, length, take, drop, ltb, ◌==◌, if◌then◌else◌,
  Bool-cases, inl, inr, arith, ℤ, pos, negsuc, to_int,
}
use c_s_online_library.Dispatch.Reading.{c_string, c_string-append}

-- The loop of `write_to_sock`, from offset `p` of `v` with `total` bytes left. `tmp` is unsigned, so
-- that no branch for an error is ever taken: after -1, `total` grows and `p` falls by one.
unfoldable pub sock_write_loop : Bytes → ℕ → ℕ → Bytes → List WriteOutcome → Write
sock_write_loop v p total sent [] = Write.pending sent
sock_write_loop v p total sent (wrote n ∷ os) =
    let rest = sock_write_loop v (p + n) (total - n) (sent ++ take n (drop p v)) os in
    if n == total then Write.returned (to_int (length v)) (sent ++ take n (drop p v)) else rest
sock_write_loop v p total sent (refused e ∷ os) =
    let rest = sock_write_loop v (p - 1) (total + 1) sent os in
    if p == 0 then Write.beside sent else rest

-- `write_to_sock`
unfoldable pub sock_write : Bytes → List WriteOutcome → Write
unfolding sock_write_loop
sock_write [] os = Write.unset
sock_write (x ∷ xs) os = sock_write_loop (x ∷ xs) 0 (length (x ∷ xs)) [] os

-- The same end, with the size of the whole for a result
abbrev pub with_size : ℕ → Write → Write
with_size n (Write.pending sent) = Write.pending sent
with_size n (Write.returned r sent) = Write.returned (to_int n) sent
with_size n (Write.beside sent) = Write.beside sent
with_size n Write.unset = Write.unset

sock_write_loop-write_loop :
    (v : Bytes) (p total : ℕ) (sent : Bytes) (os : List WriteOutcome)
    → sock_write_loop v p total sent os ≡ with_size (length v) (write_loop v p total sent os)
unfolding sock_write_loop write_loop
sock_write_loop-write_loop v p total sent [] = refl
sock_write_loop-write_loop v p total sent (wrote n ∷ os) = elim (Bool-cases (n == total)) [
  | inl e ↦ rw e refl
  | inr e ↦ rw e (sock_write_loop-write_loop v (p + n) (total - n) (sent ++ take n (drop p v)) os)
]
sock_write_loop-write_loop v p total sent (refused x ∷ os) = elim (Bool-cases (p == 0)) [
  | inl e ↦ rw e refl
  | inr e ↦ rw e (sock_write_loop-write_loop v (p - 1) (total + 1) sent os)
]

-- The two servers' `write_to_sock` are one routine, its faults included: on any answers of the socket
-- they send the same bytes and end in the same way. Only their results differ, which is the size of
-- the last write in the one and that of the whole in the other.
pub sock_write-write_to_sock :
    (v : Bytes) (os : List WriteOutcome)
    → sock_write v os ≡ with_size (length v) (write_to_sock v os)
unfolding sock_write write_to_sock
sock_write-write_to_sock [] os = refl
sock_write-write_to_sock (x ∷ xs) os = sock_write_loop-write_loop (x ∷ xs) 0 (length (x ∷ xs)) [] os

-- `read_from_sock`, which makes one call whatever the answer: its result and what is in the buffer
unfoldable pub sock_read : ReadOutcome → ℤ × Bytes
sock_read (chunk x xs) = (pos (length (x ∷ xs)), x ∷ xs)
sock_read eof = (negsuc 1, [])
sock_read (failed e) = if e == eagain then (negsuc 0, []) else (negsuc 1, [])

-- "I am server.I get :"
abbrev pub greeting : Bytes
greeting = codes "I am server.I get :"

-- `sprintf` past the buffer of 1024 bytes, or a text with no end; or how `write_to_sock` ends
pub data Echo : Type 0 where
  fault : Echo
  replies : Write → Echo

abbrev echo_text : Option Bytes → List WriteOutcome → Echo
echo_text none os = fault
echo_text (some t) os =
    if ltb (length (greeting ++ t)) 1024 then replies (sock_write (greeting ++ t) os) else fault

-- `recv_and_work`: the result of the read is not looked at. `junk` is what the fresh buffer holds.
unfoldable pub recv_and_work : Bytes → ReadOutcome → List WriteOutcome → Echo
recv_and_work junk o os =
    let got = (sock_read o).1 in echo_text (c_string (got ++ drop (length got) junk)) os

-- What the second server gives to `write_to_sock` for a client, whatever the read was and however the
-- socket takes it: the greeting, the bytes that were read, which hold no NUL, and what the fresh buffer
-- holds behind them up to a NUL, also when nothing was read because the client has closed. If that is
-- 1024 bytes or more, it is written past the buffer.
pub recv_and_work_lem :
    (o : ReadOutcome) (os : List WriteOutcome) (junk behind rest : Bytes)
    → Lacks 0 (sock_read o).1
    → Lacks 0 behind
    → drop (length (sock_read o).1) junk ≡ behind ++ (0 ∷ rest)
    → let reply = greeting ++ ((sock_read o).1 ++ behind) in
      (length reply < 1024 → recv_and_work junk o os ≡ replies (sock_write reply os))
      × (1024 ≤ length reply → recv_and_work junk o os ≡ fault)
unfolding recv_and_work
recv_and_work_lem o os junk behind rest g b tail =
    let got = (sock_read o).1 in
    let string : c_string (got ++ drop (length got) junk) ≡ some (got ++ behind) =
      ap (λ m. c_string (got ++ m)) tail
      ∙ ap c_string (sym (append_assoc got behind (0 ∷ rest)))
      ∙ c_string-append (got ++ behind) rest (All-append _ got behind g b) in
    (
      (λ short. ap (λ t. echo_text t os) string ∙ ground arith),
      (λ long. ap (λ t. echo_text t os) string ∙ ground arith),
    )

-- An event: its descriptor, EPOLLIN, and what accept returns for it
pub record Event : Type 0 where
  pub fd : ℕ
  pub readable : Bool
  pub accepted : Option ℕ

-- The loop over the events of one epoll_wait: the clients in epoll and the tasks given to the pool,
-- or `none` where the server exits: after a failed accept, `set_nonblock(-1)` fails an assertion.
unfoldable pub all_works_events : ℕ → List Event → List ℕ × List ℕ → Option (List ℕ × List ℕ)
all_works_events listen_sock [] s = some s
all_works_events listen_sock (e ∷ es) (clients, tasks) =
    let accepts : Option (List ℕ × List ℕ) = elim e.accepted [
      | none ↦ none
      | some fd ↦ all_works_events listen_sock es (fd ∷ clients, tasks)
    ] in
    let works = all_works_events listen_sock es (clients, tasks ++ (e.fd ∷ [])) in
    let skips = all_works_events listen_sock es (clients, tasks) in
    if e.fd == listen_sock then accepts else if e.readable then works else skips
