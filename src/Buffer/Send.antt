-- ===== src/Buffer/Send.antt =====
-- What `write_to_sock` sends, data_buffer.h.
use c_s_online_library.Common.{
  ℕ, ◌+◌, ◌-◌, ◌<◌, ◌≡◌, refl, List, [], ◌∷◌, ◌++◌, Bytes, append_assoc, length, take, drop,
  length-drop, drop-drop, take-append-drop, take_all, to_int, arith,
}
use c_s_online_library.Buffer.Socket.{
  WriteOutcome, wrote, refused, Write, write_loop, write_to_sock,
}

abbrev pub total_of : List ℕ → ℕ
total_of [] = 0
total_of (n ∷ ns) = n + total_of ns

abbrev pub answers : List ℕ → List WriteOutcome
answers [] = []
answers (n ∷ ns) = wrote n ∷ answers ns

-- Partial writes add up: from any place the rest of the vector is sent, once and in order.
write_loop_sends :
    (v sent : Bytes) (p total last : ℕ) (ns : List ℕ) (more : List WriteOutcome)
    → p + total ≡ length v
    → total_of ns + last ≡ total
    → 0 < last
    → write_loop v p total sent (answers ns ++ wrote last ∷ more)
      ≡ Write.returned (to_int last) (sent ++ drop p v)
unfolding write_loop
write_loop_sends v sent p total last [] more e t pos_last =
    ground (arith, take_all last (drop p v), length-drop p v)
write_loop_sends v sent p total last (n ∷ ns) more e t pos_last =
    let next =
      write_loop_sends v (sent ++ take n (drop p v)) (p + n) (total - n) last ns more (omega arith)
        (omega arith) pos_last in
    let cut = append_assoc sent (take n (drop p v)) (drop (p + n) v) in
    ground (arith, next, cut, drop-drop p n v, take-append-drop n (drop p v))

-- Partial writes that add up to the buffer send it once and in order. The result is the size of
-- the last of them, which is the buffer's size only if it was the only one.
pub write_to_sock_sends :
    (v : Bytes) (ns : List ℕ) (last : ℕ) (more : List WriteOutcome)
    → total_of ns + last ≡ length v
    → 0 < last
    → write_to_sock v (answers ns ++ wrote last ∷ more) ≡ Write.returned (to_int last) v
unfolding write_to_sock
write_to_sock_sends [] ns last more t pos_last = absurd (omega arith)
write_to_sock_sends (x ∷ xs) ns last more t pos_last =
    write_loop_sends (x ∷ xs) [] 0 (length (x ∷ xs)) last ns more (omega arith) t pos_last

-- The retry after EAGAIN is wrong: behind `k` bytes that were taken, the loop goes on one byte too
-- early, so that byte `k - 1` is sent twice and the peer gets one byte more than the buffer holds.
pub write_to_sock_resends :
    (v : Bytes) (k e last : ℕ) (ns : List ℕ) (more : List WriteOutcome)
    → 0 < k
    → k < length v
    → total_of ns + last ≡ length v - k + 1
    → 0 < last
    → write_to_sock v (wrote k ∷ refused e ∷ answers ns ++ wrote last ∷ more)
      ≡ Write.returned (to_int last) (take k v ++ drop (k - 1) v)
unfolding write_to_sock write_loop
write_to_sock_resends [] k e last ns more pos_k inside t pos_last = absurd (omega arith)
write_to_sock_resends (x ∷ xs) k e last ns more pos_k inside t pos_last =
    let v = x ∷ xs in
    let next =
      write_loop_sends v (take k v) (k - 1) (length v - k + 1) last ns more (omega arith) t
        pos_last in
    let start : 0 + k ≡ k = omega arith in ground (arith, next, start)

-- Refused at the first byte, it goes on before the start of the vector.
pub write_to_sock_beside :
    (x : ℕ) (xs : Bytes) (e : ℕ) (more : List WriteOutcome)
    → write_to_sock (x ∷ xs) (refused e ∷ more) ≡ Write.beside []
unfolding write_to_sock
write_to_sock_beside x xs e more = refl
