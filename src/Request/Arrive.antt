-- ===== src/Request/Arrive.antt =====
-- libnet/net_httprequest.h and libnet/data_buffer.h: a text that arrives at a request's buffer.
use c_s_online_library.Buffer.Defs.{DataBuffer}
use c_s_online_library.Buffer.Receive.{IsChunk, arrived, read_fd-until_eagain}
use c_s_online_library.Buffer.Socket.{ReadOutcome, read_fd, failed, eagain, Read}
use c_s_online_library.Common.{
  ℕ, ◌+◌, ◌<◌, ◌^◌, ◌≡◌, ap, ◌∙◌, ◌||◌, List, ◌∷◌, ◌++◌, Bytes, All, length, drop, length-append,
  drop-append_length, ltb, arith, pos, to_int, to_int_small,
}
use c_s_online_library.Request.Reader.{At}

-- Bytes that arrive at a buffer that is read to its end are unread.
pub read-At :
    (b : DataBuffer) (errno : ℕ) (os more : List ReadOutcome) (u : Bytes)
    → b.cur ≡ length b.char_vec
    → All IsChunk os
    → arrived os ≡ u
    → 0 < length u
    → length b.char_vec + length u < 2 ^ 31
    → (b' : DataBuffer) × (read_fd b errno (os ++ failed eagain ∷ more)
        ≡ Read.returned b' (pos (length b.char_vec + length u)) eagain)
      × At b' u
read-At b errno os more u at_end chunks got positive small =
    let s = read_fd-until_eagain b errno os more chunks in
    let received : s.after.char_vec ≡ b.char_vec ++ u =
      s.received ∙ ap (λ w. b.char_vec ++ w) got in
    let size : length s.after.char_vec ≡ length b.char_vec + length u =
      ap length received ∙ length-append b.char_vec u in
    (
      s.after,
      s.stopped ∙ ap (λ i. Read.returned s.after i eagain) (ap to_int size ∙ to_int_small _ small),
      record {
        allocated =
            s.has_storage
            ∙ ap (λ w. b.allocated || ltb 0 (length w)) got
            ∙ ground (arith, positive);
        in_range = omega (arith, s.same_cur, at_end, size);
        unread =
            ap (λ c. drop c s.after.char_vec) (s.same_cur ∙ at_end)
            ∙ ap (drop (length b.char_vec)) received
            ∙ drop-append_length b.char_vec u;
      },
    )
