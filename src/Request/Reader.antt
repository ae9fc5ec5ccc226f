-- ===== src/Request/Reader.antt =====
-- The unread bytes of a buffer, and what the parser's pointer moves do to them.
use c_s_online_library.Buffer.Defs.{DataBuffer, find_crlf, set_cur_ptr}
use c_s_online_library.Common.{
  ℕ, ◌+◌, ◌-◌, ◌≤◌, ◌<◌, ◌≡◌, sym, ap, subst, ◌++◌, length-append, drop-append_add, ◌∙◌, true, some,
  Bytes, crlf, search_for, find, suc, length, take, drop, drop-drop, length-drop, arith,
  if◌then◌else◌,
}
use c_s_online_library.Request.Defs.{NetHttpRequest, expect_headers, expect_body, got_all, is_post}
use c_s_online_library.Request.Parse.{
  again, finish, unread_to, seek, add_header, headers_turn, turn_in, parse_turn,
}
use native.Mathlib.Nat.{add_assoc}

-- The buffer has storage, its cursor is in range, and `u` is what it has not read.
pub record At (b : DataBuffer) (u : Bytes) : Type 0 where
  pub allocated : b.allocated ≡ true
  pub in_range : b.cur ≤ length b.char_vec
  pub unread : drop b.cur b.char_vec ≡ u

module _ {b : DataBuffer} {u : Bytes} (at : At b u) where
  pub At-length : length u ≡ length b.char_vec - b.cur
  At-length = omega (arith, ap length at.unread, length-drop b.cur b.char_vec)

  pub find_crlf-At : find_crlf b ≡ some (b.cur + search_for crlf u)
  unfolding find_crlf
  find_crlf-At = rw (at.allocated, at.unread)

  pub unread_to-At : (n : ℕ) → unread_to b (b.cur + n) ≡ take n u
  unread_to-At n = let e : b.cur + n - b.cur ≡ n = omega arith in rw (at.unread, e)

  moved :
      (n : ℕ) → n ≤ length u → (set_cur_ptr b (some (b.cur + n))).0 ≡ record b { cur = b.cur + n }
  unfolding set_cur_ptr
  moved n h = ground (arith, At-length)

  pub set_cur_ptr-At : (n : ℕ) → n ≤ length u → At (set_cur_ptr b (some (b.cur + n))).0 (drop n u)
  set_cur_ptr-At n h = rw (moved n h) (record {
    allocated = at.allocated;
    in_range = omega (arith, At-length, at.in_range);
    unread = sym (drop-drop b.cur n b.char_vec) ∙ ap (drop n) at.unread;
  })

  pub set_cur_ptr_past : (n : ℕ) → length u < n → (set_cur_ptr b (some (b.cur + n))).0 ≡ b
  unfolding set_cur_ptr
  set_cur_ptr_past n h = ground (arith, At-length)

-- A round in `ExpectHeaders`, on the unread bytes.
pub parse_turn-headers :
    (r : NetHttpRequest) {u : Bytes}
    → At r.in_buff u
    → r.state ≡ expect_headers
    → parse_turn r ≡ headers_turn r (some (r.in_buff.cur + search_for crlf u))
unfolding parse_turn
parse_turn-headers r at e = ap (λ s. turn_in s r) e ∙ (ap (headers_turn r) (find_crlf-At at))

module _ (r : NetHttpRequest) {u : Bytes} (n : ℕ) (line : Bytes) (at : At r.in_buff u) where
  -- A line with a colon is added, and the loop goes on behind the line.
  pub headers_turn-line :
      take n u ≡ line
      → find b':' line < length line
      → headers_turn r (some (r.in_buff.cur + n))
        ≡ again (
            seek
              (add_header r (take (find b':' line) line) (drop (suc (find b':' line)) line))
              (r.in_buff.cur + n + 2))
  unfolding headers_turn
  headers_turn-line e h = rw (unread_to-At at n, e, headers_turn) (ground arith)

  -- A line without one ends the head.
  pub headers_turn-end :
      take n u ≡ line
      → find b':' line ≡ length line
      → headers_turn r (some (r.in_buff.cur + n)) ≡ (
          if is_post r.method
          then again (seek (record r { state = expect_body; cgi = true }) (r.in_buff.cur + n + 2))
          else finish true (seek (record r { state = got_all }) (r.in_buff.cur + n + 2)))
  unfolding headers_turn
  headers_turn-end e h = rw (unread_to-At at n, e, headers_turn) (ground arith)

-- The pointer move behind a line.
pub set_cur_ptr-line :
    (b : DataBuffer) (l u : Bytes)
    → At b (l ++ (crlf ++ u))
    → At (set_cur_ptr b (some (b.cur + length l + 2))).0 u
set_cur_ptr-line b l u at =
    subst (λ n. At (set_cur_ptr b (some n)).0 u) (sym (add_assoc b.cur (length l) 2))
      (rw (drop-append_add l (crlf ++ u) 2) at (set_cur_ptr-At at (length l + 2) room))
  where
    room : length l + 2 ≤ length (l ++ (crlf ++ u))
    room = omega (arith, length-append l (crlf ++ u))
