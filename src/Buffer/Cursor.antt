-- ===== src/Buffer/Cursor.antt =====
-- The cursor of a DataBuffer: its invariant, and what findCRLF returns.
use c_s_online_library.Common.{
  ℕ, suc, zero, ◌+◌, ◌-◌, ◌≤◌, ◌<◌, ◌≡◌, refl, Bool, true, false, Option, none, some, [], Bytes,
  crlf, length, take, drop, search_for, search-le, length-append, length-drop, ltb, ℤ, pos, negsuc,
  arith, starts_with, search_found, search_first, drop-drop,
}
use c_s_online_library.Buffer.Defs.{DataBuffer, set_cur, set_cur_ptr, append, find_crlf}

-- The cursor lies in the vector, and only a vector without bytes is without storage.
record IsValid (b : DataBuffer) : Type 0 where
  in_range : b.cur ≤ length b.char_vec
  stored : b.allocated ≡ false → b.char_vec ≡ []

set_cur-IsValid : (b : DataBuffer) (index : ℕ) → IsValid b → IsValid (set_cur b index).0
unfolding set_cur
set_cur-IsValid b index v = ground arith

-- `SetCur` of a pointer, null, in range or not, keeps the buffer well formed.
set_cur_ptr-IsValid : (b : DataBuffer) (p : Option ℕ) → IsValid b → IsValid (set_cur_ptr b p).0
unfolding set_cur_ptr
set_cur_ptr-IsValid b none v = v
set_cur_ptr-IsValid b (some p) v = set_cur-IsValid b p v

take-nil_of_zero : (n : ℕ) (p : Bytes) → ltb 0 n ≡ false → take n p ≡ []
take-nil_of_zero zero p h = refl
take-nil_of_zero (suc n) p h = absurd (ground arith)

-- `Append` of a pointer, null or not, and a size of any sign keeps the buffer well formed.
append-IsValid :
    (b : DataBuffer) (p : Option Bytes) (size : ℤ) → IsValid b → IsValid (append b p size).0
unfolding append
append-IsValid b none size v = v
append-IsValid b (some p) (negsuc n) v = v
append-IsValid b (some p) (pos n) v = record {
  in_range = omega (arith, v.in_range, length-append b.char_vec (take n p));
  stored = λ e. ground (arith, v.stored, take-nil_of_zero n p);
}

-- A line break starts at offset `p`.
abbrev break_at : DataBuffer → ℕ → Bool
break_at b p = starts_with crlf (drop p b.char_vec)

-- What findCRLF promises: with storage it never returns null. The offset lies in the vector; it
-- is a line break unless it is the end of the vector, and no earlier unread offset is one.
find_crlf_first :
    (b : DataBuffer)
    → IsValid b
    → b.allocated ≡ true
    → (p : ℕ) × (find_crlf b ≡ some p)
      × (b.cur ≤ p)
      × (p ≤ length b.char_vec)
      × (p < length b.char_vec → break_at b p ≡ true)
      × ((m : ℕ) → b.cur ≤ m → m < p → break_at b m ≡ false)
unfolding find_crlf
find_crlf_first b v a = (
  b.cur + n,
  rw a,
  omega arith,
  omega (arith, v.in_range, search-le crlf rest, length-drop b.cur b.char_vec),
  (λ h. rw drop-drop at (search_found crlf rest (inside h))),
  (λ m le lt. earlier m le lt),
)
  where
    rest : Bytes
    rest = drop b.cur b.char_vec

    n : ℕ
    n = search_for crlf rest

    inside : b.cur + n < length b.char_vec → n < length rest
    inside h = omega (arith, length-drop b.cur b.char_vec)

    earlier : (m : ℕ) → b.cur ≤ m → m < b.cur + n → break_at b m ≡ false
    earlier m le lt =
        let e : b.cur + (m - b.cur) ≡ m = omega arith in
        rw (drop-drop, e) at (search_first crlf rest (m - b.cur) (omega arith))

-- A refused offset leaves the cursor, yet the pointer overload reports success.
pub set_cur_ptr_past_end :
    (b : DataBuffer) (p : ℕ)
    → length b.char_vec < p
    → (set_cur b p ≡ (b, false)) × (set_cur_ptr b (some p) ≡ (b, true))
unfolding set_cur_ptr
set_cur_ptr_past_end b p h = ground arith
