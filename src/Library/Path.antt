-- ===== src/Library/Path.antt =====
-- src/server.cc: `_hash_`, `_itoa_` and `file_hash`, the path of a book's file; and src/client.cc,
-- `checkinput`, which every id passes before it is sent.
use c_s_online_library.Common.{
  ℕ, zero, suc, ◌+◌, ◌-◌, ◌*◌, ◌/◌, ◌%◌, ◌^◌, ◌<◌, ◌≤◌, ◌≡◌, refl, ◌∙◌, Bool, true, ◌&&◌, Option,
  none, some, [], ◌∷◌, ◌++◌, append-nil, append_assoc, Bytes, codes, All, length, ltb, leb, ◌==◌,
  if◌then◌else◌, Bool-cases, inl, inr, arith, ℤ, pos, negsuc, pos_part, neg_part, sub_ℕ, checked,
  digits_of, to_string, IsDigit,
}

infixl 5 ◌>>=◌
abbrev ◌>>=◌ : {A B : Type 0} → Option A → (A → Option B) → Option B
none >>= f = none
some a >>= f = f a

-- A `char`, which is signed, less the byte it is read from.
abbrev char_wrap : ℕ → ℕ
char_wrap c = if ltb c 128 then 0 else 256

-- `ret * 2 + (*it) - '0'`, from left to right; `none` is an overflow of `int`.
unfoldable pub hash_step : ℤ → ℕ → Option ℤ
hash_step ret c = do
  twice ← checked (sub_ℕ (2 * pos_part ret) (2 * neg_part ret))
  added ← checked (sub_ℕ (pos_part twice + c) (neg_part twice + char_wrap c))
  checked (sub_ℕ (pos_part added) (neg_part added + 48))

unfoldable pub hash_loop : ℤ → Bytes → Option ℤ
hash_loop ret [] = some ret
hash_loop ret (c ∷ cs) = do ret' ← hash_step ret c; hash_loop ret' cs

-- `ret % HASHSIZE`, with the sign of `ret`.
abbrev rem_int : ℤ → ℕ → ℤ
rem_int (pos n) h = pos (n % h)
rem_int (negsuc n) h = sub_ℕ 0 (suc n % h)

-- `_hash_`; `none` is an overflow, or a HASHSIZE of 0.
unfoldable pub hash : ℕ → Bytes → Option ℤ
hash size name =
    hash_loop (pos 0) name >>= λ ret. if size == 0 then none else some (rem_int ret size)

-- The loop of `_itoa_`: digits are put in front. A negative number gives bytes below '0'.
unfoldable pub itoa_loop : ℕ → (ℕ → ℕ) → ℕ → Bytes → Bytes
itoa_loop zero digit n ret = ret
itoa_loop (suc fuel) digit n ret =
    let more = itoa_loop fuel digit (n / 10) (digit (n % 10) ∷ ret) in if n == 0 then ret else more

-- `_itoa_`; a number has fewer digits than `fuel`.
unfoldable pub itoa : ℤ → Bytes
itoa (pos n) = if n == 0 then codes "0" else itoa_loop (suc n) (λ d. 48 + d) n []
itoa (negsuc n) = itoa_loop (suc (suc n)) (λ d. 48 - d) (suc n) []

-- `file_hash`
unfoldable pub file_hash : ℕ → Bytes → Option Bytes
file_hash size [] = none
file_hash size (c ∷ cs) = hash size (c ∷ cs) >>= λ dir.
    some (codes "./books/dir" ++ (itoa dir ++ (codes "/" ++ (c ∷ cs))))

-- `INPUTTYPE`
pub data InputType : Type 0 where
  ok toolong notnum empty : InputType

unfoldable pub all_digits : Bytes → Bool
all_digits [] = true
all_digits (c ∷ cs) = (leb c b'9' && leb b'0' c) && all_digits cs

-- `checkinput`
unfoldable pub checkinput : Bytes → InputType
checkinput [] = empty
checkinput (c ∷ cs) =
    if ltb 20 (length (c ∷ cs)) then toolong else if all_digits (c ∷ cs) then ok else notnum

-- A step on a digit, from a value that leaves room.
pub hash_step-digit :
    (n c : ℕ) → n < 2 ^ 29 → IsDigit c → hash_step (pos n) c ≡ some (pos (2 * n + (c - 48)))
unfolding hash_step checked
hash_step-digit n c h d = ground arith

-- `b`, doubled `k` times.
unfoldable pub doubled : ℕ → ℕ → ℕ
doubled b zero = b
doubled b (suc k) = doubled (2 * b) k

pub doubled-le : (b k : ℕ) → b ≤ doubled b k
unfolding doubled
doubled-le b zero = omega arith
doubled-le b (suc k) = omega (arith, doubled-le (2 * b) k)

doubled_mono : (b k m : ℕ) → k ≤ m → doubled b k ≤ doubled b m
unfolding doubled
doubled_mono b zero m h = doubled-le b m
doubled_mono b (suc k) zero h = absurd (omega arith)
doubled_mono b (suc k) (suc m) h = doubled_mono (2 * b) k m (omega arith)

-- A digit doubles the bound on the value.
pub hash_loop-digits :
    (cs : Bytes) (n bound : ℕ)
    → All IsDigit cs
    → n + 9 ≤ bound
    → doubled bound (length cs) < 2 ^ 29
    → (m : ℕ) × (hash_loop (pos n) cs ≡ some (pos m)) × (m ≤ doubled bound (length cs))
unfolding hash_loop doubled
hash_loop-digits [] n bound d h k = (n, refl, omega arith)
hash_loop-digits (c ∷ cs) n bound d h k =
    let n' = 2 * n + (c - 48) in
    let (m, run, le) = hash_loop-digits cs n' (2 * bound) d.1 (omega (arith, d.0)) k in
    (m, rw (hash_step-digit n c small d.0) run, le)
  where
    small : n < 2 ^ 29
    small = omega (arith, doubled-le (2 * bound) (length cs))

pub all_digits-IsDigit : (cs : Bytes) → all_digits cs ≡ true → All IsDigit cs
unfolding all_digits
all_digits-IsDigit [] h = tt
all_digits-IsDigit (c ∷ cs) h = (ground arith, all_digits-IsDigit cs (ground arith))

itoa_loop-zero : (fuel : ℕ) (digit : ℕ → ℕ) (ret : Bytes) → itoa_loop fuel digit 0 ret ≡ ret
unfolding itoa_loop
itoa_loop-zero zero digit ret = refl
itoa_loop-zero (suc fuel) digit ret = refl

-- The loop of `_itoa_` puts the decimal digits in front.
itoa_loop-digits_of :
    (f g n : ℕ) (ret : Bytes)
    → 0 < n
    → n < f
    → n < g
    → itoa_loop f (λ d. 48 + d) n ret ≡ digits_of g n ++ ret
unfolding itoa_loop digits_of
itoa_loop-digits_of zero g n ret p h k = absurd (omega arith)
itoa_loop-digits_of (suc f) zero n ret p h k = absurd (omega arith)
itoa_loop-digits_of (suc f) (suc g) n ret p h k = elim (Bool-cases (ltb n 10)) [
  | inl small ↦
      let done : n / 10 ≡ 0 = ground arith in
      let digit : n % 10 ≡ n = ground arith in
      let last = itoa_loop-zero f (λ d. 48 + d) ((48 + n) ∷ ret) in
      rw small (ground (arith, done, digit, last))
  | inr large ↦
      let rest =
        itoa_loop-digits_of f g (n / 10) ((48 + n % 10) ∷ ret) (ground arith) (omega arith)
          (omega arith) in
      let cut = append_assoc (digits_of g (n / 10)) ((48 + n % 10) ∷ []) ret in
      rw large (ground (arith, rest, cut))
]

itoa-to_string : (n : ℕ) → itoa (pos n) ≡ to_string n
unfolding itoa to_string
itoa-to_string zero = unfold digits_of in refl
itoa-to_string (suc n) =
    let e =
      itoa_loop-digits_of (suc (suc n)) (suc (suc n)) (suc n) [] (omega arith) (omega arith)
        (omega arith)
      ∙ append-nil (digits_of (suc (suc n)) (suc n)) in
    ground (arith, e)

pub room_for_id : (k : ℕ) → k ≤ 20 → doubled 9 k < 2 ^ 29
room_for_id k h = omega (arith, doubled_mono 9 k 20 h, top)
  where
    top : doubled 9 20 ≡ 9437184
    top = unfold doubled in refl

pub checkinput-ok :
    (c : ℕ) (cs : Bytes)
    → checkinput (c ∷ cs) ≡ ok
    → (length (c ∷ cs) ≤ 20) × (all_digits (c ∷ cs) ≡ true)
unfolding checkinput
checkinput-ok c cs h = elim (Bool-cases (all_digits (c ∷ cs))) [
  | inl e ↦ (ground arith, e)
  | inr e ↦ absurd (ground arith)
]

pub hash-pos :
    (size m : ℕ) (name : Bytes)
    → 0 < size
    → hash_loop (pos 0) name ≡ some (pos m)
    → hash size name ≡ some (pos (m % size))
unfolding hash
hash-pos size m name h run = rw (run, hash) (ground arith)

-- Every id that the client lets through has a path: the hash of up to 20 digits does not overflow
-- an `int`, it is not negative, and the directory's number is below HASHSIZE.
pub checkinput-file_hash :
    (size : ℕ) (id : Bytes)
    → 0 < size
    → checkinput id ≡ ok
    → (dir : ℕ) × (dir < size)
      × (file_hash size id ≡ some (codes "./books/dir" ++ (to_string dir ++ (codes "/" ++ id))))
unfolding file_hash
checkinput-file_hash size [] h e = let bad : InputType.empty ≡ ok = unfold checkinput in e in cc
checkinput-file_hash size (c ∷ cs) h e =
    let (short, digits) = checkinput-ok c cs e in
    let (m, run, le) =
      hash_loop-digits (c ∷ cs) 0 9 (all_digits-IsDigit (c ∷ cs) digits) (omega arith)
        (room_for_id (length (c ∷ cs)) short) in
    (
      m % size,
      grind arith,
      rw (hash-pos size m (c ∷ cs) h run, file_hash) (rw (itoa-to_string (m % size)) refl),
    )
