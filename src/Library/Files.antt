-- ===== src/Library/Files.antt =====
-- src/server.cc: which file a book has. The hash is the sum of the digits, each doubled once for
-- each digit behind it, and no two ids share a file.
use c_s_online_library.Common.{
  ℕ, zero, suc, ◌+◌, ◌-◌, ◌*◌, ◌%◌, ◌^◌, ◌<◌, ◌≤◌, ◌≡◌, refl, sym, ap, ◌∙◌, some, [], ◌∷◌, ◌++◌,
  Bytes, codes, All, Lacks, length, find, drop, find-Splits, pos, to_string, to_string-IsDigit,
  IsDigit, arith,
}
use c_s_online_library.Library.Path.{
  checkinput, ok, empty, checkinput-ok, all_digits-IsDigit, hash, hash_loop, hash_step-digit,
  hash-pos, doubled, doubled-le, room_for_id, file_hash, checkinput-file_hash,
}

-- The digits' sum, in binary weights
unfoldable pub weight : Bytes → ℕ
unfolding doubled
weight [] = 0
weight (c ∷ cs) = doubled (c - 48) (length cs) + weight cs

doubled-add : (a b k : ℕ) → doubled (a + b) k ≡ doubled a k + doubled b k
unfolding doubled
doubled-add a b zero = refl
doubled-add a b (suc k) =
    let e : 2 * (a + b) ≡ 2 * a + 2 * b = omega arith in
    ap (λ m. doubled m k) e ∙ doubled-add (2 * a) (2 * b) k

doubled-zero : (k : ℕ) → doubled 0 k ≡ 0
unfolding doubled
doubled-zero zero = refl
doubled-zero (suc k) = doubled-zero k

hash_loop-weight :
    (cs : Bytes) (n bound : ℕ)
    → All IsDigit cs
    → n + 9 ≤ bound
    → doubled bound (length cs) < 2 ^ 29
    → hash_loop (pos n) cs ≡ some (pos (doubled n (length cs) + weight cs))
unfolding hash_loop doubled weight
hash_loop-weight [] n bound d h k = ap (λ m. some (pos m)) (omega arith)
hash_loop-weight (c ∷ cs) n bound d h k =
    let n' = 2 * n + (c - 48) in
    let run = hash_loop-weight cs n' (2 * bound) d.1 (omega (arith, d.0)) k in
    let sum : doubled n' (length cs) + weight cs
        ≡ doubled (2 * n) (length cs) + (doubled (c - 48) (length cs) + weight cs) =
      omega (arith, doubled-add (2 * n) (c - 48) (length cs)) in
    rw (hash_step-digit n c (omega (arith, doubled-le (2 * bound) (length cs))) d.0)
      (run ∙ ap (λ m. some (pos m)) sum)

-- `_hash_` of an id that the client lets through is, without overflow, the remainder by HASHSIZE of
-- the sum of its digits, each doubled as often as there are digits behind it.
pub hash-weight :
    (size : ℕ) (id : Bytes)
    → 0 < size
    → checkinput id ≡ ok
    → hash size id ≡ some (pos (weight id % size))
hash-weight size [] h e = let bad : empty ≡ ok = unfold checkinput in e in absurd (cc)
hash-weight size (c ∷ cs) h e =
    let (short, digits) = checkinput-ok c cs e in
    let run =
      hash_loop-weight (c ∷ cs) 0 9 (all_digits-IsDigit (c ∷ cs) digits) (omega arith)
        (room_for_id (length (c ∷ cs)) short) in
    hash-pos size (weight (c ∷ cs)) (c ∷ cs) h
      (run ∙ ap (λ m. some (pos m)) (omega (arith, doubled-zero (length (c ∷ cs)))))

digits-Lacks_slash : (xs : Bytes) → All IsDigit xs → Lacks 47 xs
digits-Lacks_slash [] d = tt
digits-Lacks_slash (x ∷ xs) d = (omega (arith, d.0), digits-Lacks_slash xs d.1)

-- What is behind the slash of "dir<n>/<id>"
abbrev behind_slash : Bytes → Bytes
behind_slash p = drop (suc (find 47 p)) p

behind_slash-dir : (dir : ℕ) (id : Bytes) → behind_slash (to_string dir ++ (codes "/" ++ id)) ≡ id
behind_slash-dir dir id =
    (find-Splits 47 (to_string dir) id (digits-Lacks_slash _ (to_string-IsDigit dir))).dropped

-- Two ids that the client lets through have two files.
pub file_hash_inj :
    (size : ℕ) (id j path : Bytes)
    → 0 < size
    → checkinput id ≡ ok
    → checkinput j ≡ ok
    → file_hash size id ≡ some path
    → file_hash size j ≡ some path
    → id ≡ j
file_hash_inj size id j path pos_size e e' h h' =
    let (dir, lt, p) = checkinput-file_hash size id pos_size e in
    let (dir', lt', p') = checkinput-file_hash size j pos_size e' in
    let same : codes "./books/dir" ++ (to_string dir ++ (codes "/" ++ id))
        ≡ codes "./books/dir" ++ (to_string dir' ++ (codes "/" ++ j)) =
      cc in
    let tails : to_string dir ++ (codes "/" ++ id) ≡ to_string dir' ++ (codes "/" ++ j) =
      ap (drop 11) same in
    sym (behind_slash-dir dir id) ∙ ap behind_slash tails ∙ behind_slash-dir dir' j
