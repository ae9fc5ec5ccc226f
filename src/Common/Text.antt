-- ===== src/Common/Text.antt =====
-- Text as bytes: literals, equality, and the searches of <algorithm> as offsets.
use Prim.Native.Char.{code}
use Prim.Native.Nat.{ℕ, zero, suc, ◌+◌, ◌<◌, ◌≤◌}
use Prim.Native.String.{String}
use mathlib.Core.Bool.{Bool, true, false, ◌&&◌}
use mathlib.Core.List.{List, [], ◌∷◌, ◌++◌}
use mathlib.Core.Logic.{◌≢◌, ◌↔◌, inl, inr}
use mathlib.Core.Path.{◌≡◌, refl, ap}
use native.Mathlib.Omega.{arith}
use c_s_online_library.Common.Tests.{◌==◌, if◌then◌else◌, Bool-cases}
use c_s_online_library.Common.Lists.{All, length, take, drop, take-append_length, drop-append_suc}

abbrev pub Bytes : Type 0
Bytes = List ℕ

-- The code points of a literal: its bytes, since every literal of the program is ASCII.
abbrev pub codes : String → Bytes
codes String.[] = []
codes (String.◌∷◌ c s) = code c ∷ codes s

-- "\r\n"
abbrev pub crlf : Bytes
crlf = 13 ∷ 10 ∷ []

unfoldable pub bytes_eq : Bytes → Bytes → Bool
bytes_eq [] [] = true
bytes_eq (x ∷ xs) (y ∷ ys) = x == y && bytes_eq xs ys
bytes_eq _ _ = false

pub bytes_eq_iff : (xs ys : Bytes) → (bytes_eq xs ys ≡ true) ↔ (xs ≡ ys)
unfolding bytes_eq
bytes_eq_iff (x ∷ xs) (y ∷ ys) = ground (arith, bytes_eq_iff xs ys)
bytes_eq_iff _ _ = ground arith

abbrev pub starts_with : Bytes → Bytes → Bool
starts_with [] xs = true
starts_with (p ∷ ps) [] = false
starts_with (p ∷ ps) (x ∷ xs) = p == x && starts_with ps xs

-- std::find: the offset of the first `c`, or the length.
unfoldable pub find : ℕ → Bytes → ℕ
find c [] = 0
find c (x ∷ xs) = if x == c then 0 else suc (find c xs)

-- std::search: the offset of the first occurrence of `pat`, or the length.
unfoldable pub search_for : Bytes → Bytes → ℕ
search_for pat [] = 0
search_for pat (x ∷ xs) = if starts_with pat (x ∷ xs) then 0 else suc (search_for pat xs)

-- No byte of `xs` is `c`.
abbrev pub Lacks : ℕ → Bytes → Type 0
Lacks c = All (λ x. x ≢ c)

pub find-le : (c : ℕ) (xs : Bytes) → find c xs ≤ length xs
unfolding find
find-le c [] = omega arith
find-le c (x ∷ xs) = ground (arith, find-le c xs)

pub find-append : (c : ℕ) (xs ys : Bytes) → Lacks c xs → find c (xs ++ c ∷ ys) ≡ length xs
unfolding find
find-append c [] ys h = ground arith
find-append c (x ∷ xs) ys h = ground (arith, find-append c xs ys h.1)

pub find-Lacks : (c : ℕ) (xs : Bytes) → Lacks c xs → find c xs ≡ length xs
unfolding find
find-Lacks c [] h = refl
find-Lacks c (x ∷ xs) h = ground (arith, find-Lacks c xs h.1)

pub search-le : (pat xs : Bytes) → search_for pat xs ≤ length xs
unfolding search_for
search-le pat [] = omega arith
search-le pat (x ∷ xs) = ground (arith, search-le pat xs)

-- The first line break behind text with no '\r'.
pub search-append : (xs ys : Bytes) → Lacks 13 xs → search_for crlf (xs ++ (crlf ++ ys)) ≡ length xs
unfolding search_for
search-append [] ys h = refl
search-append (x ∷ xs) ys h = ground (arith, search-append xs ys h.1)

module _ (pat : Bytes) where
  pub search_found :
      (xs : Bytes)
      → search_for pat xs < length xs
      → starts_with pat (drop (search_for pat xs) xs) ≡ true
  unfolding search_for
  search_found [] h = elim h [ ]
  search_found (x ∷ xs) h = elim (Bool-cases (starts_with pat (x ∷ xs))) [
    | inl hit ↦ rw hit hit
    | inr miss ↦ rw miss (search_found xs (ground arith))
  ]

  pub search_first :
      (xs : Bytes) (m : ℕ) → m < search_for pat xs → starts_with pat (drop m xs) ≡ false
  unfolding search_for
  search_first [] m h = elim h [ ]
  search_first (x ∷ xs) zero h = elim (Bool-cases (starts_with pat (x ∷ xs))) [
    | inl hit ↦ absurd (ground arith)
    | inr miss ↦ miss
  ]
  search_first (x ∷ xs) (suc m) h = elim (Bool-cases (starts_with pat (x ∷ xs))) [
    | inl hit ↦ absurd (ground arith)
    | inr miss ↦ search_first xs m (ground arith)
  ]

pub search_none :
    (pat xs : Bytes)
    → ((m : ℕ) → starts_with pat (drop m xs) ≡ false)
    → search_for pat xs ≡ length xs
unfolding search_for
search_none pat [] none_at = refl
search_none pat (x ∷ xs) none_at =
    rw (none_at 0) (ap suc (search_none pat xs (λ m. none_at (suc m))))

pub find-lt : (c : ℕ) (xs ys : Bytes) → find c (xs ++ c ∷ ys) < length (xs ++ c ∷ ys)
unfolding find
find-lt c [] ys = ground arith
find-lt c (x ∷ xs) ys = ground (arith, find-lt c xs ys)

-- A break that is found has both its bytes in the text.
pub search-crlf_room :
    (xs : Bytes) → search_for crlf xs < length xs → search_for crlf xs + 2 ≤ length xs
unfolding search_for
search-crlf_room [] h = elim h [ ]
search-crlf_room (x ∷ []) h = ground arith
search-crlf_room (x ∷ y ∷ xs) h = ground (arith, search-crlf_room (y ∷ xs))

-- Text before and behind its first `c`.
pub record Splits (c : ℕ) (whole before after : Bytes) : Type 0 where
  pub inside : (find c whole == length whole) ≡ false
  pub taken : take (find c whole) whole ≡ before
  pub dropped : drop (suc (find c whole)) whole ≡ after

pub find-Splits : (c : ℕ) (xs ys : Bytes) → Lacks c xs → Splits c (xs ++ c ∷ ys) xs ys
find-Splits c xs ys h = record {
  inside = ground (arith, find-lt c xs ys);
  taken = rw (find-append c xs ys h) (take-append_length xs (c ∷ ys));
  dropped = rw (find-append c xs ys h) (drop-append_suc xs c ys);
}
