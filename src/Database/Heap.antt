-- ===== src/Database/Heap.antt =====
-- src/include/database: the objects that the client libraries have made and not freed, and the
-- descriptors that are open, by their names,
-- and the answers that a tool finds in its file of settings.
use c_s_online_library.Common.{
  ℕ, suc, ◌≡◌, refl, Option, none, some, List, [], ◌∷◌, ◌==◌, ◌<◌, All, if◌then◌else◌, Bytes, arith,
}

pub record Heap : Type 0 where
  pub live : List ℕ
  pub next : ℕ

abbrev pub no_objects : Heap
no_objects = record { live = []; next = 0 }

abbrev pub allocate : Heap → Heap
allocate m = record { live = m.next ∷ m.live; next = suc m.next }

unfoldable pub remove : ℕ → List ℕ → Option (List ℕ)
remove p [] = none
remove p (x ∷ xs) =
    if x == p then some xs else elim (remove p xs) [ none ↦ none | some ys ↦ some (x ∷ ys) ]

-- `none`: what is freed does not exist, or no more.
unfoldable pub free_object : ℕ → Heap → Option Heap
free_object p m = elim (remove p m.live) [ none ↦ none | some l ↦ some (record m { live = l }) ]

-- `if (p != NULL) free(p)`
unfoldable pub free_if : Option ℕ → Heap → Option Heap
free_if none m = some m
free_if (some p) m = free_object p m

abbrev pub or_empty : Option Bytes → Bytes
or_empty none = []
or_empty (some s) = s

pub free_object-top :
    (p next : ℕ) (l : List ℕ)
    → free_object p (record { live = p ∷ l; next = next }) ≡ some (record { live = l; next = next })
unfolding free_object remove
free_object-top p next l = ground arith

remove-absent : (p : ℕ) (l : List ℕ) → All (λ x. x < p) l → remove p l ≡ none
unfolding remove
remove-absent p [] h = refl
remove-absent p (x ∷ xs) h = ground (arith, h.0, remove-absent p xs h.1)

-- What was freed is not there.
pub free_object-gone :
    (p next : ℕ) (l : List ℕ)
    → All (λ x. x < p) l
    → free_object p (record { live = l; next = next }) ≡ none
unfolding free_object
free_object-gone p next l h = rw (remove-absent p l h, free_object) refl
