-- ===== src/Tests/Evictions.antt =====
-- src/server.cc, `free_part_of_map` on concrete input: a cache with one book too many.
use c_s_online_library.Common.{
  ℕ, zero, suc, ◌+◌, tally, ltb, ◌≤◌, ◌≡◌, refl, sym, ap, ◌∙◌, true, none, some, List, [], ◌∷◌,
  Bytes, bytes_eq, bytes_eq_iff, length, arith, if◌then◌else◌, Bool-cases, inl, inr,
}
use c_s_online_library.Library.Cache.{Entry, Cache, free_part_of_map}
use c_s_online_library.Library.Erase.{occurs, IsMap, KeptOrGone}
use c_s_online_library.Library.Evict.{HeapLaws, free_part_of_map_lem}
use c_s_online_library.Tests.Service.{heap}

-- A cache with `n` books, each named by one number
unfoldable many : ℕ → Cache
many zero = []
many (suc n) = (n ∷ [], record { size = 0; cont = 1; lasttime = 0; per = 1; data_ = none }) ∷ many n

many-above : (n m : ℕ) (k : Bytes) → n ≤ m → bytes_eq k (m ∷ []) ≡ true → occurs k (many n) ≡ 0
unfolding many
many-above zero m k h e = refl
many-above (suc n) m k h e = elim (Bool-cases (bytes_eq k (n ∷ []))) [
  | inl same ↦
      let keys : m ∷ [] ≡ n ∷ [] =
        sym ((bytes_eq_iff k (m ∷ [])).0 e) ∙ (bytes_eq_iff k (n ∷ [])).0 same in
      let eq : m ≡ n = cc in absurd (omega (arith, h, eq))
  | inr other ↦ rw other (omega (arith, many-above n m k (omega (arith, h)) e))
]

many-IsMap : (n : ℕ) → IsMap (many n)
unfolding many
many-IsMap zero k = omega arith
many-IsMap (suc n) k = elim (Bool-cases (bytes_eq k (n ∷ []))) [
  | inl same ↦ rw same (omega (arith, many-above n n k (omega arith) same))
  | inr other ↦ rw other (omega (arith, many-IsMap n k))
]

heap_top-none : (h : List Entry) → heap.heap_top h ≡ none → h ≡ []
heap_top-none [] e = refl
heap_top-none (x ∷ h) e = cc

tally-heap_pop :
    (w : Entry → ℕ) (t : Entry) (h : List Entry)
    → heap.heap_top h ≡ some t
    → tally w h ≡ w t + tally w (heap.heap_pop h)
tally-heap_pop w t [] e = cc
tally-heap_pop w t (x ∷ h) e = let top : x ≡ t = cc in ap (λ y. w y + tally w h) top

abbrev laws : HeapLaws heap
laws = record {
  entries = λ h. h;
  entries-new_heap = refl;
  heap_size-entries = λ h. refl;
  tally-heap_push = λ w e h. refl;
  heap_top-none = heap_top-none;
  tally-heap_pop = tally-heap_pop;
}

free_part_of_map_lem_example :
    (length (free_part_of_map heap (many 200001))
        + (if ltb 200000 (length (many 200001)) then 60000 else 0)
      ≡ length (many 200001))
    × KeptOrGone (many 200001) (free_part_of_map heap (many 200001))
free_part_of_map_lem_example = free_part_of_map_lem heap laws (many 200001) (many-IsMap 200001)
