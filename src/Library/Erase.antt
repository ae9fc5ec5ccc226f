-- ===== src/Library/Erase.antt =====
-- src/server.cc: `cache.erase`, on a cache whose keys are distinct.
use c_s_online_library.Common.{
  ℕ, suc, ◌+◌, ◌<◌, ◌≤◌, ◌≡◌, refl, ap, ◌∙◌, true, none, [], ◌∷◌, ◌⊎◌, inl, inr, Bytes, bytes_eq,
  bytes_eq_iff, length, tally, if◌then◌else◌, Bool-cases, arith,
}
use c_s_online_library.Library.Cache.{Entry, CacheNode, Cache, find_node, erase_node}

abbrev pub has_key : Bytes → Entry → ℕ
has_key k (k', _) = if bytes_eq k k' then 1 else 0

-- How often a key occurs; in a std::map, at most once.
abbrev pub occurs : Bytes → Cache → ℕ
occurs k = tally (has_key k)

abbrev pub IsMap : Cache → Type 0
IsMap c = (k : Bytes) → occurs k c ≤ 1

find_node-absent : (k : Bytes) (c : Cache) → occurs k c ≡ 0 → find_node k c ≡ none
unfolding find_node
find_node-absent k [] h = refl
find_node-absent k ((k', n) ∷ c) h = elim (Bool-cases (bytes_eq k k')) [
  | inl e ↦ absurd (ground arith)
  | inr e ↦ rw e (find_node-absent k c (ground arith))
]

bytes_eq-swap : (j k k' : Bytes) → bytes_eq k k' ≡ true → bytes_eq j k ≡ bytes_eq j k'
bytes_eq-swap j k k' e = ap (bytes_eq j) ((bytes_eq_iff k k').0 e)

pub occurs-erase_node :
    (j k : Bytes) (n : CacheNode) (c : Cache)
    → 0 < occurs k c
    → has_key j (k, n) + occurs j (erase_node k c) ≡ occurs j c
unfolding erase_node
occurs-erase_node j k n [] h = absurd (omega arith)
occurs-erase_node j k n ((k', n') ∷ c) h = elim (Bool-cases (bytes_eq k k')) [
  | inl e ↦ rw (e, bytes_eq-swap j k k' e) refl
  | inr e ↦ rw e (omega (arith, occurs-erase_node j k n c (ground arith)))
]

pub length-erase_node :
    (k : Bytes) (c : Cache) → 0 < occurs k c → suc (length (erase_node k c)) ≡ length c
unfolding erase_node
length-erase_node k [] h = absurd (omega arith)
length-erase_node k ((k', n') ∷ c) h = elim (Bool-cases (bytes_eq k k')) [
  | inl e ↦ rw e refl
  | inr e ↦ rw e (ap suc (length-erase_node k c (ground arith)))
]

-- A key has what it had, or is gone.
abbrev pub KeptOrGone : Cache → Cache → Type 0
KeptOrGone c c' = (j : Bytes) → (find_node j c' ≡ none) ⊎ (find_node j c' ≡ find_node j c)

pub erase_node-KeptOrGone : (k : Bytes) (c : Cache) → IsMap c → KeptOrGone c (erase_node k c)
unfolding erase_node find_node
erase_node-KeptOrGone k [] m j = inl refl
erase_node-KeptOrGone k ((k', n) ∷ c) m j = elim (Bool-cases (bytes_eq k k')) [
  | inl e ↦ elim (Bool-cases (bytes_eq j k')) [
    | inl same ↦ rw e (inl (find_node-absent j c (ground (arith, m j, same))))
    | inr other ↦ rw (e, other) (inr refl)
  ]
  | inr e ↦ elim (Bool-cases (bytes_eq j k')) [
    | inl same ↦ rw (e, same) (inr refl)
    | inr other ↦ rw (e, other) (erase_node-KeptOrGone k c (tail_map k' n c m) j)
  ]
]
  where
    tail_map : (k : Bytes) (n : CacheNode) (c : Cache) → IsMap ((k, n) ∷ c) → IsMap c
    tail_map k n c m j = omega (arith, m j)

pub erase_node-IsMap :
    (k : Bytes) (n : CacheNode) (c : Cache) → 0 < occurs k c → IsMap c → IsMap (erase_node k c)
erase_node-IsMap k n c h m j = omega (arith, occurs-erase_node j k n c h, m j)

pub has_key_self : (k : Bytes) (n : CacheNode) → has_key k (k, n) ≡ 1
has_key_self k n = rw ((bytes_eq_iff k k).1 refl) refl

pub KeptOrGone-trans : (a b c : Cache) → KeptOrGone a b → KeptOrGone b c → KeptOrGone a c
KeptOrGone-trans a b c h g j = elim (g j) [
  | inl gone ↦ inl gone
  | inr kept ↦ elim (h j) [ inl gone ↦ inl (kept ∙ gone) | inr kept' ↦ inr (kept ∙ kept') ]
]
