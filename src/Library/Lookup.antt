-- ===== src/Library/Lookup.antt =====
-- src/server.cc: the cache as a map.
use c_s_online_library.Common.{
  suc, ◌≤◌, ◌≡◌, refl, ap, true, some, [], ◌∷◌, Bytes, bytes_eq, bytes_eq_iff, length, Bool-cases,
  inl, inr, arith, if◌then◌else◌,
}
use c_s_online_library.Library.Cache.{
  CacheNode, Cache, find_node, put_node, HeapOps, free_part_of_map,
}

pub bytes_eq_refl : (k : Bytes) → bytes_eq k k ≡ true
bytes_eq_refl k = (bytes_eq_iff k k).1 refl

pub find_node-put_node :
    (j k : Bytes) (n : CacheNode) (c : Cache)
    → find_node j (put_node k n c) ≡ (if bytes_eq j k then some n else find_node j c)
unfolding find_node put_node
find_node-put_node j k n [] = ground arith
find_node-put_node j k n ((k', n') ∷ c) =
    ground
      (arith, bytes_eq_iff j k, bytes_eq_iff j k', bytes_eq_iff k k', find_node-put_node j k n c)

pub find_node-put_node_self :
    (k : Bytes) (n : CacheNode) (c : Cache) → find_node k (put_node k n c) ≡ some n
find_node-put_node_self k n c = rw (find_node-put_node k k n c, bytes_eq_refl k) refl

pub length-put_node :
    (k : Bytes) (n m : CacheNode) (c : Cache)
    → find_node k c ≡ some m
    → length (put_node k n c) ≡ length c
unfolding find_node put_node
length-put_node k n m [] h = cc
length-put_node k n m ((k', n') ∷ c) h = elim (Bool-cases (bytes_eq k k')) [
  | inl e ↦ rw e refl
  | inr e ↦ rw e (ap suc (length-put_node k n m c (rw e at h)))
]

pub length-put_node-le :
    (k : Bytes) (n : CacheNode) (c : Cache) → length (put_node k n c) ≤ suc (length c)
unfolding put_node
length-put_node-le k n [] = omega arith
length-put_node-le k n ((k', n') ∷ c) = ground (arith, length-put_node-le k n c)

pub free_nothing :
    {H : Type 0} (heap : HeapOps H) (c : Cache) → length c ≤ 200000 → free_part_of_map heap c ≡ c
unfolding free_part_of_map
free_nothing heap c h = ground arith
