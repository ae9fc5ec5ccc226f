-- ===== src/Library/Evict.antt =====
-- src/server.cc, `free_part_of_map`: what is thrown out of a cache that has grown too large.
use c_s_online_library.Common.{
  ℕ, zero, suc, ◌+◌, ◌<◌, ◌≤◌, ◌≡◌, refl, ap, ◌∙◌, sym, none, some, List, [], ◌∷◌, inl, inr, Bytes,
  length, tally, tally-length, ltb, if◌then◌else◌, Bool-cases, Option-cases, arith,
}
use c_s_online_library.Library.Cache.{
  Entry, CacheNode, Cache, erase_node, cmp, HeapOps, keep_cold, collect, erase_heap,
  free_part_of_map,
}
use c_s_online_library.Library.Erase.{
  has_key, occurs, IsMap, KeptOrGone, occurs-erase_node, length-erase_node, erase_node-KeptOrGone,
  erase_node-IsMap, has_key_self, KeptOrGone-trans,
}

-- What is promised by std::priority_queue, whatever the order: it holds what was pushed less what was
-- popped, `pop` takes the top, and there is a top unless it is empty.
pub record HeapLaws {H : Type 0} (heap : HeapOps H) : Type 0 where
  pub entries : H → List Entry
  pub entries-new_heap : entries heap.new_heap ≡ []
  pub heap_size-entries : (h : H) → heap.heap_size h ≡ length (entries h)
  pub tally-heap_push :
      (w : Entry → ℕ) (e : Entry) (h : H)
      → tally w (entries (heap.heap_push e h)) ≡ w e + tally w (entries h)
  pub heap_top-none : (h : H) → heap.heap_top h ≡ none → entries h ≡ []
  pub tally-heap_pop :
      (w : Entry → ℕ) (t : Entry) (h : H)
      → heap.heap_top h ≡ some t
      → tally w (entries h) ≡ w t + tally w (entries (heap.heap_pop h))

module _ {H : Type 0} (heap : HeapOps H) (laws : HeapLaws heap) where
  -- The heap's entries are of the cache, each key once.
  abbrev Within : H → Cache → Type 0
  Within h c = (k : Bytes) → occurs k (laws.entries h) ≤ occurs k c

  top_occurs :
      (h : H) (k : Bytes) (node : CacheNode) (c : Cache)
      → Within h c
      → heap.heap_top h ≡ some (k, node)
      → 0 < occurs k c
  top_occurs h k node c i t =
      omega (arith, i k, laws.tally-heap_pop (has_key k) (k, node) h t, has_key_self k node)

  pop-Within :
      (h : H) (k : Bytes) (node : CacheNode) (c : Cache)
      → Within h c
      → heap.heap_top h ≡ some (k, node)
      → Within (heap.heap_pop h) (erase_node k c)
  pop-Within h k node c i t j = omega (
    arith,
    i j,
    laws.tally-heap_pop (has_key j) (k, node) h t,
    occurs-erase_node j k node c (top_occurs h k node c i t),
  )

  pop-length :
      (h : H) (t : Entry)
      → heap.heap_top h ≡ some t
      → length (laws.entries h) ≡ suc (length (laws.entries (heap.heap_pop h)))
  pop-length h t e = omega (
    arith,
    laws.tally-heap_pop (λ _. 1) t h e,
    tally-length (laws.entries h),
    tally-length (laws.entries (heap.heap_pop h)),
  )

  erase_heap-lem :
      (n : ℕ) (h : H) (c : Cache)
      → length (laws.entries h) ≡ n
      → IsMap c
      → Within h c
      → (length (erase_heap heap n h c) + n ≡ length c) × KeptOrGone c (erase_heap heap n h c)
  unfolding erase_heap
  erase_heap-lem zero h c e m i = (omega arith, λ j. inr refl)
  erase_heap-lem (suc n) h c e m i = elim (Option-cases (heap.heap_top h)) [
    | inl t ↦ absurd (omega (arith, e, ap length (laws.heap_top-none h t)))
    | inr ((k, node), t) ↦
        let there = top_occurs h k node c i t in
        let (sizes, kept) =
          erase_heap-lem n (heap.heap_pop h) (erase_node k c)
            (omega (arith, e, pop-length h (k, node) t)) (erase_node-IsMap k node c there m)
            (pop-Within h k node c i t) in
        rw (t, erase_heap)
          (
            omega (arith, sizes, length-erase_node k c there),
            KeptOrGone-trans c (erase_node k c) _ (erase_node-KeptOrGone k c m) kept,
          )
  ]

  push-length :
      (e : Entry) (h : H)
      → length (laws.entries (heap.heap_push e h)) ≡ suc (length (laws.entries h))
  push-length e h = omega (
    arith,
    laws.tally-heap_push (λ _. 1) e h,
    tally-length (laws.entries h),
    tally-length (laws.entries (heap.heap_push e h)),
  )

  -- A heap after one turn of the loop: it has grown by the entry, or it is full and has taken the
  -- entry for its top, or none.
  record Kept (e : Entry) (h h' : H) : Type 0 where
    once_more : (k : Bytes) → occurs k (laws.entries h') ≤ has_key k e + occurs k (laws.entries h)
    grown : length (laws.entries h') ≡ (
        if ltb (length (laws.entries h)) 60000
        then suc (length (laws.entries h))
        else length (laws.entries h))

  keep_cold-Kept : (e : Entry) (h : H) → Kept e h (keep_cold heap e h)
  unfolding keep_cold
  keep_cold-Kept e h = elim (Bool-cases (ltb (length (laws.entries h)) 60000)) [
    | inl room ↦
        rw (laws.heap_size-entries h, keep_cold)
          (rw (room, keep_cold)
            (record {
              once_more = λ k. omega (arith, laws.tally-heap_push (has_key k) e h);
              grown = rw room (push-length e h);
            }))
    | inr full ↦
        rw (laws.heap_size-entries h, keep_cold)
          (rw (full, keep_cold)
            (elim (Option-cases (heap.heap_top h)) [
              | inl t ↦ absurd (ground (arith, full, ap length (laws.heap_top-none h t)))
              | inr (t, top) ↦
                  rw (top, keep_cold)
                    (elim (Bool-cases (cmp e t)) [
                      | inl less ↦
                          rw (less, keep_cold)
                            (record {
                              once_more = λ k. omega (
                                arith,
                                laws.tally-heap_push (has_key k) e (heap.heap_pop h),
                                laws.tally-heap_pop (has_key k) t h top,
                              );
                              grown =
                                  rw full
                                    (push-length e (heap.heap_pop h) ∙ sym (pop-length h t top));
                            })
                      | inr more ↦
                          rw (more, keep_cold)
                            (record { once_more = λ k. omega arith; grown = rw full refl })
                    ])
            ]))
  ]

  collect-Within :
      (c : Cache) (h : H) (k : Bytes)
      → occurs k (laws.entries (collect heap c h)) ≤ occurs k c + occurs k (laws.entries h)
  unfolding collect
  collect-Within [] h k = omega arith
  collect-Within (e ∷ c) h k =
      let turn = keep_cold-Kept e h in
      omega (arith, collect-Within c (keep_cold heap e h) k, turn.once_more k)

  collect-length :
      (c : Cache) (h : H)
      → length (laws.entries h) ≤ 60000
      → 60000 ≤ length c + length (laws.entries h)
      → length (laws.entries (collect heap c h)) ≡ 60000
  unfolding collect
  collect-length [] h small enough = omega arith
  collect-length (e ∷ c) h small enough =
      let turn = keep_cold-Kept e h in
      collect-length c (keep_cold heap e h) (ground (arith, turn.grown))
        (ground (arith, turn.grown))

  -- From a cache, whose keys are distinct, exactly 60000 entries are thrown out if it has more than
  -- 200000, and else none, whatever the order of the heap; and each key that is left has what it had.
  pub free_part_of_map_lem :
      (c : Cache)
      → IsMap c
      → (length (free_part_of_map heap c) + (if ltb 200000 (length c) then 60000 else 0) ≡ length c)
        × KeptOrGone c (free_part_of_map heap c)
  unfolding free_part_of_map
  free_part_of_map_lem c m = elim (Bool-cases (ltb 200000 (length c))) [
    | inl large ↦
        let h = collect heap c heap.new_heap in
        let none_yet = ap length laws.entries-new_heap in
        let full =
          collect-length c heap.new_heap (omega (arith, none_yet))
            (ground (arith, none_yet, large)) in
        let within : Within h c = λ k.
          omega (arith, collect-Within c heap.new_heap k, ap (occurs k) laws.entries-new_heap) in
        let (sizes, kept) =
          erase_heap-lem (heap.heap_size h) h c (sym (laws.heap_size-entries h)) m within in
        rw (large, free_part_of_map) (omega (arith, sizes, laws.heap_size-entries h, full), kept)
    | inr small ↦ rw (small, free_part_of_map) (omega arith, λ j. inr refl)
  ]
