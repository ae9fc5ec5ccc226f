-- ===== src/Library/Cache.antt =====
-- src/server.cc: the cache of mapped books, the comparison `cmp` of its entries, and
-- `free_part_of_map`. The clock, which only differences are taken of, does not go back.
-- std::priority_queue is an argument, `HeapOps`: which of several largest entries is on top is its
-- choice.
use c_s_online_library.Common.{
  ℕ, zero, suc, ◌+◌, Bool, true, false, Option, none, some, List, [], ◌∷◌, Bytes, bytes_eq, length,
  ltb, if◌then◌else◌,
}

-- `cache_node`; `data` is `none` while nothing is mapped there.
pub record CacheNode : Type 0 where
  pub size : ℕ
  pub cont : ℕ
  pub lasttime : ℕ
  pub per : ℕ
  pub data_ : Option Bytes

abbrev pub Entry : Type 0
Entry = Bytes × CacheNode

abbrev pub Cache : Type 0
Cache = List Entry

-- `cache.find`
unfoldable pub find_node : Bytes → Cache → Option CacheNode
find_node k [] = none
find_node k ((k', n) ∷ c) = if bytes_eq k k' then some n else find_node k c

-- `cache[k] = n`
unfoldable pub put_node : Bytes → CacheNode → Cache → Cache
put_node k n [] = (k, n) ∷ []
put_node k n ((k', n') ∷ c) = if bytes_eq k k' then (k', n) ∷ c else (k', n') ∷ put_node k n c

-- `cache.erase`
unfoldable pub erase_node : Bytes → Cache → Cache
erase_node k [] = []
erase_node k ((k', n) ∷ c) = if bytes_eq k k' then c else (k', n) ∷ erase_node k c

-- `cmp`: `a` is less than `b`, which is to be thrown out later.
unfoldable pub cmp : Entry → Entry → Bool
cmp (_, a) (_, b) =
    if ltb (b.cont + 1000) a.cont
    then false
    else if ltb (a.cont + 1000) b.cont
    then true
    else if ltb (b.cont + 100) a.cont
    then ltb b.per a.per
    else ltb a.lasttime b.lasttime

-- A std::priority_queue of entries, ordered by `cmp`
pub record HeapOps (H : Type 0) : Type 0 where
  pub new_heap : H
  pub heap_size : H → ℕ
  pub heap_push : Entry → H → H
  pub heap_top : H → Option Entry
  pub heap_pop : H → H

module _ {H : Type 0} (heap : HeapOps H) where
  -- One turn of the loop over the cache
  unfoldable pub keep_cold : Entry → H → H
  keep_cold e h =
      if ltb (heap.heap_size h) 60000 then heap.heap_push e h else elim (heap.heap_top h) [
        | none ↦ h
        | some t ↦ if cmp e t then heap.heap_push e (heap.heap_pop h) else h
      ]

  unfoldable pub collect : Cache → H → H
  collect [] h = h
  collect (e ∷ c) h = collect c (keep_cold e h)

  -- The loop that erases what is in the heap; one turn for each entry of it
  unfoldable pub erase_heap : ℕ → H → Cache → Cache
  erase_heap zero h c = c
  erase_heap (suc n) h c = elim (heap.heap_top h) [
    | none ↦ c
    | some (k, _) ↦ erase_heap n (heap.heap_pop h) (erase_node k c)
  ]

  -- `free_part_of_map`
  unfoldable pub free_part_of_map : Cache → Cache
  free_part_of_map c =
      let h = collect c heap.new_heap in
      if ltb 200000 (length c) then erase_heap (heap.heap_size h) h c else c
