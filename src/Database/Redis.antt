-- ===== src/Database/Redis.antt =====
-- src/include/database/redis_operation.h. hiredis and the JSON library are given by their answers. A
-- result of `none` is undefined behaviour: an object that is freed twice, a null pointer that is
-- followed, or a variable that was never set.
use c_s_online_library.Common.{
  ℕ, suc, ◌<◌, ◌≡◌, ◌≢◌, refl, ap, ◌∙◌, Bool, true, false, not, Option, none, some, List, [], ◌∷◌,
  All, ◌==◌, if◌then◌else◌, Bytes, ℤ, arith,
}
use c_s_online_library.Database.Heap.{
  Heap, no_objects, allocate, free_object, free_if, or_empty, free_object-top, free_object-gone,
}

-- `redis_sock_` and `reply_` point to objects of the heap.
pub record RedisTool : Type 0 where
  pub is_connected : Bool
  pub redis_sock : Option ℕ
  pub reply : Option ℕ

abbrev pub make : RedisTool
make = record { is_connected = false; redis_sock = none; reply = none }

-- What `do_connect` finds: does the file open, and what do the two calls of `Get` set.
pub record RedisSettings : Type 0 where
  pub opens : Bool
  pub ip : Option Bytes
  pub port : Option ℤ

-- `do_connect`, where the descriptor of the settings is an object that nothing closes; redisConnect gives no context, or one with or without an error.
unfoldable pub do_connect :
    (Bytes → ℤ → Option Bool)
    → RedisSettings
    → RedisTool × Heap
    → Option ((RedisTool × Heap) × Bool)
do_connect redis_connect c (t, m) = if not c.opens then some ((t, m), false) else elim c.port [
  | none ↦ none
  | some port ↦ elim (redis_connect (or_empty c.ip) port) [
    | none ↦ none
    | some err ↦
        let m1 = allocate m in
        let t' = record t { redis_sock = some m1.next } in
        if err
        then elim (free_object m1.next (allocate m1)) [
          | none ↦ none
          | some m' ↦ some ((t', m'), false)
        ]
        else some ((record t' { is_connected = true }, allocate m1), true)
  ]
]

-- `interaction` behind the `freeReplyObject` of the last reply: redisCommand gives no reply, or one of
-- a type.
unfoldable pub take_reply : Option ℕ → ℕ → RedisTool → Heap → Option ((RedisTool × Heap) × Bool)
take_reply none type_ t m = none
take_reply (some got) type_ t m =
    let t' = record t { reply = some m.next } in
    if got == type_
    then some ((t', allocate m), true)
    else elim (free_object m.next (allocate m)) [ none ↦ none | some m' ↦ some ((t', m'), false) ]

-- `interaction`
unfoldable pub interaction : Option ℕ → ℕ → RedisTool × Heap → Option ((RedisTool × Heap) × Bool)
interaction answer type_ (t, m) =
    if not t.is_connected then some ((t, m), false) else elim (free_if t.reply m) [
      | none ↦ none
      | some m' ↦ take_reply answer type_ (record t { reply = none }) m'
    ]

-- `~RedisTool`
unfoldable pub destroy : RedisTool × Heap → Option Heap
destroy (t, m) = elim (free_if t.reply m) [
  | none ↦ none
  | some m' ↦ if t.is_connected then free_if t.redis_sock m' else some m'
]

abbrev objects : Option ℕ → ℕ → List ℕ → List ℕ
objects none sock files = sock ∷ files
objects (some r) sock files = r ∷ sock ∷ files

abbrev Between : ℕ → Option ℕ → ℕ → Type 0
Between sock none next = Unit
Between sock (some r) next = (sock < r) × (r < next)

-- A tool that is connected, with the objects that it owns and the descriptors, which are all that
-- exist.
pub record Owns (files : List ℕ) (t : RedisTool) (m : Heap) : Type 0 where
  pub sock : ℕ
  pub connected : t.is_connected ≡ true
  pub has_sock : t.redis_sock ≡ some sock
  pub live : m.live ≡ objects t.reply sock files
  pub old : sock < m.next
  pub below : All (λ x. x < m.next) files
  pub between : Between sock t.reply m.next

-- The last reply is freed.
free_reply :
    (sock : ℕ) (files : List ℕ) (o : Option ℕ) (m : Heap)
    → m.live ≡ objects o sock files
    → free_if o m ≡ some (record m { live = sock ∷ files })
unfolding free_if
free_reply sock files none m e = ap (λ l. some (record m { live = l })) e
free_reply sock files (some r) m e =
    ap (λ l. free_object r (record m { live = l })) e ∙ free_object-top r m.next (sock ∷ files)

All-suc : (n : ℕ) (l : List ℕ) → All (λ x. x < n) l → All (λ x. x < suc n) l
All-suc n [] h = tt
All-suc n (x ∷ xs) h = (omega (arith, h.0), All-suc n xs h.1)

-- `interaction` on a reply of the type that is asked for
interaction-Owns :
    (type_ : ℕ) (files : List ℕ) (t : RedisTool) (m : Heap)
    → Owns files t m
    → (t' : RedisTool) × (m' : Heap) × (interaction (some type_) type_ (t, m)
        ≡ some ((t', m'), true))
      × Owns files t' m'
unfolding interaction take_reply
interaction-Owns type_ files t m o =
    let on : not t.is_connected ≡ false = ap not o.connected in
    let same : (type_ == type_) ≡ true = ground arith in
    (
      record t { reply = some m.next },
      record { live = m.next ∷ o.sock ∷ files; next = suc m.next },
      rw (on, interaction) (rw (free_reply o.sock files t.reply m o.live) (rw same refl)),
      record {
        sock = o.sock;
        connected = o.connected;
        has_sock = o.has_sock;
        live = refl;
        old = omega (arith, o.old);
        below = All-suc m.next files o.below;
        between = (o.old, omega arith);
      },
    )

-- A row of calls, each answered with the type that is asked for
unfoldable pub interactions : List ℕ → RedisTool × Heap → Option (RedisTool × Heap)
interactions [] s = some s
interactions (type_ ∷ types) s = elim (interaction (some type_) type_ s) [
  | none ↦ none
  | some r ↦ interactions types r.0
]

interactions-Owns :
    (types : List ℕ) (files : List ℕ) (t : RedisTool) (m : Heap)
    → Owns files t m
    → (t' : RedisTool) × (m' : Heap) × (interactions types (t, m) ≡ some (t', m'))
      × Owns files t' m'
unfolding interactions
interactions-Owns [] files t m o = (t, m, refl, o)
interactions-Owns (type_ ∷ types) files t m o =
    let (t1, m1, run, o1) = interaction-Owns type_ files t m o in
    let (t2, m2, rest, o2) = interactions-Owns types files t1 m1 o1 in
    (t2, m2, rw (run, interactions) rest, o2)

free_sock :
    (sock next : ℕ)
    → free_object sock (record { live = sock ∷ []; next = next })
      ≡ some (record { live = []; next = next })
free_sock sock next = free_object-top sock next []

destroy-Owns :
    (files : List ℕ) (t : RedisTool) (m : Heap)
    → (o : Owns files t m) → destroy (t, m) ≡ some (record m { live = files })
unfolding destroy free_if
destroy-Owns files t m o =
    rw (free_reply o.sock files t.reply m o.live, destroy)
      (rw (o.connected, destroy)
        (ap (λ p. free_if p (record m { live = o.sock ∷ files })) o.has_sock
          ∙ free_object-top o.sock m.next files))

do_connect-Owns :
    (redis_connect : Bytes → ℤ → Option Bool) (c : RedisSettings) (port : ℤ)
    → c.opens ≡ true
    → c.port ≡ some port
    → redis_connect (or_empty c.ip) port ≡ some false
    → (t : RedisTool) × (m : Heap) × (do_connect redis_connect c (make, no_objects)
        ≡ some ((t, m), true))
      × Owns (0 ∷ []) t m
unfolding do_connect
do_connect-Owns redis_connect c port opens has_port fine = (
  record make { is_connected = true; redis_sock = some 1 },
  allocate (allocate no_objects),
  rw (opens, do_connect) (rw (has_port, do_connect) (rw (fine, do_connect) refl)),
  record {
    sock = 1;
    connected = refl;
    has_sock = refl;
    live = refl;
    old = omega arith;
    below = (omega arith, tt);
    between = tt;
  },
)

-- The life of a tool that connects, where the settings open and have a port, and redisConnect gives a
-- context without an error: any number of calls of `interaction`, each with a reply of the type that
-- it asks for, and the destructor. Nothing is freed twice, and in the end only the descriptor of the
-- settings is left, which is never closed.
pub redis_life :
    (redis_connect : Bytes → ℤ → Option Bool) (c : RedisSettings) (port : ℤ) (types : List ℕ)
    → c.opens ≡ true
    → c.port ≡ some port
    → redis_connect (or_empty c.ip) port ≡ some false
    → (s1 : RedisTool × Heap) × (s2 : RedisTool × Heap) × (m : Heap) × (do_connect redis_connect c
          (make, no_objects)
        ≡ some (s1, true))
      × (interactions types s1 ≡ some s2)
      × (destroy s2 ≡ some m)
      × (m.live ≡ 0 ∷ [])
redis_life redis_connect c port types opens has_port fine =
    let (t1, m1, connects, o1) = do_connect-Owns redis_connect c port opens has_port fine in
    let (t2, m2, runs, o2) = interactions-Owns types (0 ∷ []) t1 m1 o1 in
    (
      (t1, m1),
      (t2, m2),
      record m2 { live = 0 ∷ [] },
      connects,
      runs,
      destroy-Owns (0 ∷ []) t2 m2 o2,
      refl,
    )

-- For a connected tool whose context and last reply are the objects that exist, a reply of another type
-- than the one asked for: `interaction` returns false and frees the reply, but keeps the pointer. The
-- next call of it, whatever it is answered, and the destructor free the reply again.
pub interaction_other_type :
    (got type_ : ℕ) (files : List ℕ) (t : RedisTool) (m : Heap)
    → Owns files t m
    → got ≢ type_
    → (t' : RedisTool) × (m' : Heap) × (interaction (some got) type_ (t, m)
        ≡ some ((t', m'), false))
      × ((answer : Option ℕ) (next_type : ℕ) → interaction answer next_type (t', m') ≡ none)
      × (destroy (t', m') ≡ none)
unfolding interaction take_reply destroy free_if
interaction_other_type got type_ files t m o other =
    let on : not t.is_connected ≡ false = ap not o.connected in
    let differ : (got == type_) ≡ false = ground (arith, other) in
    let gone = free_object-gone m.next (suc m.next) (o.sock ∷ files) (o.old, o.below) in
    (
      record t { reply = some m.next },
      record { live = o.sock ∷ files; next = suc m.next },
      rw (on, interaction)
          (rw (free_reply o.sock files t.reply m o.live, interaction)
            (rw (differ, interaction)
              (rw (free_object-top m.next (suc m.next) (o.sock ∷ files)) refl))),
      (λ answer next_type. rw (on, interaction) (rw gone refl)),
      rw (gone, destroy) refl,
    )
