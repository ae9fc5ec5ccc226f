-- ===== src/Dispatch/Balance.antt =====
-- src/server.cc: what the two semaphores keep, in every interleaving of producers and consumers.
use c_s_online_library.Common.{
  ℕ, suc, ◌⊎◌, inl, inr, ◌+◌, ◌<◌, ◌≤◌, ◌≡◌, refl, sym, ap, subst, ◌∙◌, none, some, List, [], ◌∷◌,
  ◌++◌, append_assoc, length, length-append, length-middle, ℕ-cases, List-cases, arith,
}
use c_s_online_library.Dispatch.Defs.{
  Dispatch, take_front, pop_fd, Turn, Step, arrives, turns, admits, pushes, posts, wakes, pops,
  frees, closes, Reachable, starts, steps,
}

-- Capacity that is not free is held by a producer that was let in, by an entry of the queue, or by a
-- consumer that has not given it back. Each entry of the queue is announced once: by the semaphore,
-- by a producer that is about to, or to a consumer that is woken. The queue is what was pushed and
-- not yet taken, in the order of the pushes. No thread of the pool gets lost.
pub record IsBalanced (threads : ℕ) (d : Dispatch) : Type 0 where
  pub capacity : d.sem_capacity + length d.admitted + length d.fd_que + length d.freeing ≡ 500
  pub product : d.sem_product + d.posting + d.woken ≡ length d.fd_que
  pub in_order : d.pushed ≡ d.popped ++ d.fd_que
  pub workers : d.idle + d.woken + length d.freeing + length d.handling ≡ threads

some_front : (q : List ℕ) → 0 < length q → (fd : ℕ) × (fds : List ℕ) × (q ≡ fd ∷ fds)
some_front [] h = absurd (omega arith)
some_front (fd ∷ fds) h = (fd, fds, refl)

pop_fd_front :
    (n : ℕ) (d : Dispatch) (fd : ℕ) (fds : List ℕ)
    → d.fd_que ≡ fd ∷ fds
    → pop_fd n d ≡ some (take_front n fd fds d)
unfolding pop_fd
pop_fd_front n d fd fds q = ap (λ l. elim l [ [] ↦ none | f ∷ fs ↦ some (take_front n f fs d) ]) q

Turn-IsBalanced : {k : ℕ} {d d' : Dispatch} → Turn d d' → IsBalanced k d → IsBalanced k d'
Turn-IsBalanced (admits d fd c before after e a) b = record {
  capacity = omega (arith, b.capacity, e);
  product = b.product;
  in_order = b.in_order;
  workers = b.workers;
}
Turn-IsBalanced (pushes d fd before after a) b = record {
  capacity = omega (
    arith,
    b.capacity,
    ap length a,
    length-middle before fd after,
    length-append d.fd_que (fd ∷ []),
  );
  product = omega (arith, b.product, length-append d.fd_que (fd ∷ []));
  in_order = ap (λ l. l ++ (fd ∷ [])) b.in_order ∙ append_assoc d.popped d.fd_que (fd ∷ []);
  workers = b.workers;
}
Turn-IsBalanced (posts d n e) b = record {
  capacity = b.capacity;
  product = omega (arith, b.product, e);
  in_order = b.in_order;
  workers = b.workers;
}
Turn-IsBalanced (wakes d n p e e') b = record {
  capacity = b.capacity;
  product = omega (arith, b.product, e');
  in_order = b.in_order;
  workers = omega (arith, b.workers, e);
}
Turn-IsBalanced (pops d d' n w e) b =
    let (fd, fds, q) = some_front d.fd_que (omega (arith, b.product, w)) in
    let next : take_front n fd fds d ≡ d' = cc (pop_fd_front n d fd fds q) in
    subst (IsBalanced _) next (record {
      capacity = omega (arith, b.capacity, ap length q);
      product = omega (arith, b.product, ap length q, w);
      in_order = b.in_order ∙ ap (λ l. d.popped ++ l) q ∙ sym (append_assoc d.popped (fd ∷ []) fds);
      workers = omega (arith, b.workers, w);
    })
Turn-IsBalanced (frees d fd before after a) b = record {
  capacity = omega (arith, b.capacity, ap length a, length-middle before fd after);
  product = b.product;
  in_order = b.in_order;
  workers = omega (arith, b.workers, ap length a, length-middle before fd after);
}

Step-IsBalanced : {k : ℕ} {d d' : Dispatch} → Step d d' → IsBalanced k d → IsBalanced k d'
Step-IsBalanced (arrives d fd) b = record {
  capacity = b.capacity;
  product = b.product;
  in_order = b.in_order;
  workers = b.workers;
}
Step-IsBalanced (turns t) b = Turn-IsBalanced t b
Step-IsBalanced (closes d fd before after a) b = record {
  capacity = b.capacity;
  product = b.product;
  in_order = b.in_order;
  workers = omega (arith, b.workers, ap length a, length-middle before fd after);
}

Reachable-IsBalanced : {n : ℕ} {d : Dispatch} → Reachable n d → IsBalanced n d
Reachable-IsBalanced starts = record {
  capacity = omega arith;
  product = refl;
  in_order = refl;
  workers = omega arith;
}
Reachable-IsBalanced (steps r s) = Step-IsBalanced s (Reachable-IsBalanced r)

-- In every state that is reached, whatever the order of the threads: the queue has at most 500
-- entries and is what was pushed less what was taken, in the order of the pushes; and a consumer that
-- is woken finds an entry, so that `front` and `pop` never meet an empty queue.
pub dispatch_safe :
    {threads : ℕ} {d : Dispatch}
    → Reachable threads d
    → (length d.fd_que ≤ 500)
      × (d.pushed ≡ d.popped ++ d.fd_que)
      × ((n : ℕ) → d.woken ≡ suc n → (d' : Dispatch) × (pop_fd n d ≡ some d'))
dispatch_safe {threads} {d} r = (
  omega (arith, b.capacity),
  b.in_order,
  (λ n w.
      let (fd, fds, q) = some_front d.fd_que (omega (arith, b.product, w)) in
      (take_front n fd fds d, pop_fd_front n d fd fds q)),
)
  where
    b : IsBalanced threads d
    b = Reachable-IsBalanced r

-- Entries that are announced, or about to be: a thread can go on, or all consumers are in `main_job`.
queue_moves :
    {threads : ℕ} {d : Dispatch}
    → IsBalanced threads d
    → 0 < length d.fd_que
    → ((d' : Dispatch) × Turn d d') ⊎ (length d.handling ≡ threads)
queue_moves {d = d} b full =
    let (fd, fds, q) = some_front d.fd_que full in
    elim (ℕ-cases d.woken) [
      | inr (n, w) ↦ inl (_, pops d _ n w (pop_fd_front n d fd fds q))
      | inl w ↦ elim (ℕ-cases d.posting) [
        | inr (n, p) ↦ inl (_, posts d n p)
        | inl p ↦ elim (ℕ-cases d.sem_product) [
          | inl none_left ↦ absurd (omega (arith, b.product, w, p, none_left, full))
          | inr (p', left) ↦ elim (ℕ-cases d.idle) [
            | inr (n, i) ↦ inl (_, wakes d n p' i left)
            | inl i ↦ elim (List-cases d.freeing) [
              | inr (x, xs, f) ↦ inl (_, frees d x [] xs f)
              | inl f ↦ inr (omega (arith, b.workers, w, i, ap length f))
            ]
          ]
        ]
      ]
    ]

-- No deadlock at the queue: while a producer waits to be let in, some thread that is not in `main_job`
-- can go on, unless all threads of the pool are in `main_job`.
pub dispatch_no_deadlock :
    {threads : ℕ} {d : Dispatch} (fd : ℕ) (fds : List ℕ)
    → Reachable threads d
    → d.arriving ≡ fd ∷ fds
    → ((d' : Dispatch) × Turn d d') ⊎ (length d.handling ≡ threads)
dispatch_no_deadlock {threads} {d} fd fds r waiting =
    let b = Reachable-IsBalanced r in
    elim (ℕ-cases d.sem_capacity) [
      | inr (c, room) ↦ inl (_, admits d fd c [] fds room waiting)
      | inl no_room ↦ elim (List-cases d.admitted) [
        | inr (x, xs, a) ↦ inl (_, pushes d x [] xs a)
        | inl a ↦ elim (List-cases d.freeing) [
          | inr (x, xs, f) ↦ inl (_, frees d x [] xs f)
          | inl f ↦ queue_moves b (omega (arith, b.capacity, no_room, ap length a, ap length f))
        ]
      ]
    ]
