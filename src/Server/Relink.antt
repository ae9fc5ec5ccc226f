-- ===== src/Server/Relink.antt =====
-- libnet/net_timer.h and libnet/net_httpserver.h: a new timer, a closed request and a freed timer leave
-- requests and timers linked.
use c_s_online_library.Common.{
  ℕ, suc, ◌+◌, ◌*◌, ◌<◌, ◌≡◌, ◌≢◌, refl, ap, ◌∙◌, sym, subst, true, false, none, some, List, [],
  ◌∷◌, All, ◌==◌, ltb, Bool-cases, inl, inr, arith,
}
use c_s_online_library.Request.Defs.{NetHttpRequest}
use c_s_online_library.Timer.Defs.{NetTimer, TimerManager, push, del_timer, add_timer}
use c_s_online_library.Timer.Order.{IsOrdered, push-IsOrdered}
use c_s_online_library.Timer.Flags.{Below}
use c_s_online_library.Server.Link.{
  live_callback, live_callback-absent, live_callback-push, Below-absent, Names, Requests, update,
  clear_at, IsLinked,
}

All-push :
    (P : ℕ → Type 0) (t : NetTimer) (ts : List NetTimer)
    → P t.name
    → All (λ u. P u.name) ts
    → All (λ u. P u.name) (push t ts)
unfolding push
All-push P t [] h a = (h, tt)
All-push P t (x ∷ xs) h a = elim (Bool-cases (ltb t.expire_time x.expire_time)) [
  | inl e ↦ rw e (h, a)
  | inr e ↦ rw e (a.0, All-push P t xs h a.1)
]

Names-push : (t : NetTimer) (ts : List NetTimer) → Below t.name ts → Names ts → Names (push t ts)
unfolding push
Names-push t [] b n = (tt, tt)
Names-push t (x ∷ xs) b n = elim (Bool-cases (ltb t.expire_time x.expire_time)) [
  | inl e ↦ rw e (Below-absent t.name (x ∷ xs) b, n)
  | inr e ↦ rw e (
    All-push (λ k. k ≢ x.name) t xs (λ same. omega (arith, same, b.0)) n.0,
    Names-push t xs b.1 n.1,
  )
]

Below-suc : (n : ℕ) (ts : List NetTimer) → Below n ts → Below (suc n) ts
Below-suc n [] b = tt
Below-suc n (t ∷ ts) b = (omega (arith, b.0), Below-suc n ts b.1)

del_timer-none :
    (m : TimerManager) (req : NetHttpRequest) → req.timer ≡ none → del_timer m req ≡ some (m, req)
unfolding del_timer
del_timer-none m req e = ground arith

module _ (f : Requests) (m : TimerManager) (req : NetHttpRequest) (timeout now : ℕ) where
  abbrev new_timer : NetTimer
  new_timer = record {
    name = m.next_name;
    expire_time = now + timeout * 1000000;
    callback = req.fd;
    deleted = false;
  }

  abbrev pushed : TimerManager
  pushed = record { time_queue = push new_timer m.time_queue; next_name = suc m.next_name }

  abbrev with_timer : NetHttpRequest
  with_timer = record req { timer = some m.next_name }

  pushed-IsLinked :
      IsLinked f m
      → ((r : NetHttpRequest) → f req.fd ≡ some r → r.timer ≡ none)
      → IsLinked (update f req.fd with_timer) pushed
  pushed-IsLinked l no_timer =
      let absent =
        live_callback-absent m.next_name m.time_queue
          (Below-absent m.next_name m.time_queue l.below) in
      let at = λ (p : ℕ). live_callback-push new_timer p m.time_queue l.below in
      record {
        has_fd = λ j r h. ground (arith, l.has_fd j r);
        points = λ j p r h t. ground (arith, at p, absent, l.points j p r);
        owned = λ p j h. elim (Bool-cases (m.next_name == p)) [
          | inl newest ↦ (with_timer, ground (arith, at p), ground (arith, newest))
          | inr older ↦
              let (r, there, points_to) = l.owned p j (ground (arith, at p, older)) in
              elim (Bool-cases (j == req.fd)) [
                | inl same ↦
                    let key : j ≡ req.fd = ground (arith, same) in
                    absurd (cc (no_timer r (ap f (sym key) ∙ there)))
                | inr other ↦ (r, ground (arith, other, there), points_to)
              ]
        ];
        below =
            All-push (λ k. k < suc m.next_name) new_timer m.time_queue (omega arith)
              (Below-suc m.next_name m.time_queue l.below);
        names = Names-push new_timer m.time_queue l.below l.names;
        ordered = push-IsOrdered new_timer m.time_queue l.ordered;
      }

  -- `addTimer` on a request without a timer, which may be a new one
  pub add-IsLinked :
      IsLinked f m
      → ((r : NetHttpRequest) → f req.fd ≡ some r → r.timer ≡ none)
      → req.timer ≡ none
      → (m' : TimerManager) × (req' : NetHttpRequest) × (add_timer m req timeout now
          ≡ some (m', req'))
        × (req'.fd ≡ req.fd)
        × (req'.working ≡ req.working)
        × IsLinked (update f req.fd req') m'
  unfolding add_timer
  add-IsLinked l no_timer none_yet = (
    pushed,
    with_timer,
    rw (del_timer-none pushed req none_yet, add_timer) refl,
    refl,
    refl,
    pushed-IsLinked l no_timer,
  )

-- `delete` of a request without a timer
pub clear-IsLinked :
    (f : Requests) (m : TimerManager) (req : NetHttpRequest)
    → IsLinked f m
    → f req.fd ≡ some req
    → req.timer ≡ none
    → IsLinked (clear_at f req.fd) m
clear-IsLinked f m req l e none_yet = record {
  has_fd = λ j r h. ground (arith, l.has_fd j r);
  points = λ j p r h t. ground (arith, l.points j p r);
  owned = λ p j h.
      let (r, there, points_to) = l.owned p j h in
      elim (Bool-cases (j == req.fd)) [
        | inl same ↦
            let key : j ≡ req.fd = ground (arith, same) in absurd (cc (ap f (sym key) ∙ there))
        | inr other ↦ (r, ground (arith, other, there), points_to)
      ];
  below = l.below;
  names = l.names;
  ordered = l.ordered;
}

-- The top of the queue is freed, if it is deleted.
pub pop-IsLinked :
    (f : Requests) (m : TimerManager) (t : NetTimer) (ts : List NetTimer)
    → m.time_queue ≡ t ∷ ts
    → t.deleted ≡ true
    → IsLinked f m
    → IsLinked f (record m { time_queue = ts })
unfolding live_callback
pop-IsLinked f m t ts q dead l =
    let names : Names (t ∷ ts) = subst Names q l.names in
    let below : Below m.next_name (t ∷ ts) = subst (Below m.next_name) q l.below in
    let ordered : IsOrdered (t ∷ ts) = subst IsOrdered q l.ordered in
    let absent = live_callback-absent t.name ts names.0 in
    let same = λ (p : ℕ). ap (live_callback p) q in
    record {
      has_fd = l.has_fd;
      points = λ j p r h e. ground (arith, l.points j p r, same p, dead);
      owned = λ p j h. l.owned p j (ground (arith, same p, absent, dead));
      below = below.1;
      names = names.1;
      ordered = ordered.1;
    }
