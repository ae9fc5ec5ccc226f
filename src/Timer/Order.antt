-- ===== src/Timer/Order.antt =====
-- libnet/net_timer.h: the queue keeps the order of expiry, and what its top decides.
use c_s_online_library.Common.{
  ◌++◌, ◌*◌, ℕ, ◌+◌, ◌-◌, ◌/◌, ◌≤◌, ◌<◌, ◌≡◌, refl, sym, subst, true, false, List, [], ◌∷◌, All,
  arith, ltb, ◌==◌, Bool-cases, inl, inr, ℤ, pos, minus_one,
}
use c_s_online_library.Timer.Defs.{
  NetTimer, push, set_del, remaining_ms, Expiry, idle, freed, fires, next_expiry, is_due,
}

-- No timer expires before `t`.
abbrev pub Earliest : ℕ → List NetTimer → Type 0
Earliest e = All (λ x. e ≤ x.expire_time)

-- The order of the queue, top first.
abbrev pub IsOrdered : List NetTimer → Type 0
IsOrdered [] = Unit
IsOrdered (x ∷ xs) = Earliest x.expire_time xs × IsOrdered xs

Earliest-mono : (d e : ℕ) (q : List NetTimer) → d ≤ e → Earliest e q → Earliest d q
Earliest-mono d e [] h a = tt
Earliest-mono d e (x ∷ xs) h a = (omega (arith, a.0), Earliest-mono d e xs h a.1)

push-Earliest :
    (e : ℕ) (t : NetTimer) (q : List NetTimer)
    → e ≤ t.expire_time
    → Earliest e q
    → Earliest e (push t q)
unfolding push
push-Earliest e t [] h a = (h, tt)
push-Earliest e t (x ∷ xs) h a = ground (arith, push-Earliest e t xs h a.1)

-- A push keeps the order of the queue, whose top expires first.
pub push-IsOrdered : (t : NetTimer) (q : List NetTimer) → IsOrdered q → IsOrdered (push t q)
unfolding push
push-IsOrdered t [] o = (tt, tt)
push-IsOrdered t (x ∷ xs) o = elim (Bool-cases (ltb t.expire_time x.expire_time)) [
  | inl e ↦
      rw e (((ground arith), Earliest-mono t.expire_time x.expire_time xs (ground arith) o.0), o)
  | inr e ↦ rw e (push-Earliest x.expire_time t xs (ground arith) o.0, push-IsOrdered t xs o.1)
]

Earliest-set_del : (e d : ℕ) (q : List NetTimer) → Earliest e q → Earliest e (set_del d q)
unfolding set_del
Earliest-set_del e d [] a = tt
Earliest-set_del e d (x ∷ xs) a = ground (arith, a, Earliest-set_del e d xs a.1)

-- A timer that is marked as deleted keeps its place.
pub set_del-IsOrdered : (d : ℕ) (q : List NetTimer) → IsOrdered q → IsOrdered (set_del d q)
unfolding set_del
set_del-IsOrdered d [] o = tt
set_del-IsOrdered d (x ∷ xs) o = elim (Bool-cases (x.name == d)) [
  | inl e ↦ rw e o
  | inr e ↦ rw e (Earliest-set_del x.expire_time d xs o.0, set_del-IsOrdered d xs o.1)
]

-- A live timer that is due: less than a millisecond is left.
abbrev pub IsDue : ℕ → NetTimer → Type 0
IsDue now t = t.expire_time < now + 1000000

abbrev pub NotDue : ℕ → NetTimer → Type 0
NotDue now t = now + 1000000 ≤ t.expire_time

-- What `handleExpireTimers` meets at the top of an ordered queue.
abbrev pub Meets : ℕ → List NetTimer → Expiry → Type 0
Meets now q idle = All (NotDue now) q
Meets now q (freed xs) = (x : NetTimer) × (q ≡ x ∷ xs) × (x.deleted ≡ true)
Meets now q (fires t) = (xs : List NetTimer) × (q ≡ t ∷ xs) × (t.deleted ≡ false) × IsDue now t

All-later : (now e : ℕ) (q : List NetTimer) → now + 1000000 ≤ e → Earliest e q → All (NotDue now) q
All-later now e [] h a = tt
All-later now e (x ∷ xs) h a = (omega (arith, a.0), All-later now e xs h a.1)

is_due-true : (t : NetTimer) (now : ℕ) → is_due t now ≡ true → IsDue now t
unfolding is_due remaining_ms
is_due-true t now h = ground arith

is_due-false : (t : NetTimer) (now : ℕ) → is_due t now ≡ false → NotDue now t
unfolding is_due remaining_ms
is_due-false t now h = ground arith

-- The loop of `handleExpireTimers` stops only when no timer of the queue, deleted or live, is due.
-- It frees a top only if it is deleted, and runs a callback only of a live timer that is due.
pub next_expiry-Meets :
    (q : List NetTimer) (now : ℕ) → IsOrdered q → Meets now q (next_expiry q now)
unfolding next_expiry
next_expiry-Meets [] now o = tt
next_expiry-Meets (x ∷ xs) now o = elim (Bool-cases x.deleted) [
  | inl gone ↦
      let e : next_expiry (x ∷ xs) now ≡ freed xs = ground arith in
      subst (Meets now (x ∷ xs)) (sym e) (x, refl, gone)
  | inr live ↦ elim (Bool-cases (is_due x now)) [
    | inl due ↦
        let e : next_expiry (x ∷ xs) now ≡ fires x = ground arith in
        subst (Meets now (x ∷ xs)) (sym e) (xs, refl, live, is_due-true x now due)
    | inr later ↦
        let e : next_expiry (x ∷ xs) now ≡ idle = ground arith in
        let h = is_due-false x now later in
        subst (Meets now (x ∷ xs)) (sym e) (h, All-later now x.expire_time xs h o.0)
  ]
]

-- The timers that are not deleted.
abbrev pub IsLive : NetTimer → Type 0
IsLive t = t.deleted ≡ false

-- How long epoll may wait: not at all for a timer that is late, and for ever only without timers.
abbrev pub Waits : ℕ → List NetTimer → ℤ → Type 0
Waits now [] r = r ≡ minus_one
Waits now (x ∷ xs) r = IsLive x × (r ≡ pos ((x.expire_time - now) / 1000000))

-- No more than 2 ^ 31 milliseconds from now, before or behind, so that they are an `int`.
abbrev pub IsNear : ℕ → NetTimer → Type 0
IsNear now t =
    (t.expire_time < now + 2147483648 * 1000000) × (now < t.expire_time + 2147483648 * 1000000)

-- What `getNextExpireTime` frees: a part at the top, of deleted timers only.
pub record Freed (q rest : List NetTimer) : Type 0 where
  pub gone : List NetTimer
  pub split : q ≡ gone ++ rest
  pub only_deleted : All (λ t. t.deleted ≡ true) gone
