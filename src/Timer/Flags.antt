-- ===== src/Timer/Flags.antt =====
-- libnet/net_timer.h: a request's timer pointer and the flags of the timers.
use c_s_online_library.Common.{
  ℕ, suc, ◌+◌, ◌*◌, ◌<◌, ◌≡◌, refl, sym, subst, true, false, Option, none, some, List, [], ◌∷◌, All,
  arith, if◌then◌else◌, ◌==◌,
}
use c_s_online_library.Request.Defs.{NetHttpRequest}
use c_s_online_library.Timer.Defs.{
  NetTimer, TimerManager, push, set_del, is_deleted, del_timer, add_timer,
}

-- Names are given in rising order, so that no two timers of the queue share one.
abbrev pub Below : ℕ → List NetTimer → Type 0
Below n = All (λ x. x.name < n)

pub is_deleted_fresh : (n : ℕ) (q : List NetTimer) → Below n q → is_deleted n q ≡ none
unfolding is_deleted
is_deleted_fresh n [] b = refl
is_deleted_fresh n (x ∷ xs) b = ground (arith, is_deleted_fresh n xs b.1)

-- A pushed timer is found under its name, the others as before.
is_deleted-push :
    (t : NetTimer) (p : ℕ) (q : List NetTimer)
    → Below t.name q
    → is_deleted p (push t q) ≡ (if t.name == p then some t.deleted else is_deleted p q)
unfolding is_deleted push
is_deleted-push t p [] b = refl
is_deleted-push t p (x ∷ xs) b = ground (arith, is_deleted-push t p xs b.1)

is_deleted-set_del :
    (d p : ℕ) (q : List NetTimer)
    → is_deleted p (set_del d q) ≡ (
        if d == p
        then (elim (is_deleted p q) [ none ↦ none | some b ↦ some true ])
        else is_deleted p q)
unfolding is_deleted set_del
is_deleted-set_del d p [] = ground arith
is_deleted-set_del d p (x ∷ xs) = ground (arith, is_deleted-set_del d p xs)

-- The request has no timer, or a live one of this queue.
abbrev pub HasTimer : Option ℕ → List NetTimer → Type 0
HasTimer none q = Unit
HasTimer (some p) q = is_deleted p q ≡ some false

abbrev pub forgotten : TimerManager → Option ℕ → TimerManager
forgotten m none = m
forgotten m (some p) = record m { time_queue = set_del p m.time_queue }

pub del_timer_at :
    (m : TimerManager) (req : NetHttpRequest) (o : Option ℕ)
    → HasTimer o m.time_queue
    → del_timer m (record req { timer = o }) ≡ some (forgotten m o, record req { timer = none })
unfolding del_timer
del_timer_at m req none h = refl
del_timer_at m req (some p) h = rw (h, del_timer)

forgotten_deleted :
    (m : TimerManager) (o : Option ℕ) (p : ℕ)
    → HasTimer o m.time_queue
    → o ≡ some p
    → is_deleted p (forgotten m o).time_queue ≡ some true
forgotten_deleted m none p h e = cc
forgotten_deleted m (some d) p h e = ground (arith, is_deleted-set_del d p m.time_queue)

-- `delTimer` on a request with a live timer, or none, does not touch freed memory. It leaves the
-- request without a timer, and the timer that it had, deleted.
pub del_timer_lem :
    (m : TimerManager) (req : NetHttpRequest)
    → HasTimer req.timer m.time_queue
    → (m' : TimerManager) × (del_timer m req ≡ some (m', record req { timer = none }))
      × ((p : ℕ) → req.timer ≡ some p → is_deleted p m'.time_queue ≡ some true)
del_timer_lem m req h =
    (forgotten m req.timer, del_timer_at m req req.timer h, λ p. forgotten_deleted m req.timer p h)

-- A freed timer that a request still points to: `delTimer` uses it.
pub del_timer-dangling :
    (m : TimerManager) (req : NetHttpRequest) (p : ℕ)
    → req.timer ≡ some p
    → is_deleted p m.time_queue ≡ none
    → del_timer m req ≡ none
unfolding del_timer
del_timer-dangling m req p e gone =
    subst (λ o. del_timer m (record req { timer = o }) ≡ none) (sym e) (rw (gone, del_timer))

pub HasTimer-push :
    (t : NetTimer) (o : Option ℕ) (q : List NetTimer)
    → Below t.name q
    → HasTimer o q
    → HasTimer o (push t q)
HasTimer-push t none q b h = tt
HasTimer-push t (some p) q b h =
    ground (arith, is_deleted-push t p q b, is_deleted_fresh t.name q b)

-- `addTimer` on a request with a live timer, or none: it touches no freed memory, the request's new
-- timer is live, and the one that it had is deleted.
pub add_timer_lem :
    (m : TimerManager) (req : NetHttpRequest) (timeout now : ℕ)
    → Below m.next_name m.time_queue
    → HasTimer req.timer m.time_queue
    → (m' : TimerManager) × (req' : NetHttpRequest) × (add_timer m req timeout now
        ≡ some (m', req'))
      × (req' ≡ record req { timer = some m.next_name })
      × (is_deleted m.next_name m'.time_queue ≡ some false)
      × ((p : ℕ) → req.timer ≡ some p → is_deleted p m'.time_queue ≡ some true)
unfolding add_timer
add_timer_lem m req timeout now b h = (
  forgotten pushed req.timer,
  record req { timer = some m.next_name },
  rw (del_timer_at pushed req req.timer (HasTimer-push timer req.timer m.time_queue b h), add_timer)
      refl,
  refl,
  alive req.timer h,
  λ p. forgotten_deleted pushed req.timer p (HasTimer-push timer req.timer m.time_queue b h),
)
  where
    timer : NetTimer
    timer = record {
      name = m.next_name;
      expire_time = now + timeout * 1000000;
      callback = req.fd;
      deleted = false;
    }

    pushed : TimerManager
    pushed = record { time_queue = push timer m.time_queue; next_name = suc m.next_name }

    alive :
        (o : Option ℕ)
        → HasTimer o m.time_queue
        → is_deleted m.next_name (forgotten pushed o).time_queue ≡ some false
    alive none k = ground (arith, is_deleted-push timer m.next_name m.time_queue b)
    alive (some p) k = ground (
      arith,
      is_deleted-push timer m.next_name m.time_queue b,
      is_deleted-set_del p m.next_name (push timer m.time_queue),
      is_deleted_fresh m.next_name m.time_queue b,
    )
