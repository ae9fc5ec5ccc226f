-- ===== src/Server/Link.antt =====
-- libnet/net_timer.h and libnet/net_httpserver.h: requests and the timers that they point to.
use c_s_online_library.Common.{
  ℕ, ◌<◌, ◌≡◌, ◌≢◌, refl, ap, ◌∙◌, sym, false, Option, none, some, List, [], ◌∷◌, All, ◌==◌,
  if◌then◌else◌, Bool-cases, inl, inr, arith,
}
use c_s_online_library.Request.Defs.{NetHttpRequest}
use c_s_online_library.Timer.Defs.{NetTimer, TimerManager, push, set_del, is_deleted, del_timer}
use c_s_online_library.Timer.Order.{IsOrdered, set_del-IsOrdered}
use c_s_online_library.Timer.Flags.{Below, HasTimer, forgotten, del_timer_at}

-- The descriptor of the request that a live timer of this name closes
unfoldable pub live_callback : ℕ → List NetTimer → Option ℕ
live_callback p [] = none
live_callback p (t ∷ ts) =
    if t.name == p then (if t.deleted then none else some t.callback) else live_callback p ts

abbrev pub Names : List NetTimer → Type 0
Names [] = Unit
Names (t ∷ ts) = All (λ u. u.name ≢ t.name) ts × Names ts

pub live_callback-absent :
    (p : ℕ) (ts : List NetTimer) → All (λ u. u.name ≢ p) ts → live_callback p ts ≡ none
unfolding live_callback
live_callback-absent p [] h = refl
live_callback-absent p (t ∷ ts) h = ground (arith, h.0, live_callback-absent p ts h.1)

pub Below-absent : (n : ℕ) (ts : List NetTimer) → Below n ts → All (λ u. u.name ≢ n) ts
Below-absent n [] b = tt
Below-absent n (t ∷ ts) b = ((λ e. omega (arith, e, b.0)), Below-absent n ts b.1)

pub live_callback-push :
    (t : NetTimer) (p : ℕ) (ts : List NetTimer)
    → Below t.name ts
    → live_callback p (push t ts)
      ≡ (if t.name == p then (if t.deleted then none else some t.callback) else live_callback p ts)
unfolding live_callback push
live_callback-push t p [] b = refl
live_callback-push t p (x ∷ xs) b = ground (arith, live_callback-push t p xs b.1)

live_callback-set_del :
    (d p : ℕ) (ts : List NetTimer)
    → live_callback p (set_del d ts) ≡ (if d == p then none else live_callback p ts)
unfolding live_callback set_del
live_callback-set_del d p [] = ground arith
live_callback-set_del d p (t ∷ ts) = ground (arith, live_callback-set_del d p ts)

is_deleted-live :
    (p j : ℕ) (ts : List NetTimer) → live_callback p ts ≡ some j → is_deleted p ts ≡ some false
unfolding live_callback is_deleted
is_deleted-live p j [] e = cc
is_deleted-live p j (t ∷ ts) e = ground (arith, is_deleted-live p j ts)

-- What an update of one request makes of all of them
abbrev pub Requests : Type 0
Requests = ℕ → Option NetHttpRequest

abbrev pub update : Requests → ℕ → NetHttpRequest → Requests
update f j req k = if k == j then some req else f k

abbrev pub clear_at : Requests → ℕ → Requests
clear_at f j k = if k == j then none else f k

-- A request's timer is live and closes that request, and each live timer is a request's.
pub record IsLinked (f : Requests) (m : TimerManager) : Type 0 where
  pub has_fd : (j : ℕ) (req : NetHttpRequest) → f j ≡ some req → req.fd ≡ j
  pub points :
      (j p : ℕ) (req : NetHttpRequest)
      → f j ≡ some req
      → req.timer ≡ some p
      → live_callback p m.time_queue ≡ some j
  pub owned :
      (p j : ℕ)
      → live_callback p m.time_queue ≡ some j
      → (req : NetHttpRequest) × (f j ≡ some req) × (req.timer ≡ some p)
  pub below : Below m.next_name m.time_queue
  pub names : Names m.time_queue
  pub ordered : IsOrdered m.time_queue

timer_of :
    (req r : NetHttpRequest) (p : ℕ) → some req ≡ some r → r.timer ≡ some p → req.timer ≡ some p
timer_of req r p e t = cc

-- A change that leaves the descriptor and the timer
pub IsLinked-update :
    (f : Requests) (m : TimerManager) (req req' : NetHttpRequest)
    → IsLinked f m
    → f req.fd ≡ some req
    → req'.fd ≡ req.fd
    → req'.timer ≡ req.timer
    → IsLinked (update f req.fd req') m
IsLinked-update f m req req' l e same_fd same_timer = record {
  has_fd = λ j r h. ground (arith, l.has_fd j r);
  points = λ j p r h t. ground (arith, l.points j p r, l.points j p req);
  owned = λ p j h.
      let (r, there, points_to) = l.owned p j h in
      elim (Bool-cases (j == req.fd)) [
        | inl same ↦
            let key : j ≡ req.fd = ground (arith, same) in
            let one : some req ≡ some r = sym e ∙ ap f (sym key) ∙ there in
            (req', ground (arith, same), same_timer ∙ timer_of req r p one points_to)
        | inr other ↦ (r, ground (arith, other, there), points_to)
      ];
  below = l.below;
  names = l.names;
  ordered = l.ordered;
}

All-set_del :
    (P : ℕ → Type 0) (d : ℕ) (ts : List NetTimer)
    → All (λ u. P u.name) ts
    → All (λ u. P u.name) (set_del d ts)
unfolding set_del
All-set_del P d [] a = tt
All-set_del P d (t ∷ ts) a = elim (Bool-cases (t.name == d)) [
  | inl e ↦ rw e a
  | inr e ↦ rw e (a.0, All-set_del P d ts a.1)
]

Names-set_del : (d : ℕ) (ts : List NetTimer) → Names ts → Names (set_del d ts)
unfolding set_del
Names-set_del d [] n = tt
Names-set_del d (t ∷ ts) n = elim (Bool-cases (t.name == d)) [
  | inl e ↦ rw e n
  | inr e ↦ rw e (All-set_del (λ k. k ≢ t.name) d ts n.0, Names-set_del d ts n.1)
]

-- The timer of a request that is in the set is not freed.
pub linked-HasTimer :
    (f : Requests) (m : TimerManager) (req : NetHttpRequest)
    → IsLinked f m
    → f req.fd ≡ some req
    → (o : Option ℕ) → req.timer ≡ o
    → HasTimer o m.time_queue
linked-HasTimer f m req l e none t = tt
linked-HasTimer f m req l e (some p) t =
    is_deleted-live p req.fd m.time_queue (l.points req.fd p req e t)

forgotten-IsLinked :
    (f : Requests) (m : TimerManager) (req : NetHttpRequest)
    → IsLinked f m
    → f req.fd ≡ some req
    → (o : Option ℕ) → req.timer ≡ o
    → IsLinked (update f req.fd (record req { timer = none })) (forgotten m o)
forgotten-IsLinked f m req l e none t =
    IsLinked-update f m req (record req { timer = none }) l e refl (sym t)
forgotten-IsLinked f m req l e (some d) t = record {
  has_fd = λ j r h. ground (arith, l.has_fd j r);
  points = λ j p r h t'.
      ground (arith, live_callback-set_del d p m.time_queue, l.points j p r, l.points req.fd d req);
  owned = λ p j h.
      let before : live_callback p m.time_queue ≡ some j =
        ground (arith, live_callback-set_del d p m.time_queue) in
      let (r, there, points_to) = l.owned p j before in
      elim (Bool-cases (j == req.fd)) [
        | inl same ↦
            let key : j ≡ req.fd = ground (arith, same) in
            let one : some req ≡ some r = sym e ∙ ap f (sym key) ∙ there in
            let timers : some d ≡ some p = sym t ∙ timer_of req r p one points_to in
            absurd (ground (arith, live_callback-set_del d p m.time_queue))
        | inr other ↦ (r, ground (arith, other, there), points_to)
      ];
  below = All-set_del (λ k. k < m.next_name) d m.time_queue l.below;
  names = Names-set_del d m.time_queue l.names;
  ordered = set_del-IsOrdered d m.time_queue l.ordered;
}

-- `delTimer` on a request of the set
pub forget-IsLinked :
    (f : Requests) (m : TimerManager) (req : NetHttpRequest)
    → IsLinked f m
    → f req.fd ≡ some req
    → (m' : TimerManager) × (del_timer m req ≡ some (m', record req { timer = none }))
      × IsLinked (update f req.fd (record req { timer = none })) m'
forget-IsLinked f m req l e = (
  forgotten m req.timer,
  del_timer_at m req req.timer (linked-HasTimer f m req l e req.timer refl),
  forgotten-IsLinked f m req l e req.timer refl,
)
