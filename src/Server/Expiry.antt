-- ===== src/Server/Expiry.antt =====
-- libnet/net_httpserver.h and libnet/net_timer.h: a round of expired timers comes to its end.
use c_s_online_library.Common.{
  ℕ, zero, suc, ◌≤◌, ◌≡◌, ◌≢◌, refl, ap, ◌∙◌, sym, true, false, none, some, List, [], ◌∷◌, All,
  length, ◌==◌, Bool-cases, inl, inr, arith,
}
use c_s_online_library.Request.Defs.{NetHttpRequest}
use c_s_online_library.Server.Defs.{
  NetHttpServer, find_request, delete_request, del_epoll_fd, Run, returns, forget_timer,
  close_connection,
}
use c_s_online_library.Server.Loop.{pop_timer, fire, expire_loop, handle_expire_timers}
use c_s_online_library.Timer.Defs.{
  NetTimer, TimerManager, idle, freed, fires, next_expiry, is_due, is_deleted, set_del, del_timer,
  pop,
}

-- A live timer belongs to a request that no thread works on, and that points to it.
abbrev Owned : List NetHttpRequest → NetTimer → Type 0
Owned rs t =
    t.deleted ≡ false
    → (req : NetHttpRequest) × (find_request t.callback rs ≡ some req)
      × (req.working ≡ false)
      × (req.timer ≡ some t.name)

-- So do all live timers, and the timers have different names.
abbrev WellTimed : List NetHttpRequest → List NetTimer → Type 0
WellTimed rs [] = Unit
WellTimed rs (t ∷ ts) = Owned rs t × All (λ u. u.name ≢ t.name) ts × WellTimed rs ts

find_request-delete_request :
    (fd j : ℕ) (rs : List NetHttpRequest)
    → (j == fd) ≡ false
    → find_request j (delete_request fd rs) ≡ find_request j rs
unfolding find_request delete_request
find_request-delete_request fd j [] ne = refl
find_request-delete_request fd j (r ∷ rs) ne =
    ground (arith, find_request-delete_request fd j rs ne)

delete_request-WellTimed :
    (fd : ℕ) (req : NetHttpRequest) (p : ℕ) (rs : List NetHttpRequest) (ts : List NetTimer)
    → find_request fd rs ≡ some req
    → req.timer ≡ some p
    → All (λ u. u.name ≢ p) ts
    → WellTimed rs ts
    → WellTimed (delete_request fd rs) ts
delete_request-WellTimed fd req p rs [] f t ne w = tt
delete_request-WellTimed fd req p rs (u ∷ us) f t ne (owned, other, w) = (
  (λ live.
      let (r, found, idle_, points) = owned live in
      elim (Bool-cases (u.callback == fd)) [
        | inl same ↦
            let key : u.callback ≡ fd = ground (arith, same) in
            let reqs : some r ≡ some req = sym found ∙ ap (λ j. find_request j rs) key ∙ f in
            let name : u.name ≡ p = cc in absurd (ne.0 name)
        | inr differ ↦
            (r, find_request-delete_request fd u.callback rs differ ∙ found, idle_, points)
      ]),
  other,
  delete_request-WellTimed fd req p rs us f t ne.1 w,
)

pub find_request-fd :
    (j : ℕ) (req : NetHttpRequest) (rs : List NetHttpRequest)
    → find_request j rs ≡ some req
    → req.fd ≡ j
unfolding find_request
find_request-fd j req [] e = cc
find_request-fd j req (r ∷ rs) e = elim (Bool-cases (r.fd == j)) [
  | inl same ↦ ground (arith, same)
  | inr other ↦ find_request-fd j req rs (rw other at e)
]

-- The state after a live timer has expired for a request that no thread works on
abbrev pub expired : NetTimer → List NetTimer → NetHttpServer → NetHttpServer
expired t ts s = record s {
  timers = record s.timers { time_queue = ts };
  interest = del_epoll_fd t.callback s.interest;
  requests = delete_request t.callback s.requests;
}

is_deleted_top : (t : NetTimer) (ts : List NetTimer) → is_deleted t.name (t ∷ ts) ≡ some t.deleted
unfolding is_deleted
is_deleted_top t ts = ground arith

set_del_top :
    (t : NetTimer) (ts : List NetTimer) → set_del t.name (t ∷ ts) ≡ record t { deleted = true } ∷ ts
unfolding set_del
set_del_top t ts = ground arith

pub del_timer_owned :
    (t : NetTimer) (ts : List NetTimer) (m : TimerManager) (req : NetHttpRequest)
    → m.time_queue ≡ t ∷ ts
    → t.deleted ≡ false
    → req.timer ≡ some t.name
    → del_timer m req
      ≡ some
          (record m { time_queue = record t { deleted = true } ∷ ts }, record req { timer = none })
unfolding del_timer
del_timer_owned t ts m req q live points =
    let gone : is_deleted t.name m.time_queue ≡ some false =
      ap (is_deleted t.name) q ∙ is_deleted_top t ts ∙ ap some live in
    let marked : set_del t.name m.time_queue ≡ record t { deleted = true } ∷ ts =
      ap (set_del t.name) q ∙ set_del_top t ts in
    rw (points, del_timer) (rw (gone, del_timer) (rw marked refl))

pub fire_owned :
    (t : NetTimer) (ts : List NetTimer) (s : NetHttpServer) (req : NetHttpRequest)
    → s.timers.time_queue ≡ t ∷ ts
    → t.deleted ≡ false
    → find_request t.callback s.requests ≡ some req
    → req.working ≡ false
    → req.timer ≡ some t.name
    → fire t s ≡ returns (expired t ts s)
unfolding fire close_connection forget_timer pop_timer
fire_owned t ts s req q live found idle_ points =
    rw (found, fire)
      (rw (del_timer_owned t ts s.timers req q live points, fire)
        (rw (idle_, fire) (rw (find_request-fd t.callback req s.requests found) refl)))

-- When the timers have run out at `now`: the loop has stopped with nothing in the queue that is due.
abbrev Ends : ℕ → Run NetHttpServer → Type 0
Ends now r = (s' : NetHttpServer) × (r ≡ returns s') × (next_expiry s'.timers.time_queue now ≡ idle)

expire_loop-Ends :
    (rounds now : ℕ) (s : NetHttpServer) (q : List NetTimer)
    → s.timers.time_queue ≡ q
    → length q ≤ rounds
    → WellTimed s.requests q
    → Ends now (expire_loop rounds now s)
unfolding expire_loop next_expiry pop_timer
expire_loop-Ends zero now s [] e few w = (s, refl, ap (λ l. next_expiry l now) e)
expire_loop-Ends zero now s (t ∷ ts) e few w = absurd (omega (arith, few))
expire_loop-Ends (suc n) now s [] e few w =
    let stop : next_expiry s.timers.time_queue now ≡ idle = ap (λ l. next_expiry l now) e in
    (s, rw (stop, expire_loop) refl, stop)
expire_loop-Ends (suc n) now s (t ∷ ts) e few (owned, other, w) = elim (Bool-cases t.deleted) [
  | inl dead ↦
      let next : next_expiry s.timers.time_queue now ≡ freed ts =
        ap (λ l. next_expiry l now) e ∙ rw dead refl in
      let rest = expire_loop-Ends n now (pop_timer s) ts (ap pop e) (omega (arith, few)) w in
      rw (next, expire_loop) rest
  | inr live ↦ elim (Bool-cases (is_due t now)) [
    | inr later ↦
        let stop : next_expiry s.timers.time_queue now ≡ idle =
          ap (λ l. next_expiry l now) e ∙ rw later (rw live refl) in
        (s, rw (stop, expire_loop) refl, stop)
    | inl due ↦
        let next : next_expiry s.timers.time_queue now ≡ fires t =
          ap (λ l. next_expiry l now) e ∙ rw due (rw live refl) in
        let (req, found, idle_, points) = owned live in
        let run = fire_owned t ts s req e live found idle_ points in
        let rest =
          expire_loop-Ends n now (expired t ts s) ts refl (omega (arith, few))
            (delete_request-WellTimed t.callback req t.name s.requests ts found points other w) in
        rw (next, expire_loop) (rw run rest)
  ]
]

-- At any time, and with any timers: where each live timer of the queue belongs to a request that no
-- thread works on and that points to it, and the timers are different objects, `handleExpireTimers`
-- uses no freed request or timer, returns, and leaves nothing in the queue that is due.
handle_expire_timers_ends :
    (now : ℕ) (s : NetHttpServer)
    → WellTimed s.requests s.timers.time_queue
    → (s' : NetHttpServer) × (handle_expire_timers now s ≡ returns s')
      × (next_expiry s'.timers.time_queue now ≡ idle)
unfolding handle_expire_timers
handle_expire_timers_ends now s w =
    expire_loop-Ends (length s.timers.time_queue) now s s.timers.time_queue refl (omega arith) w
