-- ===== src/Server/Rounds.antt =====
-- libnet/net_httpserver.h and libnet/net_timer.h: so do the timers, at a time when none that is due
-- is of a request that is marked as working.
use c_s_online_library.Server.Relink.{pop-IsLinked}
use c_s_online_library.Common.{
  ℕ, zero, suc, ◌≤◌, ◌≡◌, ◌≢◌, refl, ap, ◌∙◌, sym, subst, true, false, some, List, [], ◌∷◌, All,
  length, Bool-cases, inl, inr, arith,
}
use c_s_online_library.Request.Defs.{NetHttpRequest}
use c_s_online_library.Server.Defs.{
  NetHttpServer, ServerTask, Run, returns, find_request, delete_request, del_epoll_fd, forget_timer,
  close_connection,
}
use c_s_online_library.Server.Keep.{close_connection-Ended}
use c_s_online_library.Server.Expiry.{expired, fire_owned, find_request-fd, del_timer_owned}
use c_s_online_library.Server.Link.{Requests, IsLinked, live_callback}
use c_s_online_library.Server.Loop.{pop_timer, expire_loop, handle_expire_timers}
use c_s_online_library.Server.Track.{
  requests_of, UniqueFds, find_request-delete, task_fd, TasksOk, Tracked,
}
use c_s_online_library.Timer.Defs.{
  NetTimer, TimerManager, is_due, next_expiry, idle, freed, fires, pop, drop_deleted,
}
use c_s_online_library.Server.Reach.{QuietTimers, IsQuiet}
use c_s_online_library.Server.Steps.{request-Held}

pub drop_deleted-IsLinked :
    (f : Requests) (m : TimerManager) (q : List NetTimer)
    → m.time_queue ≡ q
    → IsLinked f m
    → IsLinked f (record m { time_queue = drop_deleted q })
unfolding drop_deleted
drop_deleted-IsLinked f m [] e l = subst (λ q. IsLinked f (record m { time_queue = q })) e l
drop_deleted-IsLinked f m (t ∷ ts) e l = elim (Bool-cases t.deleted) [
  | inl dead ↦ rw dead (
      drop_deleted-IsLinked f (record m { time_queue = ts }) ts refl
        (pop-IsLinked f m t ts e dead l))
  | inr live ↦
      let stays : t ∷ ts ≡ drop_deleted (t ∷ ts) = ground (arith, live) in
      subst (λ q. IsLinked f (record m { time_queue = q })) (e ∙ stays) l
]

-- A request that is not marked as working has no task.
idle_tasks :
    (f : Requests) (fd : ℕ) (req : NetHttpRequest) (ts : List ServerTask)
    → f fd ≡ some req
    → req.working ≡ false
    → TasksOk f ts
    → All (λ t. task_fd t ≢ fd) ts
idle_tasks f fd req [] e idle_ o = tt
idle_tasks f fd req (t ∷ ts) e idle_ ((r, there, busy), other, o) = (
  (λ same. clash f (task_fd t) fd req r same there e idle_ busy),
  idle_tasks f fd req ts e idle_ o,
)
  where
    clash :
        (f : Requests) (j fd : ℕ) (req r : NetHttpRequest)
        → j ≡ fd
        → f j ≡ some r
        → f fd ≡ some req
        → req.working ≡ false
        → r.working ≡ true
        → ⊥
    clash f j fd req r same there e idle_ busy = cc (ap f same)

-- A callback on a live timer of its own request deletes the timer in its place at the top.
module _ (t : NetTimer) (ts : List NetTimer) (s : NetHttpServer) (req : NetHttpRequest) where
  abbrev marked_top : NetHttpServer
  marked_top = record s {
    timers = record s.timers { time_queue = record t { deleted = true } ∷ ts };
    interest = del_epoll_fd req.fd s.interest;
    requests = delete_request req.fd s.requests;
  }

  close_owned :
      s.timers.time_queue ≡ t ∷ ts
      → t.deleted ≡ false
      → req.working ≡ false
      → req.timer ≡ some t.name
      → close_connection (s, req) ≡ returns marked_top
  unfolding close_connection forget_timer
  close_owned q live idle_ points =
      rw (del_timer_owned t ts s.timers req q live points) (rw idle_ refl)

-- A live timer that is due, of a request that is not marked as working
expired-Tracked :
    (t : NetTimer) (ts : List NetTimer) (s : NetHttpServer) (req : NetHttpRequest)
    → s.timers.time_queue ≡ t ∷ ts
    → t.deleted ≡ false
    → find_request t.callback s.requests ≡ some req
    → req.working ≡ false
    → req.timer ≡ some t.name
    → Tracked s
    → Tracked (expired t ts s)
expired-Tracked t ts s req q live there idle_ points k =
    let at = find_request-fd t.callback req s.requests there in
    let others =
      idle_tasks (requests_of s.requests) t.callback req s.tasks there idle_ k.tasks_ok in
    let held =
      request-Held s req k (ap (requests_of s.requests) at ∙ there)
        (subst (λ j. All (λ u. task_fd u ≢ j) s.tasks) (sym at) others) in
    let (s', run, _, tracked) = close_connection-Ended s req held idle_ in
    let same : s' ≡ marked_top t ts s req =
      returns-inj (sym run ∙ close_owned t ts s req q live idle_ points) in
    let marked : Tracked (marked_top t ts s req) = subst Tracked same tracked in
    let popped = pop-IsLinked _ _ (record t { deleted = true }) ts refl refl marked.linked in
    subst
      (λ j. Tracked (record s {
        timers = record s.timers { time_queue = ts };
        interest = del_epoll_fd j s.interest;
        requests = delete_request j s.requests;
      }))
      at (record { linked = popped; unique = marked.unique; tasks_ok = marked.tasks_ok })
  where
    returns-inj : {a b : NetHttpServer} → returns a ≡ returns b → a ≡ b
    returns-inj e = cc

QuietTimers-delete :
    (now fd : ℕ) (rs : List NetHttpRequest) (ts : List NetTimer)
    → UniqueFds rs
    → QuietTimers now rs ts
    → QuietTimers now (delete_request fd rs) ts
QuietTimers-delete now fd rs [] u quiet = tt
QuietTimers-delete now fd rs (t ∷ ts) u quiet = (
  (λ due live req found.
      let at = find_request-delete fd t.callback rs u in
      quiet.0 due live req (ground (arith, at, found))),
  QuietTimers-delete now fd rs ts u quiet.1,
)

-- The end of a round of timers
abbrev Ends : ℕ → Run NetHttpServer → Type 0
Ends now r =
    (s' : NetHttpServer) × (r ≡ returns s')
    × Tracked s'
    × (next_expiry s'.timers.time_queue now ≡ idle)

top_owned :
    (s : NetHttpServer) (t : NetTimer) (ts : List NetTimer)
    → s.timers.time_queue ≡ t ∷ ts
    → t.deleted ≡ false
    → Tracked s
    → (req : NetHttpRequest) × (find_request t.callback s.requests ≡ some req)
      × (req.timer ≡ some t.name)
unfolding live_callback
top_owned s t ts e live k =
    k.linked.owned t.name t.callback (ap (live_callback t.name) e ∙ ground (arith, live))

expire_loop-Ends :
    (rounds now : ℕ) (s : NetHttpServer) (q : List NetTimer)
    → s.timers.time_queue ≡ q
    → length q ≤ rounds
    → QuietTimers now s.requests q
    → Tracked s
    → Ends now (expire_loop rounds now s)
unfolding expire_loop next_expiry pop_timer
expire_loop-Ends zero now s [] e few quiet k = (s, refl, k, ap (λ l. next_expiry l now) e)
expire_loop-Ends zero now s (t ∷ ts) e few quiet k = absurd (omega (arith, few))
expire_loop-Ends (suc n) now s [] e few quiet k =
    let stop : next_expiry s.timers.time_queue now ≡ idle = ap (λ l. next_expiry l now) e in
    (s, rw (stop, expire_loop) refl, k, stop)
expire_loop-Ends (suc n) now s (t ∷ ts) e few (quiet, rest) k = elim (Bool-cases t.deleted) [
  | inl dead ↦
      let next : next_expiry s.timers.time_queue now ≡ freed ts =
        ap (λ l. next_expiry l now) e ∙ rw dead refl in
      let popped = pop-IsLinked (requests_of s.requests) s.timers t ts e dead k.linked in
      let ends =
        expire_loop-Ends n now (pop_timer s) ts (ap pop e) (omega (arith, few)) rest (record {
          linked =
              subst (λ q. IsLinked (requests_of s.requests) (record s.timers { time_queue = q }))
                (sym (ap pop e)) popped;
          unique = k.unique;
          tasks_ok = k.tasks_ok;
        }) in
      rw (next, expire_loop) ends
  | inr live ↦ elim (Bool-cases (is_due t now)) [
    | inr later ↦
        let stop : next_expiry s.timers.time_queue now ≡ idle =
          ap (λ l. next_expiry l now) e ∙ rw later (rw live refl) in
        (s, rw (stop, expire_loop) refl, k, stop)
    | inl due ↦
        let next : next_expiry s.timers.time_queue now ≡ fires t =
          ap (λ l. next_expiry l now) e ∙ rw due (rw live refl) in
        let (req, found, points) = top_owned s t ts e live k in
        let idle_ = quiet due live req found in
        let run = fire_owned t ts s req e live found idle_ points in
        let ends =
          expire_loop-Ends n now (expired t ts s) ts refl (omega (arith, few))
            (QuietTimers-delete now t.callback s.requests ts k.unique rest)
            (expired-Tracked t ts s req e live found idle_ points k) in
        rw (next, expire_loop) (rw run ends)
  ]
]

pub handle_expire_timers-Tracked :
    (now : ℕ) (s : NetHttpServer)
    → IsQuiet now s
    → Tracked s
    → (s' : NetHttpServer) × (handle_expire_timers now s ≡ returns s')
      × Tracked s'
      × (next_expiry s'.timers.time_queue now ≡ idle)
unfolding handle_expire_timers
handle_expire_timers-Tracked now s quiet k =
    expire_loop-Ends (length s.timers.time_queue) now s s.timers.time_queue refl (omega arith) quiet
      k
