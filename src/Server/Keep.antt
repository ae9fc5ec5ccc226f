-- ===== src/Server/Keep.antt =====
-- libnet/net_httpserver.h: no handler loses a timer or a request, or uses one that is freed.
use c_s_online_library.Server.Relink.{add-IsLinked, clear-IsLinked}
use c_s_online_library.Common.{
  ℕ, ◌≡◌, ◌≢◌, refl, ap, ◌∙◌, sym, subst, false, none, some, List, All, arith,
}
use c_s_online_library.Request.Defs.{NetHttpRequest}
use c_s_online_library.Server.Defs.{
  NetHttpServer, Interest, Run, returns, faults, out_of_fuel, out_of_answers, find_request,
  delete_request, del_epoll_fd, connect_timeouts, write_back, forget_timer, start_timer, rearm,
  set_no_working, close_connection,
}
use c_s_online_library.Server.Handlers.{shut, wait_for}
use c_s_online_library.Server.Link.{
  Requests, update, clear_at, IsLinked, IsLinked-update, forget-IsLinked,
}
use c_s_online_library.Server.Track.{
  requests_of, find_request-delete, delete_request-UniqueFds, task_fd, TasksOk-ext, Tracked, Held,
  IsLinked-ext, write_back-Tracked,
}
use c_s_online_library.Timer.Defs.{TimerManager}

update_self : (f : Requests) (req : NetHttpRequest) → update f req.fd req req.fd ≡ some req
update_self f req = ground arith

-- What a handler may do to its request, and to the rest of the server
pub Held-change :
    (s : NetHttpServer) (req req' : NetHttpRequest)
    → Held s req
    → req'.fd ≡ req.fd
    → req'.timer ≡ req.timer
    → Held s req'
Held-change s req req' h e t =
    let f = update (requests_of s.requests) req.fd req in
    let (old, found) = h.there in
    record {
      linked =
          IsLinked-ext (update f req.fd req') _ s.timers (λ j. ground (arith, e))
            (IsLinked-update f s.timers req req' h.linked (update_self (requests_of s.requests) req)
              e t);
      there = (old, ap (λ j. find_request j s.requests) e ∙ found);
      unique = h.unique;
      tasks_ok = h.tasks_ok;
      others = subst (λ j. All (λ u. task_fd u ≢ j) s.tasks) (sym e) h.others;
    }

Held-timers :
    (s : NetHttpServer) (m : TimerManager) (req req' : NetHttpRequest)
    → Held s req
    → req'.fd ≡ req.fd
    → IsLinked (update (update (requests_of s.requests) req.fd req) req.fd req') m
    → Held (record s { timers = m }) req'
Held-timers s m req req' h e l =
    let (old, found) = h.there in
    record {
      linked =
          IsLinked-ext _ (update (requests_of s.requests) req'.fd req') m (λ j. ground (arith, e))
            l;
      there = (old, ap (λ j. find_request j s.requests) e ∙ found);
      unique = h.unique;
      tasks_ok = h.tasks_ok;
      others = subst (λ j. All (λ u. task_fd u ≢ j) s.tasks) (sym e) h.others;
    }

pub Held-rearm :
    (i : Interest) (s : NetHttpServer) (req : NetHttpRequest)
    → Held s req
    → Held (rearm i (s, req)).0 req
unfolding rearm
Held-rearm i s req h = record {
  linked = h.linked;
  there = h.there;
  unique = h.unique;
  tasks_ok = h.tasks_ok;
  others = h.others;
}

pub Held-wire :
    (s : NetHttpServer) (w : List (ℕ × List ℕ)) (req : NetHttpRequest)
    → Held s req
    → Held (record s { wire = w }) req
Held-wire s w req h = record {
  linked = h.linked;
  there = h.there;
  unique = h.unique;
  tasks_ok = h.tasks_ok;
  others = h.others;
}

-- `delTimer` on the request that a handler works on: no freed timer is used.
pub forget_timer-Held :
    (s : NetHttpServer) (req : NetHttpRequest)
    → Held s req
    → (m : TimerManager) × (forget_timer (s, req)
        ≡ returns (record s { timers = m }, record req { timer = none }))
      × Held (record s { timers = m }) (record req { timer = none })
unfolding forget_timer
forget_timer-Held s req h =
    let f = update (requests_of s.requests) req.fd req in
    let (m, run, l) =
      forget-IsLinked f s.timers req h.linked (update_self (requests_of s.requests) req) in
    (m, rw (run, forget_timer) refl, Held-timers s m req (record req { timer = none }) h refl l)

start_timer-Held :
    (now : ℕ) (s : NetHttpServer) (req : NetHttpRequest)
    → Held s req
    → req.timer ≡ none
    → (m : TimerManager) × (req' : NetHttpRequest) × (start_timer now (s, req)
        ≡ returns (record s { timers = m }, req'))
      × Held (record s { timers = m }) req'
unfolding start_timer
start_timer-Held now s req h none_yet =
    let f = update (requests_of s.requests) req.fd req in
    let (m, req', run, same_fd, same_flag, l) =
      add-IsLinked f s.timers req connect_timeouts now h.linked
        (λ r e.
          let one : some req ≡ some r = sym (update_self (requests_of s.requests) req) ∙ e in cc)
        none_yet in
    (m, req', rw (run, start_timer) refl, Held-timers s m req req' h same_fd l)

-- How a step may end: with a server that is in order, unless the fuel or the answers do not suffice,
-- or the handler faults.
abbrev pub Safe : Run NetHttpServer → Type 0
Safe (returns s) = Tracked s
Safe faults = Unit
Safe out_of_fuel = Unit
Safe out_of_answers = Unit

-- The end of a step that writes nothing
abbrev pub Ended : List (ℕ × List ℕ) → Run NetHttpServer → Type 0
Ended wire r = (s' : NetHttpServer) × (r ≡ returns s') × (s'.wire ≡ wire) × Tracked s'

pub wait_for-Ended :
    (i : Interest) (now : ℕ) (s : NetHttpServer) (req : NetHttpRequest)
    → Held s req
    → req.timer ≡ none
    → Ended s.wire (wait_for i now (s, req))
unfolding rearm set_no_working write_back
wait_for-Ended i now s req h none_yet =
    let s1 = (rearm i (s, req)).0 in
    let idle : NetHttpRequest = record req { working = false } in
    let held = Held-change s1 req idle (Held-rearm i s req h) refl refl in
    let (m, req', run, held') = start_timer-Held now s1 idle held none_yet in
    (_, rw run refl, refl, write_back-Tracked (record s1 { timers = m }) req' held')

-- The end of a step that writes nothing, and closes a connection
abbrev pub Closed : ℕ → List (ℕ × List ℕ) → Run NetHttpServer → Type 0
Closed fd wire r =
    (s' : NetHttpServer) × (r ≡ returns s')
    × (s'.wire ≡ wire)
    × (find_request fd s'.requests ≡ none)
    × Tracked s'

-- `__closeConnection` on a request that no thread works on
close_connection-Closed :
    (s : NetHttpServer) (req : NetHttpRequest)
    → Held s req
    → req.working ≡ false
    → Closed req.fd s.wire (close_connection (s, req))
unfolding close_connection
close_connection-Closed s req h idle =
    let (m, run, held) = forget_timer-Held s req h in
    let f = update (requests_of s.requests) req.fd (record req { timer = none }) in
    let at = λ (j : ℕ). find_request-delete req.fd j s.requests h.unique in
    (
      record s {
        timers = m;
        interest = del_epoll_fd req.fd s.interest;
        requests = delete_request req.fd s.requests;
      },
      rw (run, close_connection) (rw (idle, close_connection) refl),
      refl,
      at req.fd ∙ ground arith,
      record {
        linked =
            IsLinked-ext (clear_at f req.fd) _ m (λ j. ground (arith, at j))
              (clear-IsLinked f m (record req { timer = none }) held.linked
                (update_self (requests_of s.requests) (record req { timer = none })) refl);
        unique = delete_request-UniqueFds req.fd s.requests h.unique;
        tasks_ok =
            TasksOk-ext (requests_of s.requests) (requests_of (delete_request req.fd s.requests))
              req.fd s.tasks (λ j ne. ground (arith, at j)) h.others h.tasks_ok;
      },
    )

pub close_connection-Ended :
    (s : NetHttpServer) (req : NetHttpRequest)
    → Held s req
    → req.working ≡ false
    → Ended s.wire (close_connection (s, req))
close_connection-Ended s req h idle =
    let (s', run, wire, gone, t) = close_connection-Closed s req h idle in (s', run, wire, t)

pub shut-Closed :
    (s : NetHttpServer) (req : NetHttpRequest) → Held s req → Closed req.fd s.wire (shut (s, req))
unfolding set_no_working
shut-Closed s req h =
    close_connection-Closed s (record req { working = false })
      (Held-change s req (record req { working = false }) h refl refl) refl

pub shut-Ended :
    (s : NetHttpServer) (req : NetHttpRequest) → Held s req → Ended s.wire (shut (s, req))
shut-Ended s req h = let (s', run, wire, gone, t) = shut-Closed s req h in (s', run, wire, t)

pub to_Safe : {w : List (ℕ × List ℕ)} (r : Run NetHttpServer) → Ended w r → Safe r
to_Safe r (s', e, same, t) = subst Safe (sym e) t
