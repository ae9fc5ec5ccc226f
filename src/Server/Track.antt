-- ===== src/Server/Track.antt =====
-- libnet/net_httpserver.h: what holds of the server between two steps, and of a request that a handler
-- works on.
use c_s_online_library.Common.{
  ℕ, ◌≡◌, ◌≢◌, refl, ap, ◌∙◌, sym, subst, fun_ext, true, none, some, List, [], ◌∷◌, All, ◌==◌,
  if◌then◌else◌, Bool-cases, inl, inr, arith,
}
use c_s_online_library.Request.Defs.{NetHttpRequest}
use c_s_online_library.Server.Defs.{
  NetHttpServer, ServerTask, on_request, on_response, find_request, put_request, delete_request,
  write_back,
}
use c_s_online_library.Server.Link.{Requests, update, IsLinked}
use c_s_online_library.Timer.Defs.{TimerManager}

-- The requests by their descriptors
abbrev pub requests_of : List NetHttpRequest → Requests
requests_of rs j = find_request j rs

abbrev pub UniqueFds : List NetHttpRequest → Type 0
UniqueFds [] = Unit
UniqueFds (r ∷ rs) = (find_request r.fd rs ≡ none) × UniqueFds rs

pub find_request-put_request :
    (j : ℕ) (req old : NetHttpRequest) (rs : List NetHttpRequest)
    → find_request req.fd rs ≡ some old
    → find_request j (put_request req rs) ≡ (if j == req.fd then some req else find_request j rs)
unfolding find_request put_request
find_request-put_request j req old [] e = cc
find_request-put_request j req old (r ∷ rs) e =
    ground (arith, find_request-put_request j req old rs)

find_request-put_none :
    (j : ℕ) (req : NetHttpRequest) (rs : List NetHttpRequest)
    → find_request j rs ≡ none
    → find_request j (put_request req rs) ≡ none
unfolding find_request put_request
find_request-put_none j req [] e = refl
find_request-put_none j req (r ∷ rs) e = ground (arith, find_request-put_none j req rs)

put_request-UniqueFds :
    (req : NetHttpRequest) (rs : List NetHttpRequest)
    → UniqueFds rs
    → UniqueFds (put_request req rs)
unfolding put_request
put_request-UniqueFds req [] u = tt
put_request-UniqueFds req (r ∷ rs) u = elim (Bool-cases (r.fd == req.fd)) [
  | inl e ↦
      let key : r.fd ≡ req.fd = ground (arith, e) in
      rw e (subst (λ j. find_request j rs ≡ none) key u.0, u.1)
  | inr e ↦ rw e (find_request-put_none r.fd req rs u.0, put_request-UniqueFds req rs u.1)
]

pub find_request-delete :
    (fd j : ℕ) (rs : List NetHttpRequest)
    → UniqueFds rs
    → find_request j (delete_request fd rs) ≡ (if j == fd then none else find_request j rs)
unfolding find_request delete_request
find_request-delete fd j [] u = ground arith
find_request-delete fd j (r ∷ rs) u = elim (Bool-cases (r.fd == fd)) [
  | inl e ↦
      let key : r.fd ≡ fd = ground (arith, e) in
      let gone : find_request fd rs ≡ none = subst (λ k. find_request k rs ≡ none) key u.0 in
      elim (Bool-cases (j == fd)) [
        | inl same ↦
            let at : j ≡ fd = ground (arith, same) in
            rw (e, same) (ap (λ k. find_request k rs) at ∙ gone)
        | inr other ↦ ground (arith, e, other)
      ]
  | inr e ↦ ground (arith, e, find_request-delete fd j rs u.1)
]

pub delete_request-UniqueFds :
    (fd : ℕ) (rs : List NetHttpRequest) → UniqueFds rs → UniqueFds (delete_request fd rs)
unfolding delete_request
delete_request-UniqueFds fd [] u = tt
delete_request-UniqueFds fd (r ∷ rs) u = elim (Bool-cases (r.fd == fd)) [
  | inl e ↦ rw e u.1
  | inr e ↦
      rw e (
        find_request-delete fd r.fd rs u.1 ∙ ground (arith, u.0),
        delete_request-UniqueFds fd rs u.1,
      )
]

abbrev pub task_fd : ServerTask → ℕ
task_fd (on_request fd) = fd
task_fd (on_response fd) = fd

-- Each task is of a request of its own, which is marked as working.
abbrev pub TasksOk : Requests → List ServerTask → Type 0
TasksOk f [] = Unit
TasksOk f (t ∷ ts) =
    ((req : NetHttpRequest) × (f (task_fd t) ≡ some req) × (req.working ≡ true))
    × All (λ u. task_fd u ≢ task_fd t) ts
    × TasksOk f ts

pub TasksOk-ext :
    (f g : Requests) (fd : ℕ) (ts : List ServerTask)
    → ((j : ℕ) → j ≢ fd → f j ≡ g j)
    → All (λ u. task_fd u ≢ fd) ts
    → TasksOk f ts
    → TasksOk g ts
TasksOk-ext f g fd [] same a o = tt
TasksOk-ext f g fd (t ∷ ts) same a ((req, there, busy), other, o) =
    ((req, sym (same (task_fd t) a.0) ∙ there, busy), other, TasksOk-ext f g fd ts same a.1 o)

-- Between two steps
pub record Tracked (s : NetHttpServer) : Type 0 where
  pub linked : IsLinked (requests_of s.requests) s.timers
  pub unique : UniqueFds s.requests
  pub tasks_ok : TasksOk (requests_of s.requests) s.tasks

-- While a handler works on a request, whose task it has taken
pub record Held (s : NetHttpServer) (req : NetHttpRequest) : Type 0 where
  pub linked : IsLinked (update (requests_of s.requests) req.fd req) s.timers
  pub there : (old : NetHttpRequest) × (find_request req.fd s.requests ≡ some old)
  pub unique : UniqueFds s.requests
  pub tasks_ok : TasksOk (requests_of s.requests) s.tasks
  pub others : All (λ u. task_fd u ≢ req.fd) s.tasks

pub IsLinked-ext :
    (f g : Requests) (m : TimerManager) → ((j : ℕ) → f j ≡ g j) → IsLinked f m → IsLinked g m
IsLinked-ext f g m same l = subst (λ h. IsLinked h m) (fun_ext same) l

-- The end of a handler that keeps the request
pub write_back-Tracked :
    (s : NetHttpServer) (req : NetHttpRequest) → Held s req → Tracked (write_back (s, req))
unfolding write_back
write_back-Tracked s req h =
    let (old, found) = h.there in
    let at = λ (j : ℕ). find_request-put_request j req old s.requests found in
    record {
      linked =
          IsLinked-ext (update (requests_of s.requests) req.fd req) _ s.timers (λ j. sym (at j))
            h.linked;
      unique = put_request-UniqueFds req s.requests h.unique;
      tasks_ok =
          TasksOk-ext (requests_of s.requests) (requests_of (put_request req s.requests)) req.fd
            s.tasks (λ j ne. ground (arith, at j)) h.others h.tasks_ok;
    }
