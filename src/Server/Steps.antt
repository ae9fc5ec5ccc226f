-- ===== src/Server/Steps.antt =====
-- libnet/net_httpserver.h and libnet/net_epoll.h: a new connection, an event and a task leave the
-- requests, their timers and the tasks in order.
use c_s_online_library.Server.Relink.{add-IsLinked}
use c_s_online_library.Server.Handle.{do_request-Safe, do_response-Safe}
use c_s_online_library.Common.{
  ℕ, ◌≡◌, ◌≢◌, refl, ap, ◌∙◌, sym, subst, true, false, none, some, List, [], ◌∷◌, ◌++◌, All,
  All-append, ◌==◌, ◌||◌, Bool-cases, inl, inr, arith,
}
use c_s_online_library.Request.Defs.{NetHttpRequest, new_request}
use c_s_online_library.Server.Defs.{
  NetHttpServer, in_once, ServerTask, on_request, on_response, returns, find_request, put_request,
  connect_timeouts, write_back, start_timer, accept_connection,
}
use c_s_online_library.Server.Handlers.{Answers}
use c_s_online_library.Server.Keep.{Safe, Held-change, to_Safe, shut-Ended}
use c_s_online_library.Server.Link.{Requests, IsLinked-update}
use c_s_online_library.Server.Loop.{
  has_bit, epollin, epollout, epollerr, epollhup, execute, handle_connection, handle_event,
  run_task,
}
use c_s_online_library.Server.Track.{
  requests_of, find_request-put_request, task_fd, TasksOk, TasksOk-ext, Tracked, Held, IsLinked-ext,
  write_back-Tracked,
}

-- A request of the server whose task is taken, or has none, is one that a handler can work on.
pub request-Held :
    (s : NetHttpServer) (req : NetHttpRequest)
    → Tracked s
    → find_request req.fd s.requests ≡ some req
    → All (λ t. task_fd t ≢ req.fd) s.tasks
    → Held s req
request-Held s req t there others = record {
  linked = IsLinked-update (requests_of s.requests) s.timers req req t.linked there refl refl;
  there = (req, there);
  unique = t.unique;
  tasks_ok = t.tasks_ok;
  others = others;
}

tasks_exist :
    (f : Requests) (fd : ℕ) (ts : List ServerTask)
    → f fd ≡ none
    → TasksOk f ts
    → All (λ t. task_fd t ≢ fd) ts
tasks_exist f fd [] e o = tt
tasks_exist f fd (t ∷ ts) e ((req, there, busy), other, o) =
    ((λ same. cc (ap f same)), tasks_exist f fd ts e o)

-- A new connection
pub accept-Tracked :
    (now fd : ℕ) (s : NetHttpServer)
    → Tracked s
    → find_request fd s.requests ≡ none
    → (s' : NetHttpServer) × (accept_connection now (fd ∷ []) s ≡ returns s') × Tracked s'
unfolding accept_connection start_timer find_request
accept-Tracked now fd s t new =
    let f = requests_of s.requests in
    let (m, req, run, same_fd, same_flag, l) =
      add-IsLinked f s.timers (new_request fd) connect_timeouts now t.linked (λ r e. cc) refl in
    let others = tasks_exist f fd s.tasks new t.tasks_ok in
    (
      record s { timers = m; requests = req ∷ s.requests; interest = (fd, in_once) ∷ s.interest },
      rw (run, accept_connection) refl,
      record {
        linked = IsLinked-ext _ (requests_of (req ∷ s.requests)) m (λ j. ground (arith, same_fd)) l;
        unique = (ap (λ j. find_request j s.requests) same_fd ∙ new, t.unique);
        tasks_ok =
            TasksOk-ext f (requests_of (req ∷ s.requests)) fd s.tasks
              (λ j ne. ground (arith, same_fd, ne)) others t.tasks_ok;
      },
    )

TasksOk-append :
    (f : Requests) (ts : List ServerTask) (u : ServerTask) (req : NetHttpRequest)
    → TasksOk f ts
    → All (λ t. task_fd t ≢ task_fd u) ts
    → f (task_fd u) ≡ some req
    → req.working ≡ true
    → TasksOk f (ts ++ u ∷ [])
TasksOk-append f [] u req o a there busy = ((req, there, busy), tt, tt)
TasksOk-append f (t ∷ ts) u req (first, other, o) a there busy = (
  first,
  All-append _ ts (u ∷ []) other ((λ same. a.0 (sym same)), tt),
  TasksOk-append f ts u req o a.1 there busy,
)

execute-Tracked :
    (task : ℕ → ServerTask) (s : NetHttpServer) (req : NetHttpRequest)
    → ((fd : ℕ) → task_fd (task fd) ≡ fd)
    → Held s req
    → Tracked (execute task (s, req))
unfolding execute write_back
execute-Tracked task s req names h =
    let busy : NetHttpRequest = record req { working = true } in
    let held = Held-change s req busy h refl refl in
    let (old, found) = h.there in
    let t = write_back-Tracked s busy held in
    record {
      linked = t.linked;
      unique = t.unique;
      tasks_ok =
          TasksOk-append (requests_of (put_request busy s.requests)) s.tasks (task req.fd) busy
            t.tasks_ok (subst (λ j. All (λ u. task_fd u ≢ j) s.tasks) (sym (names req.fd)) h.others)
            (find_request-put_request (task_fd (task req.fd)) busy old s.requests found
              ∙ ground (arith, names req.fd))
            refl;
    }

handle_connection-Safe :
    (bits : ℕ) (s : NetHttpServer) (req : NetHttpRequest)
    → Tracked s
    → Held s req
    → Safe (handle_connection bits (s, req))
unfolding handle_connection
handle_connection-Safe bits s req t h =
    elim (Bool-cases (has_bit bits epollerr || has_bit bits epollhup || bits == 0)) [
      | inl ends ↦ rw ends (to_Safe _ (shut-Ended s req h))
      | inr open_ ↦ elim (Bool-cases (has_bit bits epollin)) [
        | inl reads ↦ rw (open_, reads) (execute-Tracked on_request s req (λ fd. refl) h)
        | inr more ↦ elim (Bool-cases (has_bit bits epollout)) [
          | inl writes ↦ rw (open_, more, writes) (execute-Tracked on_response s req (λ fd. refl) h)
          | inr nothing ↦ rw (open_, more, nothing) t
        ]
      ]
    ]

pub handle_event-Safe :
    (now fd bits : ℕ) (s : NetHttpServer) (req : NetHttpRequest)
    → Tracked s
    → (fd == s.listen_fd) ≡ false
    → find_request fd s.requests ≡ some req
    → All (λ t. task_fd t ≢ fd) s.tasks
    → Safe (handle_event now [] (fd, bits) s)
unfolding handle_event
handle_event-Safe now fd bits s req t other there others =
    let at : req.fd ≡ fd = t.linked.has_fd fd req there in
    rw (other, there)
      (handle_connection-Safe bits s req t (
        request-Held s req t (ap (λ j. find_request j s.requests) at ∙ there)
          (subst (λ j. All (λ u. task_fd u ≢ j) s.tasks) (sym at) others)))

-- A worker takes a task: the request is there, and none of the other tasks is its.
pub task-Held :
    (s : NetHttpServer) (t : ServerTask) (ts : List ServerTask)
    → Tracked s
    → s.tasks ≡ t ∷ ts
    → (req : NetHttpRequest) × (find_request (task_fd t) s.requests ≡ some req)
      × Held (record s { tasks = ts }) req
task-Held s t ts k q =
    let f = requests_of s.requests in
    let ((req, there, busy), other, o) = tasks_at f t ts (subst (TasksOk f) q k.tasks_ok) in
    let at : req.fd ≡ task_fd t = k.linked.has_fd (task_fd t) req there in
    (
      req,
      there,
      request-Held (record s { tasks = ts }) req
          (record { linked = k.linked; unique = k.unique; tasks_ok = o }) (ap f at ∙ there)
          (subst (λ j. All (λ u. task_fd u ≢ j) ts) (sym at) other),
    )
  where
    tasks_at :
        (f : Requests) (t : ServerTask) (ts : List ServerTask)
        → TasksOk f (t ∷ ts)
        → TasksOk f (t ∷ ts)
    tasks_at f t ts o = o

pub run_task-Safe :
    (a : Answers) (fuel : ℕ) (s : NetHttpServer) (q : List ServerTask)
    → s.tasks ≡ q
    → Tracked s
    → Safe (run_task a fuel s)
unfolding run_task
run_task-Safe a fuel s [] e t =
    let rests : run_task a fuel s ≡ returns s = ground arith in subst Safe (sym rests) t
run_task-Safe a fuel s (on_request fd ∷ ts) e t =
    let (req, there, held) = task-Held s (on_request fd) ts t e in
    rw (e, run_task)
      (rw (there, run_task) (do_request-Safe a fuel (record s { tasks = ts }) req held))
run_task-Safe a fuel s (on_response fd ∷ ts) e t =
    let (req, there, held) = task-Held s (on_response fd) ts t e in
    rw (e, run_task) (rw (there, run_task) (do_response-Safe a (record s { tasks = ts }) req held))
