-- ===== src/Server/Defs.antt =====
-- libnet/net_httpserver.h and libnet/net_epoll.h: the server's state. A request pointer is its
-- descriptor: the objects that exist are those of `requests`. `interest` is the epoll set,
-- `wire` what write(2) has taken, the last call first.
use c_s_online_library.Common.{ℕ, false, Option, none, some, List, [], ◌∷◌, ◌==◌, if◌then◌else◌}
use c_s_online_library.Request.Defs.{NetHttpRequest, new_request}
use c_s_online_library.Timer.Defs.{TimerManager, no_timers, add_timer, del_timer}

-- The events that `epoll_ctl` is told to wait for, each with EPOLLIN and EPOLLONESHOT.
pub data Interest : Type 0 where
  listens in_once in_out_once : Interest

-- A task of the pool: the callback and its request.
pub data ServerTask : Type 0 where
  on_request on_response : ℕ → ServerTask

pub record NetHttpServer : Type 0 where
  pub listen_fd : ℕ
  pub requests : List NetHttpRequest
  pub timers : TimerManager
  pub interest : List (ℕ × Interest)
  pub tasks : List ServerTask
  pub wire : List (ℕ × List ℕ)

-- The constructor and the first line of `run`.
abbrev pub started : ℕ → NetHttpServer
started fd = record {
  listen_fd = fd;
  requests = [];
  timers = no_timers;
  interest = (fd, listens) ∷ [];
  tasks = [];
  wire = [];
}

unfoldable pub find_request : ℕ → List NetHttpRequest → Option NetHttpRequest
find_request fd [] = none
find_request fd (r ∷ rs) = if r.fd == fd then some r else find_request fd rs

-- Writes through the pointer `req`.
unfoldable pub put_request : NetHttpRequest → List NetHttpRequest → List NetHttpRequest
put_request req [] = []
put_request req (r ∷ rs) = if r.fd == req.fd then req ∷ rs else r ∷ put_request req rs

-- `delete req`
unfoldable pub delete_request : ℕ → List NetHttpRequest → List NetHttpRequest
delete_request fd [] = []
delete_request fd (r ∷ rs) = if r.fd == fd then rs else r ∷ delete_request fd rs

-- EPOLL_CTL_DEL
unfoldable pub del_epoll_fd : ℕ → List (ℕ × Interest) → List (ℕ × Interest)
del_epoll_fd fd [] = []
del_epoll_fd fd ((f, i) ∷ l) = if f == fd then l else (f, i) ∷ del_epoll_fd fd l

-- EPOLL_CTL_MOD: an error without effect for a descriptor that is not in the set.
unfoldable pub mod_epoll_fd : ℕ → Interest → List (ℕ × Interest) → List (ℕ × Interest)
mod_epoll_fd fd i [] = []
mod_epoll_fd fd i ((f, j) ∷ l) = if f == fd then (f, i) ∷ l else (f, j) ∷ mod_epoll_fd fd i l

-- How a handler ends: with a result; in undefined behaviour, such as the use of what is freed; or
-- not within the fuel of the parser, or of the answers that the model is given.
pub data Run (A : Type 0) : Type 0 where
  returns : A → Run A
  faults out_of_fuel out_of_answers : Run A

infixl 5 ◌>>=◌
abbrev pub ◌>>=◌ : {A B : Type 0} → Run A → (A → Run B) → Run B
returns a >>= f = f a
faults >>= f = faults
out_of_fuel >>= f = out_of_fuel
out_of_answers >>= f = out_of_answers

-- An optional result of the components, where `none` is undefined behaviour.
abbrev pub must : {A : Type 0} → Option A → Run A
must none = faults
must (some a) = returns a

-- The handlers' view: the server, and the request that they were called with.
abbrev pub Handled : Type 0
Handled = NetHttpServer × NetHttpRequest

-- CONNECT_TIMEOUTS, in milliseconds
abbrev pub connect_timeouts : ℕ
connect_timeouts = 500

unfoldable pub write_back : Handled → NetHttpServer
write_back (s, req) = record s { requests = put_request req s.requests }

-- `_timerManager->delTimer(req)`
unfoldable pub forget_timer : Handled → Run Handled
forget_timer (s, req) = do
  (timers, req') ← must (del_timer s.timers req)
  returns (record s { timers = timers }, req')

-- `_timerManager->addTimer(req, CONNECT_TIMEOUTS, …)`
unfoldable pub start_timer : ℕ → Handled → Run Handled
start_timer now (s, req) = do
  (timers, req') ← must (add_timer s.timers req connect_timeouts now)
  returns (record s { timers = timers }, req')

-- `_epoll->ModEpollFd(work_fd, req, …)`
unfoldable pub rearm : Interest → Handled → Handled
rearm i (s, req) = (record s { interest = mod_epoll_fd req.fd i s.interest }, req)

unfoldable pub set_no_working : Handled → Handled
set_no_working (s, req) = (s, record req { working = false })

-- `__closeConnection`
unfoldable pub close_connection : Handled → Run NetHttpServer
close_connection (s, req) =
    let closed = forget_timer (s, req) >>= λ h. returns (record h.0 {
      interest = del_epoll_fd req.fd h.0.interest;
      requests = delete_request req.fd h.0.requests;
    }) in
    if req.working then returns (write_back (s, req)) else closed

-- `__acceptConnection`: accept4 returns these descriptors, then -1.
unfoldable pub accept_connection : ℕ → List ℕ → NetHttpServer → Run NetHttpServer
accept_connection now [] s = returns s
accept_connection now (fd ∷ fds) s = do
  (s', req) ← start_timer now (s, new_request fd)
  accept_connection now fds
      (record s' { requests = req ∷ s'.requests; interest = (fd, in_once) ∷ s'.interest })
