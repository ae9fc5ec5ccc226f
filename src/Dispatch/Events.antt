-- ===== src/Dispatch/Events.antt =====
-- src/server.cc, `Do_Connect`, `Do_read_wirte` and the event loop of `main`. What the system calls
-- return is an argument.
use c_s_online_library.Common.{ℕ, Bool, Option, none, some, List, [], ◌∷◌, ◌==◌, if◌then◌else◌}

-- accept, the two calls of fcntl, and epoll_ctl; F_GETFL fails with -1.
pub record ConnectCalls : Type 0 where
  pub accepted : Option ℕ
  pub get_flags : Bool
  pub set_flags : Bool
  pub epoll_add : Bool

-- What is open, and what epoll waits for, besides the listening socket
pub record Sockets : Type 0 where
  pub open_fds : List ℕ
  pub watched : List ℕ

-- `Do_Connect`
unfoldable pub do_connect : ConnectCalls → Sockets → Sockets
do_connect calls s = elim calls.accepted [
  | none ↦ s
  | some fd ↦
      if calls.get_flags
      then (if calls.set_flags
          then (let opened = record s { open_fds = fd ∷ s.open_fds } in
              if calls.epoll_add then record opened { watched = fd ∷ s.watched } else opened)
          else s)
      else s
]

-- An event: its descriptor, whether EPOLLIN is set, and the calls of `Do_Connect` for it
pub record Event : Type 0 where
  pub fd : ℕ
  pub readable : Bool
  pub calls : ConnectCalls

-- `main`'s loop over the events of one epoll_wait: the sockets, and the descriptors for which
-- `Do_read_wirte` makes a producer, in order.
unfoldable pub event_loop : ℕ → List Event → Sockets → Sockets × List ℕ
event_loop listen_sock [] s = (s, [])
event_loop listen_sock (e ∷ es) s =
    let skipped = event_loop listen_sock es s in
    let connected = event_loop listen_sock es (do_connect e.calls s) in
    if e.readable
    then (if e.fd == listen_sock then connected else (skipped.0, e.fd ∷ skipped.1))
    else skipped
