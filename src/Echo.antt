-- ===== src/Echo.antt =====
-- src/include/socktool/sock_ser.hpp with src/include/common/include/base_sock.hpp, and src/Server.cc:
-- the sockets of the second server. `Work` is its work for a client, which sends back what it reads,
-- and `Options` its options.
pub mod Work
pub mod Options
use c_s_online_library.Common.{
  ℕ, zero, suc, ◌+◌, ◌-◌, ◌<◌, ◌≤◌, ◌≡◌, ◌≢◌, refl, ap, ◌∙◌, Bool, true, false, not, ◌&&◌, Option,
  none, some, List, [], ◌∷◌, ◌++◌, append_assoc, append-nil, ◌⊎◌, Bytes, codes, Lacks, All-append,
  find, find-append, find-lt, length, length-append, take, take_all, take-append_length, drop, ltb,
  ◌==◌, if◌then◌else◌, Bool-cases, inl, inr, arith, ℤ, pos, negsuc, minus_one,
}

-- `ListenSockTool`, with the two bits of its status, and the descriptors that were closed so far
pub record ListenSock : Type 0 where
  pub sockfd : ℤ
  pub sock_is_open : Bool
  pub has_ip : Bool
  pub has_port : Bool
  pub ip : Bytes
  pub port : ℕ
  pub closed : List ℤ

abbrev pub new_listen_sock : ListenSock
new_listen_sock = record {
  sockfd = minus_one;
  sock_is_open = false;
  has_ip = false;
  has_port = false;
  ip = [];
  port = 0;
  closed = [];
}

unfoldable pub set_ip : Bytes → ListenSock → ListenSock
set_ip ip s = record s { ip = ip; has_ip = true }

unfoldable pub set_port : ℕ → ListenSock → ListenSock
set_port port s = record s { port = port; has_port = true }

-- CREATESOCK, BIND, LISTEN and OK
pub data OpenStatus : Type 0 where
  create_sock bind listen ok : OpenStatus

-- What socket returns, whether bind to an address succeeds, and listen
pub record SockCalls : Type 0 where
  pub socket : Option ℕ
  pub binds : Bytes → ℕ → Bool
  pub listens : Bool

-- SERVERPORT
abbrev pub server_port : ℕ
server_port = 5434

-- `open_sock`: the defaults stand in for what was not set.
unfoldable pub open_sock : SockCalls → ListenSock → ListenSock × OpenStatus
open_sock calls s =
    let s1 = record s {
      ip = if s.has_ip then s.ip else codes "127.0.0.1";
      port = if s.has_port then s.port else server_port;
    } in
    elim calls.socket [
      | none ↦ (record s1 { sockfd = minus_one }, create_sock)
      | some fd ↦
          let s2 = record s1 { sockfd = pos fd } in
          if calls.binds s2.ip s2.port then (record s2 { sock_is_open = true }, ok) else (s2, bind)
    ]

unfoldable pub start_listen : SockCalls → ListenSock → OpenStatus
start_listen calls s = if calls.listens then ok else listen

abbrev close_if_open : ListenSock → ListenSock
close_if_open s = if s.sock_is_open then record s { closed = s.sockfd ∷ s.closed } else s

-- `~ListenSockTool`, then `~BaseSock`; neither resets `sock_is_open_`.
unfoldable pub destroy_listen_sock : ListenSock → ListenSock
destroy_listen_sock s = close_if_open (close_if_open s)

destroy_open :
    (s : ListenSock)
    → s.sock_is_open ≡ true
    → (destroy_listen_sock s).closed ≡ s.sockfd ∷ s.sockfd ∷ s.closed
unfolding destroy_listen_sock
destroy_open s e = ground arith

destroy_shut : (s : ListenSock) → s.sock_is_open ≡ false → (destroy_listen_sock s).closed ≡ s.closed
unfolding destroy_listen_sock
destroy_shut s e = ground arith

-- The socket after `open_sock`, whether it is bound or not
abbrev opened : ListenSock → ℕ → Bool → ListenSock
opened s fd bound = record s {
  ip = if s.has_ip then s.ip else codes "127.0.0.1";
  port = if s.has_port then s.port else server_port;
  sockfd = pos fd;
  sock_is_open = if bound then true else s.sock_is_open;
}

abbrev bind_status : Bool → OpenStatus
bind_status true = ok
bind_status false = bind

open_sock-opened :
    (calls : SockCalls) (s : ListenSock) (fd : ℕ)
    → calls.socket ≡ some fd
    → (bound : Bool) × (open_sock calls s ≡ (opened s fd bound, bind_status bound))
unfolding open_sock
open_sock-opened calls s fd e =
    let ip = if s.has_ip then s.ip else codes "127.0.0.1" in
    let port = if s.has_port then s.port else server_port in
    elim (Bool-cases (calls.binds ip port)) [
      | inl b ↦ (true, rw (e, open_sock) (rw (b, open_sock) refl))
      | inr b ↦ (false, rw (e, open_sock) (rw (b, open_sock) refl))
    ]

-- The whole life of a listening socket, opened with any calls: one that is bound is closed twice, so
-- that the second close may hit a descriptor that another thread was given in between, and one that
-- could not be bound is not closed at all.
pub listen_sock_life :
    (calls : SockCalls) (s : ListenSock)
    → s.sock_is_open ≡ false
    → (fd : ℕ) → calls.socket ≡ some fd
    → let (s', status) = open_sock calls s in
      ((status ≡ ok) × ((destroy_listen_sock s').closed ≡ pos fd ∷ pos fd ∷ s.closed))
      ⊎ ((status ≡ bind) × ((destroy_listen_sock s').closed ≡ s.closed))
listen_sock_life calls s shut fd e = in_case (open_sock-opened calls s fd e)
  where
    in_case :
        (bound : Bool) × (open_sock calls s ≡ (opened s fd bound, bind_status bound))
        → (((open_sock calls s).1 ≡ ok)
            × ((destroy_listen_sock (open_sock calls s).0).closed ≡ pos fd ∷ pos fd ∷ s.closed))
          ⊎ (((open_sock calls s).1 ≡ bind)
              × ((destroy_listen_sock (open_sock calls s).0).closed ≡ s.closed))
    in_case (true, p) = inl (
      ap (λ x. x.1) p,
      ap (λ x. (destroy_listen_sock x.0).closed) p ∙ destroy_open (opened s fd true) refl,
    )
    in_case (false, p) = inr (
      ap (λ x. x.1) p,
      ap (λ x. (destroy_listen_sock x.0).closed) p ∙ destroy_shut (opened s fd false) shut,
    )
