-- ===== src/Server/Hazards.antt =====
-- libnet/net_httpserver.h: states of the server from which a handler cannot go on.
use c_s_online_library.Buffer.Defs.{DataBuffer}
use c_s_online_library.Buffer.Socket.{Read}
use c_s_online_library.Common.{
  ℕ, ◌≡◌, ◌≢◌, refl, sym, subst, ap, true, none, some, List, ◌∷◌, arith, pos, int_eq,
}
use c_s_online_library.Request.Defs.{NetHttpRequest, got_all}
use c_s_online_library.Request.Hang.{parse_request-got_all}
use c_s_online_library.Request.Parse.{parse_request}
use c_s_online_library.Server.Defs.{
  NetHttpServer, forget_timer, close_connection, find_request, returns, faults, out_of_fuel,
  write_back,
}
use c_s_online_library.Server.Handlers.{Answers, after_read, after_parse, do_request, do_response}
use c_s_online_library.Server.Loop.{fire, pop_timer}
use c_s_online_library.Timer.Defs.{NetTimer, is_deleted, pop}
use c_s_online_library.Timer.Flags.{del_timer-dangling}

-- Input for a finished request that was not reset: whatever the fuel, `__doRequest` does not return.
pub after_read-got_all :
    (a : Answers) (fuel : ℕ) (s : NetHttpServer) (req : NetHttpRequest) (b : DataBuffer) (n e : ℕ)
    → req.state ≡ got_all
    → n ≢ 0
    → after_read a fuel (s, req) (Read.returned b (pos n) e) ≡ out_of_fuel
unfolding after_read int_eq
after_read-got_all a fuel s req b n e h more =
    let stuck : after_parse a s (parse_request fuel (record req { in_buff = b })) ≡ out_of_fuel =
      rw (parse_request-got_all fuel (record req { in_buff = b }) h) (unfold after_parse in refl) in
    ground (arith, stuck)

-- The request points to a freed timer: `__doRequest` and `__doResponse` use it at once.
pub handlers_dangling :
    (a : Answers) (fuel : ℕ) (s : NetHttpServer) (req : NetHttpRequest) (p : ℕ)
    → req.timer ≡ some p
    → is_deleted p s.timers.time_queue ≡ none
    → (do_request a fuel (s, req) ≡ faults) × (do_response a (s, req) ≡ faults)
unfolding do_request do_response forget_timer
handlers_dangling a fuel s req p e gone =
    let d = del_timer-dangling s.timers req p e gone in (rw d, rw d)

close_connection_working :
    (s : NetHttpServer) (req : NetHttpRequest)
    → req.working ≡ true
    → close_connection (s, req) ≡ returns (write_back (s, req))
unfolding close_connection
close_connection_working s req busy = ground arith

-- The race of the event loop with a worker. A request that is marked as working, and whose task no
-- worker has started, still has its timer. If that timer expires now, its callback does nothing,
-- the timer is freed all the same, and the handler of the request then uses it.
pub fire_while_working :
    (a : Answers) (fuel : ℕ) (s : NetHttpServer) (t : NetTimer) (rest : List NetTimer)
    (req : NetHttpRequest)
    → s.timers.time_queue ≡ t ∷ rest
    → find_request t.callback s.requests ≡ some req
    → req.working ≡ true
    → req.timer ≡ some t.name
    → is_deleted t.name rest ≡ none
    → (s' : NetHttpServer) × (fire t s ≡ returns s')
      × (s'.timers.time_queue ≡ rest)
      × (do_request a fuel (s', req) ≡ faults)
unfolding fire pop_timer write_back
fire_while_working a fuel s t rest req q found busy pointer unique = (
  after,
  rw (found, fire) (rw (close_connection_working s req busy) refl),
  ap pop q,
  (handlers_dangling a fuel after req t.name pointer
      (subst (λ l. is_deleted t.name (pop l) ≡ none) (sym q) unique)).0,
)
  where
    after : NetHttpServer
    after = pop_timer (write_back (s, req))
