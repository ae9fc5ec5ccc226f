-- ===== src/Tests/Timers.antt =====
-- libnet/net_timer.h and libnet/net_httpserver.h on concrete input.
use c_s_online_library.Common.{
  ℕ, ◌≡◌, refl, true, false, to_int, none, some, List, [], ◌∷◌, arith, pos,
}
use c_s_online_library.Request.Defs.{NetHttpRequest, new_request, got_all}
use c_s_online_library.Response.Defs.{Host, fork_failed}
use c_s_online_library.Server.Defs.{
  NetHttpServer, started, find_request, returns, faults, close_connection, forget_timer,
  delete_request, del_epoll_fd,
}
use c_s_online_library.Server.Handlers.{Answers, do_request}
use c_s_online_library.Server.Hazards.{fire_while_working}
use c_s_online_library.Server.Loop.{fire, pop_timer, expire_loop, handle_expire_timers}
use c_s_online_library.Timer.Defs.{
  NetTimer, TimerManager, is_deleted, set_del, del_timer, is_due, next_expiry, get_next_expire_time,
  remaining_ms, narrow, next_wait, drop_deleted,
}
use c_s_online_library.Timer.Order.{IsOrdered, Meets, next_expiry-Meets}

abbrev timer : ℕ → ℕ → NetTimer
timer n t = record { name = n; expire_time = t; callback = 7; deleted = false }

-- Two timers that expire 5 and 9 ms after the clock's start.
abbrev queue : List NetTimer
queue = timer 0 5000000 ∷ timer 1 9000000 ∷ []

abbrev manager : TimerManager
manager = record { time_queue = queue; next_name = 2 }

queue-IsOrdered : IsOrdered queue
queue-IsOrdered = omega arith

next_expiry-Meets_example : Meets 4500000 queue (next_expiry queue 4500000)
next_expiry-Meets_example = next_expiry-Meets queue 4500000 queue-IsOrdered

get_next_expire_time_test : (get_next_expire_time manager 1000000).1 ≡ pos 4
unfolding get_next_expire_time drop_deleted next_wait narrow to_int remaining_ms
get_next_expire_time_test = refl

-- A request with the first timer.
abbrev client : NetHttpRequest
client = record (new_request 7) { timer = some 0 }

live : is_deleted 0 queue ≡ some false
unfolding is_deleted
live = refl

abbrev host : Host
host = record { stat = λ p. none; map_file = λ p n. none; run_cgi = λ p q. fork_failed }

abbrev world : Answers
world = record { now = 0; errno = 0; reads = []; writes = []; host = host; unset = pos 0 }

abbrev answered : NetHttpRequest
answered = record (new_request 7) { state = got_all }

abbrev busy : NetHttpRequest
busy = record client { working = true }

abbrev serving : NetHttpServer
serving = record (started 3) { requests = busy ∷ []; timers = manager }

found : find_request 7 (busy ∷ []) ≡ some busy
unfolding find_request
found = refl

unique : is_deleted 0 (timer 1 9000000 ∷ []) ≡ none
unfolding is_deleted
unique = refl

fire_while_working_example :
    (s' : NetHttpServer) × (fire (timer 0 5000000) serving ≡ returns s')
    × (s'.timers.time_queue ≡ timer 1 9000000 ∷ [])
    × (do_request world 100 (s', busy) ≡ faults)
fire_while_working_example =
    fire_while_working world 100 serving (timer 0 5000000) (timer 1 9000000 ∷ []) busy refl found
      refl refl unique

-- Two clients, the timer of the one forgotten in the queue, and the other's that is due
abbrev waiting : NetHttpServer
waiting = record (started 3) {
  requests = record (new_request 8) { timer = some 1 } ∷ new_request 7 ∷ [];
  timers = record manager {
    time_queue =
        record { name = 0; expire_time = 5000000; callback = 7; deleted = true }
        ∷ record { name = 1; expire_time = 9000000; callback = 8; deleted = false }
        ∷ [];
  };
}

swept :
    handle_expire_timers 9500000 waiting
    ≡ returns (record (started 3) {
      requests = new_request 7 ∷ [];
      timers = record manager { time_queue = [] };
    })
unfolding handle_expire_timers expire_loop next_expiry is_due remaining_ms fire pop_timer
    find_request close_connection forget_timer del_timer is_deleted set_del delete_request
    del_epoll_fd
swept = refl
