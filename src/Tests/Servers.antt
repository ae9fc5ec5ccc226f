-- ===== src/Tests/Servers.antt =====
-- libnet/net_httpserver.h on concrete input: a connection from its start to the response on the wire.
use c_s_online_library.Buffer.Socket.{eof, ReadOutcome, chunk, failed, eagain, wrote}
use c_s_online_library.Common.{
  ℕ, ◌<◌, ◌^◌, ◌⊎◌, ◌++◌, crlf, ◌≡◌, refl, true, false, none, some, List, [], ◌∷◌, All, Bytes,
  codes, length, arith, pos, to_string, bytes_eq, All,
}
use c_s_online_library.Request.Defs.{
  method_name, NetHttpRequest, new_request, http1_1, get, keep_alive, get_header, find_header,
  store_header,
}
use c_s_online_library.Request.Render.{Head, IsHead}
use c_s_online_library.Response.Defs.{Host, Stat, fork_failed, get_file_type, suffix_of, find_type}
use c_s_online_library.Response.File.{IsFile, page}
use c_s_online_library.Server.Always.{QuietlyServed-timers, QuietlyServed-expires}
use c_s_online_library.Server.Defs.{
  NetHttpServer, started, in_once, listens, on_request, find_request, returns, accept_connection,
  start_timer, write_back, put_request,
}
use c_s_online_library.Server.Gone.{QuietlyServed-closed}
use c_s_online_library.Server.Handlers.{Answers}
use c_s_online_library.Server.Link.{live_callback}
use c_s_online_library.Server.Loop.{
  handle_event, handle_connection, execute, handle_expire_timers, run_task,
}
use c_s_online_library.Server.Page.{Asks, answer_of}
use c_s_online_library.Server.Reach.{IsQuiet, QuietlyServed, begins, goes_on, accepts, events}
use c_s_online_library.Server.Serve.{QuietlyServed-page}
use c_s_online_library.Timer.Order.{NotDue}
use c_s_online_library.Timer.Defs.{TimerManager, push, del_timer, add_timer}

abbrev client : NetHttpRequest
client = record (new_request 7) { timer = some 0 }

-- A client is there.
abbrev connected : NetHttpServer
connected = record (started 3) {
  requests = client ∷ [];
  timers = record {
    time_queue = record { name = 0; expire_time = 500000000; callback = 7; deleted = false } ∷ [];
    next_name = 1;
  };
  interest = (7, in_once) ∷ (3, listens) ∷ [];
}

-- Its first bytes are there.
abbrev working : NetHttpRequest
working = record client { working = true }

abbrev asked : NetHttpServer
asked = record connected { requests = working ∷ []; tasks = on_request 7 ∷ [] }

connected-QuietlyServed : QuietlyServed 3 connected
unfolding accept_connection start_timer add_timer del_timer push find_request
connected-QuietlyServed = goes_on begins (accepts 0 7 refl refl)

asked-QuietlyServed : QuietlyServed 3 asked
unfolding handle_event handle_connection execute write_back put_request find_request
asked-QuietlyServed = goes_on connected-QuietlyServed (events 0 7 1 client refl refl tt refl)

there : find_request 7 (working ∷ []) ≡ some working
unfolding find_request
there = refl

QuietlyServed-timers_example :
    ((working.timer ≡ none)
      ⊎ ((p : ℕ) × (working.timer ≡ some p) × (live_callback p asked.timers.time_queue ≡ some 7)))
    × ((m : TimerManager) × (del_timer asked.timers working
          ≡ some (m, record working { timer = none })))
QuietlyServed-timers_example = QuietlyServed-timers 3 7 asked working asked-QuietlyServed there

-- The client has sent nothing for half a second.
connected-IsQuiet : IsQuiet 600000000 connected
unfolding find_request
connected-IsQuiet = ((λ due live req found. idle_client req found), tt)
  where
    idle_client : (req : NetHttpRequest) → some client ≡ some req → req.working ≡ false
    idle_client req e = cc

QuietlyServed-expires_example :
    (s' : NetHttpServer) × (handle_expire_timers 600000000 connected ≡ returns s')
    × QuietlyServed 3 s'
    × All (NotDue 600000000) s'.timers.time_queue
QuietlyServed-expires_example =
    QuietlyServed-expires 3 600000000 connected connected-QuietlyServed connected-IsQuiet

-- "GET /a.txt HTTP/1.1", and a file of two bytes
abbrev head : Head
head = record { method = get; path = codes "/a.txt"; query = none; version = http1_1; headers = [] }

head-IsHead : IsHead head
head-IsHead = record {
  known = λ e. cc;
  versioned = λ e. cc;
  path_blank = omega arith;
  path_query = omega arith;
  path_break = omega arith;
  query_blank = tt;
  query_break = tt;
  headers_fit = tt;
}

abbrev entry : Stat
entry = record {
  regular = true;
  directory = false;
  user_read = true;
  user_exec = false;
  group_exec = false;
  other_exec = false;
  size = pos 2;
}

abbrev host : Host
host = record {
  stat = λ p. some entry;
  map_file = λ p n. some (codes "hi");
  run_cgi = λ p q. fork_failed;
}

host-IsFile : (path : Bytes) → IsFile host path (codes "hi")
host-IsFile path = record {
  entry = entry;
  found = refl;
  regular = refl;
  no_directory = refl;
  user_exec = refl;
  group_exec = refl;
  other_exec = refl;
  size = refl;
  mapped = refl;
}

abbrev chunks_ : List ReadOutcome
chunks_ = chunk b'G' (codes "ET /a.t") ∷ chunk b'x' (codes "t HTTP/1.1" ++ (crlf ++ crlf)) ∷ []

-- In two chunks; and the socket takes the response at once.
abbrev reading : Answers
reading = record {
  now = 0;
  errno = 0;
  reads = chunks_ ++ failed eagain ∷ [];
  writes = [];
  host = host;
  unset = pos 0;
}

abbrev writing : Answers
writing = record reading { reads = []; writes = wrote 100 ∷ wrote 44 ∷ [] }

abbrev out : Bytes
out = page (answer_of reading working head) (codes "hi")

page_below : length (page (answer_of reading working head) (codes "hi")) < 2 ^ 31
unfolding to_string keep_alive bytes_eq get_header find_header get_file_type suffix_of find_type
    store_header
page_below = omega arith

asks : Asks reading working head [] (codes "hi") chunks_ []
unfolding method_name
asks = record {
  ready = refl;
  all_read = refl;
  all_sent = refl;
  well_formed = head-IsHead;
  no_body = refl;
  no_query = refl;
  file = host-IsFile _;
  below = page_below;
  reads = refl;
  chunks = (tt, (tt, tt));
  arrives = refl;
  fits = omega arith;
}

size : length out ≡ 144
unfolding get_file_type suffix_of find_type bytes_eq keep_alive get_header find_header to_string
    store_header
size = refl

QuietlyServed-page_example :
    (s1 : NetHttpServer) × (s2 : NetHttpServer) × (s3 : NetHttpServer) × (run_task reading 2 asked
      ≡ returns s1)
    × (handle_event 0 [] (7, 4) s1 ≡ returns s2)
    × (run_task writing 2 s2 ≡ returns s3)
    × QuietlyServed 3 s3
    × (s3.wire ≡ (7, out) ∷ [])
QuietlyServed-page_example =
    QuietlyServed-page 3 2 0 7 44 reading writing asked working head [] (codes "hi") chunks_ []
      (100 ∷ []) [] asked-QuietlyServed refl there refl asks (omega arith) refl
      (omega (arith, size)) (omega arith) (omega arith)

-- The client has closed its side behind the first bytes.
abbrev leaving : Answers
leaving = record reading { reads = chunk b'G' (codes "ET /a.t") ∷ eof ∷ [] }

QuietlyServed-closed_example :
    (s' : NetHttpServer) × (run_task leaving 2 asked ≡ returns s')
    × QuietlyServed 3 s'
    × (find_request 7 s'.requests ≡ none)
    × (s'.wire ≡ [])
QuietlyServed-closed_example =
    QuietlyServed-closed 3 2 7 leaving asked [] (chunk b'G' (codes "ET /a.t") ∷ []) []
      asked-QuietlyServed refl (tt, tt) refl (λ e. omega (arith, e))
