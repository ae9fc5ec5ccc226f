-- ===== src/Server/Handlers.antt =====
-- libnet/net_httpserver.h: `__doRequest` and `__doResponse`. Each runs to its end on the answers of
-- the kernel that it is given, with `fuel` rounds for the parser.
use c_s_online_library.Buffer.Socket.{ReadOutcome, WriteOutcome, Read, Write, eagain}
use c_s_online_library.Common.{
  ℤ, ℕ, true, false, not, ◌&&◌, List, [], ◌∷◌, ◌==◌, if◌then◌else◌, pos, negsuc, is_negative,
  int_eq,
}
use c_s_online_library.Request.Defs.{
  NetHttpRequest, read_buff, write_buff, write_able_bytes, append_out_buffer, keep_alive,
  get_cgi_length, parse_finish, reset_parse,
}
use c_s_online_library.Request.Parse.{Outcome, running, done, undefined, parse_request}
use c_s_online_library.Response.Defs.{ExecCond, Host, new_response, make_response}
use c_s_online_library.Server.Defs.{
  NetHttpServer, Interest, in_once, in_out_once, Handled, Run, returns, faults, out_of_fuel,
  out_of_answers, must, ◌>>=◌, write_back, forget_timer, start_timer, rearm, set_no_working,
  close_connection,
}

-- What the environment answers during one handler, and what a variable holds that is not set.
pub record Answers : Type 0 where
  pub now : ℕ
  pub errno : ℕ
  pub reads : List ReadOutcome
  pub writes : List WriteOutcome
  pub host : Host
  pub unset : ℤ

-- `setNoWorking`, then `__closeConnection`
abbrev pub shut : Handled → Run NetHttpServer
shut h = close_connection (set_no_working h)

-- ModEpollFd, `setNoWorking` and a new timer, as four branches end.
abbrev pub wait_for : Interest → ℕ → Handled → Run NetHttpServer
wait_for i now h = start_timer now (set_no_working (rearm i h)) >>= λ h'. returns (write_back h')

abbrev bad_request : ExecCond
bad_request = record {
  status_code = 400;
  path = [];
  query = [];
  keep_alive = false;
  is_cgi = false;
  length = pos 0;
}

-- The `execCond` of a finished request.
abbrev pub ok_request : ℤ → NetHttpRequest → ExecCond
ok_request unset req = record {
  status_code = 200;
  path = req.path;
  query = req.query;
  keep_alive = keep_alive req;
  is_cgi = req.cgi;
  length = get_cgi_length unset req;
}

-- `req->writeBuff(…)`: the bytes that the socket took, and the result. A negative result would
-- send the caller to `writeErrno`, which nothing has set.
unfoldable pub send : List WriteOutcome → Handled → Run (Handled × ℕ)
send writes (s, req) =
    let (req', w) = write_buff req writes in
    elim w [
      | Write.returned r sent ↦ elim r [
        | pos n ↦ returns ((record s { wire = (req.fd, sent) ∷ s.wire }, req'), n)
        | negsuc n ↦ faults
      ]
      | Write.pending sent ↦ out_of_answers
      | Write.beside sent ↦ faults
      | Write.unset ↦ faults
    ]

-- A request line that does not parse: 400, and the end of the connection.
unfoldable pub answer_bad : Answers → Handled → Run NetHttpServer
answer_bad a (s, req) = do
  out ← must (make_response a.host (new_response bad_request))
  (h, n) ← send a.writes (s, append_out_buffer req out)
  shut h

unfoldable pub answer_ok : Answers → Handled → Run NetHttpServer
answer_ok a (s, req) = do
  out ← must (make_response a.host (new_response (ok_request a.unset req)))
  returns (write_back (rearm in_out_once (s, append_out_buffer req out)))

-- `__doRequest` behind `parseRequest`. A parse that wants more leaves the request as it is.
unfoldable pub after_parse : Answers → NetHttpServer → Outcome → Run NetHttpServer
after_parse a s (running req) = out_of_fuel
after_parse a s undefined = faults
after_parse a s (done false req) = answer_bad a (s, req)
after_parse a s (done true req) =
    if parse_finish req then answer_ok a (s, req) else returns (write_back (s, req))

-- `__doRequest` behind `readBuff`
unfoldable pub after_read : Answers → ℕ → Handled → Read → Run NetHttpServer
after_read a fuel (s, req) (Read.pending b e) = out_of_answers
after_read a fuel (s, req) (Read.returned b size e) =
    let req' = record req { in_buff = b } in
    if int_eq size (pos 0)
    then shut (s, req')
    else if is_negative size && not (e == eagain)
    then shut (s, req')
    else if is_negative size && e == eagain
    then wait_for in_once a.now (s, req')
    else after_parse a s (parse_request fuel req')

-- `__doRequest`
unfoldable pub do_request : Answers → ℕ → Handled → Run NetHttpServer
do_request a fuel h = do
  (s, req) ← forget_timer h
  after_read a fuel (s, req) (read_buff req a.errno a.reads)

-- `__doResponse` behind `writeBuff`, which returned `n` of `to_write`
unfoldable pub after_write : ℕ → ℤ → ℕ → Handled → Run NetHttpServer
after_write now to_write n (s, req) =
    if int_eq (pos n) to_write
    then (if keep_alive req then wait_for in_once now (s, reset_parse req) else shut (s, req))
    else wait_for in_out_once now (s, req)

-- `__doResponse`
unfoldable pub do_response : Answers → Handled → Run NetHttpServer
do_response a h = do
  (s, req) ← forget_timer h
  (let nothing = wait_for in_once a.now (s, req) in
      let written =
        send a.writes (s, req) >>= λ x. after_write a.now (write_able_bytes req) x.1 x.0 in
      if int_eq (write_able_bytes req) (pos 0) then nothing else written)
