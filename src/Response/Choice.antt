-- ===== src/Response/Choice.antt =====
-- libnet/net_httpresponse.h: `makeResponse` on every file and program.
use c_s_online_library.Buffer.Defs.{DataBuffer, fresh}
use c_s_online_library.Common.{
  ◌≡◌, refl, Bytes, true, false, some, Option-cases, Bool-cases, inl, inr, int_eq, to_int, length,
  not, ◌||◌, ◌&&◌, ◌==◌,
}
use c_s_online_library.Response.Defs.{
  GHttpResponse, Stat, Host, CgiRun, fork_failed, ran, message_of, do_error_response, wrote_nothing,
  respond_run, do_cgi_response, make_file_response, make_response,
}

-- What is no regular file and may be read by its owner, a directory for one, has an empty
-- response, not that of its index.html: it is taken for a 403, which has no message in the table.
pub make_response_forbidden :
    (host : Host) (r : GHttpResponse) (st : Stat)
    → r.status_code ≡ 200
    → host.stat r.path ≡ some st
    → st.regular ≡ false
    → st.user_read ≡ true
    → make_response host r ≡ some fresh
unfolding make_response make_file_response do_error_response message_of
make_response_forbidden host r st code found irregular readable =
    rw (code, make_response) (rw (found, make_response) (rw (irregular, readable) refl))

ran_returns :
    (r : GHttpResponse) (out : DataBuffer) (run : CgiRun) (message : Bytes)
    → message_of r.status_code ≡ some message
    → (out' : DataBuffer) × (respond_run r out run ≡ some out')
unfolding respond_run
ran_returns r out fork_failed message m = (_, refl)
ran_returns r out (ran n text) message m = elim (Bool-cases (wrote_nothing n)) [
  | inl e ↦ rw e (out, refl)
  | inr e ↦ rw (e, respond_run) (rw (m, respond_run) (_, refl))
]

cgi_returns :
    (host : Host) (r : GHttpResponse) (out : DataBuffer) (message : Bytes)
    → message_of r.status_code ≡ some message
    → (out' : DataBuffer) × (do_cgi_response host r out ≡ some out')
unfolding do_cgi_response
cgi_returns host r out message m =
    elim (Bool-cases (int_eq r.con_length (to_int (length r.query)))) [
      | inr e ↦ rw (e, do_cgi_response) (out, refl)
      | inl e ↦ rw (e, do_cgi_response) (ran_returns r out (host.run_cgi r.path r.query) message m)
    ]

file_returns :
    (host : Host) (r : GHttpResponse) (st : Stat) (message : Bytes)
    → message_of r.status_code ≡ some message
    → (out : DataBuffer) × (make_file_response host r st ≡ some out)
unfolding make_file_response
file_returns host r st message m =
    let exec = not st.directory && (st.user_exec || st.group_exec || st.other_exec) in
    elim (Bool-cases (st.regular || not st.user_read)) [
      | inr e ↦ rw (e, make_file_response) (_, refl)
      | inl e ↦ elim (Bool-cases (r.cgi || exec)) [
        | inr f ↦ rw (e, make_file_response) (rw (f, make_file_response) (_, refl))
        | inl f ↦
            rw (e, make_file_response)
              (rw (f, make_file_response) (cgi_returns host _ fresh message m))
      ]
    ]

-- For a code with a message, 200 for one, `makeResponse` returns a response, whatever the file
-- system and the program do: it never reads the message of a code that has none.
make_response_returns :
    (host : Host) (r : GHttpResponse) (message : Bytes)
    → message_of r.status_code ≡ some message
    → (out : DataBuffer) × (make_response host r ≡ some out)
unfolding make_response
make_response_returns host r message m = elim (Bool-cases (r.status_code == 400)) [
  | inl e ↦ rw e (_, refl)
  | inr e ↦ elim (Option-cases (host.stat r.path)) [
    | inl n ↦ rw (e, make_response) (rw (n, make_response) (_, refl))
    | inr (st, f) ↦ rw (e, make_response) (rw (f, make_response) (file_returns host r st message m))
  ]
]
