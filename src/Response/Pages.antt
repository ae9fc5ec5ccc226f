-- ===== src/Response/Pages.antt =====
-- libnet/net_httpresponse.h: the output of `doCgiResponse` as a client reads it.
use c_s_online_library.Buffer.Defs.{DataBuffer, fresh}
use c_s_online_library.Common.{
  ◌<◌, ◌^◌, ◌≡◌, refl, ap, subst, ◌∙◌, true, false, some, ◌++◌, Bytes, crlf, All, length, arith, ℤ,
  int_eq, to_int,
}
use c_s_online_library.Response.Defs.{
  GHttpResponse, Host, CgiRun, ran, put, put_head, message_of, wrote_nothing, respond_run,
  do_cgi_response,
}
use c_s_online_library.Response.Framing.{
  body_of, lines_text, IsShort, lines_text-IsShort, body_of-lines_text, put-char_vec, head_lines,
  put_head_lines, TextLacks, message_of-Lacks, head_lines-IsLine, lines_text-append,
}

respond_run_text :
    (r : GHttpResponse) (n : ℤ) (message text : Bytes)
    → message_of r.status_code ≡ some message
    → wrote_nothing n ≡ false
    → respond_run r fresh (ran n text) ≡ some (put (put_head r fresh message (length text)) text)
unfolding respond_run
respond_run_text r n message text m w = rw (w, respond_run) (rw (m, respond_run) refl)

do_cgi_response_run :
    (host : Host) (r : GHttpResponse) (run : CgiRun)
    → int_eq r.con_length (to_int (length r.query)) ≡ true
    → host.run_cgi r.path r.query ≡ run
    → do_cgi_response host r fresh ≡ respond_run r fresh run
unfolding do_cgi_response
do_cgi_response_run host r run whole e = rw (whole, do_cgi_response) (rw (e, do_cgi_response) refl)

-- A CGI program that is given the whole query, of the length that the request declared, and that can
-- be written to, if only with the result -1: the output is the head's lines, an empty line and what
-- the program wrote, whose size the head declares, and a client that cuts the output at its first
-- empty line gets what the program wrote. Head and output together are below 2 GiB.
pub do_cgi_response_framed :
    (host : Host) (r : GHttpResponse) (n : ℤ) (message text : Bytes)
    → message_of r.status_code ≡ some message
    → int_eq r.con_length (to_int (length r.query)) ≡ true
    → host.run_cgi r.path r.query ≡ ran n text
    → wrote_nothing n ≡ false
    → length (lines_text (head_lines r message (length text)) (crlf ++ text)) < 2 ^ 31
    → (out : DataBuffer) × (do_cgi_response host r fresh ≡ some out)
      × (out.char_vec ≡ lines_text (head_lines r message (length text)) (crlf ++ text))
      × (body_of out.char_vec ≡ text)
do_cgi_response_framed host r n message text m whole e w total = (
  put (put_head r fresh message (length text)) text,
  do_cgi_response_run host r (ran n text) whole e ∙ respond_run_text r n message text m w,
  framed,
  ap body_of framed
      ∙ body_of-lines_text _ _ text (
          head_lines-IsLine r message (length text)
            (subst TextLacks m (message_of-Lacks r.status_code))),
)
  where
    parts : All IsShort (head_lines r message (length text)) × (length (crlf ++ text) < 2 ^ 31)
    parts = lines_text-IsShort (head_lines r message (length text)) (crlf ++ text) total

    below : length text < 2 ^ 31
    below = omega (arith, parts.1)

    framed :
        (put (put_head r fresh message (length text)) text).char_vec
        ≡ lines_text (head_lines r message (length text)) (crlf ++ text)
    framed =
        put-char_vec text below (put_head r fresh message (length text))
        ∙ ap (λ t. t ++ text) (put_head_lines r message (length text) parts.0)
        ∙ lines_text-append (head_lines r message (length text)) crlf text
