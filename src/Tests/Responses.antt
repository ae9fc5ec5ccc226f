-- ===== src/Tests/Responses.antt =====
-- libnet/net_httpresponse.h on concrete input.
use c_s_online_library.Buffer.Defs.{DataBuffer, fresh}
use c_s_online_library.Common.{
  length, ◌<◌, ◌^◌, to_string, bytes_eq, ◌≡◌, refl, true, false, some, [], ◌++◌, codes, crlf, arith,
  pos, int_eq, to_int,
}
use c_s_online_library.Response.Defs.{
  GHttpResponse, Stat, Host, ran, message_of, get_file_type, suffix_of, find_type,
  do_static_response, do_cgi_response,
}
use c_s_online_library.Response.Framing.{body_of, lines_text, head_lines, do_static_response_framed}
use c_s_online_library.Response.Pages.{do_cgi_response_framed}

-- A directory that its owner may read.
abbrev directory : Stat
directory = record {
  regular = false;
  directory = true;
  user_read = true;
  user_exec = true;
  group_exec = false;
  other_exec = false;
  size = pos 4096;
}

abbrev host : Host
host = record {
  stat = λ p. some directory;
  map_file = λ p n. some (codes "<html>");
  run_cgi = λ p q. ran (pos 4) (codes "done");
}

abbrev wanted : GHttpResponse
wanted = record {
  status_code = 200;
  path = codes "/www/a.html";
  keep_alive = true;
  cgi = false;
  con_length = pos 0;
  query = [];
}

has_message : message_of 200 ≡ some (codes "OK")
unfolding message_of
has_message = refl

static_below :
    length (lines_text (head_lines wanted (codes "OK") 6) (crlf ++ codes "<html>")) < 2 ^ 31
unfolding get_file_type suffix_of find_type to_string bytes_eq
static_below = omega arith

do_static_response_framed_example :
    ((do_static_response host wanted fresh (pos 6)).char_vec
      ≡ lines_text (head_lines wanted (codes "OK") 6) (crlf ++ codes "<html>"))
    × (body_of (do_static_response host wanted fresh (pos 6)).char_vec ≡ codes "<html>")
do_static_response_framed_example =
    do_static_response_framed host wanted 6 (codes "OK") (codes "<html>") has_message refl refl
      static_below

not_found_message : message_of 404 ≡ some (codes "Not Found")
unfolding message_of
not_found_message = refl

-- A program that is sent "name".
abbrev asked : GHttpResponse
asked = record wanted { con_length = pos 4; query = codes "name" }

cgi_below : length (lines_text (head_lines asked (codes "OK") 4) (crlf ++ codes "done")) < 2 ^ 31
unfolding get_file_type suffix_of find_type to_string bytes_eq
cgi_below = omega arith

no_query_left : int_eq (pos 4) (to_int 4) ≡ true
unfolding int_eq to_int
no_query_left = refl

do_cgi_response_framed_example :
    (out : DataBuffer) × (do_cgi_response host asked fresh ≡ some out)
    × (out.char_vec ≡ lines_text (head_lines asked (codes "OK") 4) (crlf ++ codes "done"))
    × (body_of out.char_vec ≡ codes "done")
do_cgi_response_framed_example =
    do_cgi_response_framed host asked (pos 4) (codes "OK") (codes "done") has_message no_query_left
      refl refl cgi_below
