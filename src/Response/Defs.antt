-- ===== src/Response/Defs.antt =====
-- libnet/net_httpresponse.h. The file system and the CGI program are a record of functions, the
-- environment's. The child's side of `fork` is left out: it ends in `execl`.
use c_s_online_library.Buffer.Defs.{DataBuffer, fresh, append, append_string, retrieve}
use c_s_online_library.Common.{
  ℕ, Bool, false, not, ◌&&◌, ◌||◌, Option, none, some, List, [], ◌∷◌, ◌++◌, Bytes, codes, crlf,
  bytes_eq, length, ◌==◌, if◌then◌else◌, ℤ, pos, negsuc, to_int, int_eq, to_string,
}

-- `execCond`
pub record ExecCond : Type 0 where
  pub status_code : ℕ
  pub path : Bytes
  pub query : Bytes
  pub keep_alive : Bool
  pub is_cgi : Bool
  pub length : ℤ

pub record GHttpResponse : Type 0 where
  pub status_code : ℕ
  pub path : Bytes
  pub keep_alive : Bool
  pub cgi : Bool
  pub con_length : ℤ
  pub query : Bytes

abbrev pub new_response : ExecCond → GHttpResponse
new_response cond = record {
  status_code = cond.status_code;
  path = cond.path;
  keep_alive = cond.keep_alive;
  cgi = cond.is_cgi;
  con_length = cond.length;
  query = cond.query;
}

-- The bits of `st_mode` that are looked at, and `st_size`.
pub record Stat : Type 0 where
  pub regular : Bool
  pub directory : Bool
  pub user_read : Bool
  pub user_exec : Bool
  pub group_exec : Bool
  pub other_exec : Bool
  pub size : ℤ

-- `fork` fails, or the parent's write to the pipe returns a number of bytes, or -1, and the
-- program's output is what is read from the other pipe up to its end.
pub data CgiRun : Type 0 where
  fork_failed : CgiRun
  ran : ℤ → Bytes → CgiRun

pub record Host : Type 0 where
  pub stat : Bytes → Option Stat
  pub map_file : Bytes → ℕ → Option Bytes
  pub run_cgi : Bytes → Bytes → CgiRun

-- `mStatusCodeToMessage`
unfoldable pub message_of : ℕ → Option Bytes
message_of code =
    if code == 200
    then some (codes "OK")
    else if code == 400
    then some (codes "Bad Request")
    else if code == 404
    then some (codes "Not Found")
    else if code == 500
    then some (codes "Internal Server Error")
    else none

-- `suffixToType`
abbrev pub suffix_to_type : List (Bytes × Bytes)
suffix_to_type =
    (codes ".html", codes "text/html")
    ∷ (codes ".xml", codes "text/xml")
    ∷ (codes ".xhtml", codes "application/xhtml+xml")
    ∷ (codes ".txt", codes "text/plain")
    ∷ (codes ".rtf", codes "application/rtf")
    ∷ (codes ".pdf", codes "application/pdf")
    ∷ (codes ".word", codes "application/nsword")
    ∷ (codes ".png", codes "image/png")
    ∷ (codes ".gif", codes "image/gif")
    ∷ (codes ".jpg", codes "image/jpeg")
    ∷ (codes ".jpeg", codes "image/jpeg")
    ∷ (codes ".au", codes "audio/basic")
    ∷ (codes ".mpeg", codes "video/mpeg")
    ∷ (codes ".mpg", codes "video/mpeg")
    ∷ (codes ".avi", codes "video/x-msvideo")
    ∷ (codes ".gz", codes "application/x-gzip")
    ∷ (codes ".tar", codes "application/x-tar")
    ∷ (codes ".css", codes "text/css")
    ∷ []

unfoldable pub find_type : Bytes → List (Bytes × Bytes) → Option Bytes
find_type suffix [] = none
find_type suffix ((s, t) ∷ table) = if bytes_eq s suffix then some t else find_type suffix table

-- `mPath.substr(mPath.find_last_of('.'))`, if there is a dot
unfoldable pub suffix_of : Bytes → Option Bytes
suffix_of [] = none
suffix_of (x ∷ xs) = elim (suffix_of xs) [
  | none ↦ if x == b'.' then some (x ∷ xs) else none
  | some s ↦ some s
]

abbrev default_type : Bool → Bytes
default_type cgi = if cgi then codes "text/html" else codes "text/plain"

-- `__getFileType`
unfoldable pub get_file_type : GHttpResponse → Bytes
get_file_type r = elim (suffix_of r.path) [
  | none ↦ default_type r.cgi
  | some s ↦ elim (find_type s suffix_to_type) [ none ↦ default_type r.cgi | some t ↦ t ]
]

-- `output.Append(text)`
abbrev pub put : DataBuffer → Bytes → DataBuffer
put out text = (append_string out text).0

abbrev status_line : ℕ → Bytes → Bytes
status_line code message = (codes "HTTP/1.1 " ++ (to_string code ++ (codes " " ++ message))) ++ crlf

-- The page of `doErrorResponse`
abbrev pub error_page : ℕ → Bytes → Bytes → Bytes
error_page code message text =
    codes "<html><title>server Error</title>"
    ++ (codes "<body bgcolor=\"ffffff\">"
        ++ (to_string code
            ++ (codes " : "
                ++ (message
                    ++ (codes "\n"
                        ++ (codes "<p>"
                            ++ (text
                                ++ (codes "</p>"
                                    ++ codes "<hr><em>web server</em></body></html>"))))))))

-- `doErrorResponse`: nothing for a code without a message.
unfoldable pub do_error_response : GHttpResponse → DataBuffer → Bytes → DataBuffer
do_error_response r out text = elim (message_of r.status_code) [
  | none ↦ out
  | some message ↦
      let body = error_page r.status_code message text in
      let o1 = put out (status_line r.status_code message) in
      let o2 = put o1 (codes "Server: gHTTP" ++ crlf) in
      let o3 = put o2 (codes "Content-Type: text/html; charset=utf-8" ++ crlf) in
      let o4 = put o3 (codes "Connection: close" ++ crlf) in
      let o5 = put o4 (codes "Content-Length: " ++ (to_string (length body) ++ (crlf ++ crlf))) in
      put o5 body
]

-- The status line and the header fields, as both `doCgiResponse` and `doStaticResponse` write them.
unfoldable pub put_head : GHttpResponse → DataBuffer → Bytes → ℕ → DataBuffer
put_head r out message size =
    let o1 = put out (status_line r.status_code message) in
    let o2 =
      if r.keep_alive
      then put (put o1 (codes "Connection: Keep-Alive" ++ crlf))
          ((codes "Keep-Alive: timeout=" ++ to_string 500) ++ crlf)
      else put o1 (codes "Connection: close" ++ crlf) in
    let o3 =
      put o2 ((codes "Content-type: " ++ (get_file_type r ++ codes ";charset=utf-8")) ++ crlf) in
    let o4 = put o3 ((codes "Content-length: " ++ to_string size) ++ crlf) in
    let o5 = put o4 (codes "Server: gHTTP" ++ crlf) in put o5 crlf

-- `doStaticResponse`; the size is the `int` of `Append` for the body.
unfoldable pub do_static_response : Host → GHttpResponse → DataBuffer → ℤ → DataBuffer
do_static_response host r out (negsuc n) = out
do_static_response host r out (pos size) = elim (message_of r.status_code) [
  | none ↦ do_error_response (record r { status_code = 400 }) out (codes "UnKnow status code")
  | some message ↦
      let o = put_head r out message size in
      elim (host.map_file r.path size) [
        | none ↦
            do_error_response (record r { status_code = 404 }) (retrieve o)
              (codes "server can't find the file")
        | some text ↦ (append o (some text) (to_int size)).0
      ]
]

-- `n <= 0` on a `size_t`: -1 is not.
abbrev pub wrote_nothing : ℤ → Bool
wrote_nothing (pos n) = n == 0
wrote_nothing (negsuc n) = false

-- `doCgiResponse` behind the fork
unfoldable pub respond_run : GHttpResponse → DataBuffer → CgiRun → Option DataBuffer
respond_run r out fork_failed = some (
    do_error_response (record r { status_code = 500 }) out
      (codes "The server is temporarily unavailable"))
respond_run r out (ran n text) =
    if wrote_nothing n then some out else elim (message_of r.status_code) [
      | none ↦ none
      | some message ↦ some (put (put_head r out message (length text)) text)
    ]

-- `doCgiResponse` in the parent; `none` is the message of a code that has none.
unfoldable pub do_cgi_response : Host → GHttpResponse → DataBuffer → Option DataBuffer
do_cgi_response host r out =
    if not (int_eq r.con_length (to_int (length r.query)))
    then some out
    else respond_run r out (host.run_cgi r.path r.query)

-- `makeResponse` behind the calls of stat
unfoldable pub make_file_response : Host → GHttpResponse → Stat → Option DataBuffer
make_file_response host r st =
    if not (st.regular || not st.user_read)
    then some (
        do_error_response (record r { status_code = 403 }) fresh
          (codes "server can't read the file"))
    else let path = if st.directory then r.path ++ codes "/index.html" else r.path in
      let exec = not st.directory && (st.user_exec || st.group_exec || st.other_exec) in
      let r' = record r { path = path; cgi = r.cgi || exec } in
      if r.cgi || exec
      then do_cgi_response host r' fresh
      else some (do_static_response host r' fresh st.size)

-- `makeResponse`
unfoldable pub make_response : Host → GHttpResponse → Option DataBuffer
make_response host r =
    if r.status_code == 400
    then some (do_error_response r fresh (codes "server can't prase the request"))
    else elim (host.stat r.path) [
      | none ↦ some (
          do_error_response (record r { status_code = 404 }) fresh
            (codes "server can't find the file"))
      | some st ↦ make_file_response host r st
    ]
