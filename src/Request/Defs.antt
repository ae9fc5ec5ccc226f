-- ===== src/Request/Defs.antt =====
-- libnet/net_httprequest.h: the request's fields, its enums and the methods beside the parser.
-- `mTimer` is the name of a timer in the timer manager's store; `mHeaders` is an association list.
use c_s_online_library.Buffer.Defs.{DataBuffer, fresh, append_buffer, data_size, clear}
use c_s_online_library.Buffer.Socket.{
  ReadOutcome, WriteOutcome, Read, Write, read_fd, write_to_sock,
}
use c_s_online_library.Common.{
  ℕ, ◌+◌, ◌*◌, ◌-◌, Bool, true, false, not, ◌&&◌, ◌||◌, Option, none, some, List, [], ◌∷◌, Bytes,
  codes, bytes_eq, length, leb, ltb, ◌%◌, ◌^◌, ◌==◌, if◌then◌else◌, ℤ, pos, negsuc, minus_one,
  to_int,
}

pub data ParseState : Type 0 where
  expect_request_line expect_headers expect_body got_all : ParseState

pub data HttpMethod : Type 0 where
  invalid get post head put delete : HttpMethod

pub data HttpVersion : Type 0 where
  un_known http1_0 http1_1 : HttpVersion

pub record NetHttpRequest : Type 0 where
  pub fd : ℕ
  pub in_buff : DataBuffer
  pub out_buff : DataBuffer
  pub working : Bool
  pub cgi : Bool
  pub timer : Option ℕ
  pub state : ParseState
  pub method : HttpMethod
  pub version : HttpVersion
  pub path : Bytes
  pub query : Bytes
  pub headers : List (Bytes × Bytes)

-- The constructor; the descriptor is not negative.
abbrev pub new_request : ℕ → NetHttpRequest
new_request fd = record {
  fd = fd;
  in_buff = fresh;
  out_buff = fresh;
  working = false;
  cgi = false;
  timer = none;
  state = expect_request_line;
  method = invalid;
  version = un_known;
  path = [];
  query = [];
  headers = [];
}

abbrev pub web_root : Bytes
web_root = codes "/home/ubuntu/wwwroot"

-- `mHeaders[key] = val`
unfoldable pub store_header : Bytes → Bytes → List (Bytes × Bytes) → List (Bytes × Bytes)
store_header k v [] = (k, v) ∷ []
store_header k v ((j, w) ∷ m) = if bytes_eq j k then (j, v) ∷ m else (j, w) ∷ store_header k v m

unfoldable pub find_header : Bytes → List (Bytes × Bytes) → Option Bytes
find_header k [] = none
find_header k ((j, w) ∷ m) = if bytes_eq j k then some w else find_header k m

-- `getHeader`: the empty string for a missing key
unfoldable pub get_header : NetHttpRequest → Bytes → Bytes
get_header r key = elim (find_header key r.headers) [ none ↦ [] | some v ↦ v ]

abbrev pub is_post : HttpMethod → Bool
is_post post = true
is_post _ = false

abbrev pub is_http1_1 : HttpVersion → Bool
is_http1_1 http1_1 = true
is_http1_1 _ = false

unfoldable pub keep_alive : NetHttpRequest → Bool
keep_alive r =
    let con = get_header r (codes "Connection") in
    bytes_eq con (codes "Keep-Alive")
    || (is_http1_1 r.version && not (bytes_eq con (codes "close")))

-- `getMethod`
unfoldable pub method_name : HttpMethod → Bytes
method_name invalid = []
method_name get = codes "GET"
method_name post = codes "POST"
method_name head = codes "HEAD"
method_name put = codes "PUT"
method_name delete = codes "DELETE"

-- isspace
abbrev is_space : ℕ → Bool
is_space c = c == 32 || (leb 9 c && leb c 13)

skip_space : Bytes → Bytes
skip_space [] = []
skip_space (x ∷ xs) = if is_space x then skip_space xs else x ∷ xs

digits_value : ℕ → Bytes → ℕ
digits_value acc [] = acc
digits_value acc (x ∷ xs) =
    let rest = digits_value (acc * 10 + (x - b'0')) xs in
    if leb b'0' x && leb x b'9' then rest else acc

abbrev minus : ℕ → ℤ
minus n = elim n [ ℕ.zero ↦ pos 0 | ℕ.suc m ↦ negsuc m ]

signed : Bytes → ℤ
unfolding digits_value
signed [] = pos 0
signed (x ∷ xs) =
    if x == b'-'
    then minus (digits_value 0 xs)
    else if x == b'+'
    then pos (digits_value 0 xs)
    else pos (digits_value 0 (x ∷ xs))

-- The result of strtol, a `long` that stays at its ends for numbers out of range, cut to its low 32
-- bits.
unfoldable pub long_to_int : ℤ → ℤ
long_to_int (pos n) = if ltb n (2 ^ 63) then to_int n else minus_one
long_to_int (negsuc n) = if ltb n (2 ^ 63) then to_int (2 ^ 32 - 1 - n % 2 ^ 32) else pos 0

-- atoi: blanks, a sign, digits. Text that is no number is 0.
unfoldable pub atoi : Bytes → ℤ
unfolding signed skip_space
atoi xs = long_to_int (signed (skip_space xs))

-- `ss >> len`: a number out of range gives the nearest `int`.
unfoldable pub read_int : Bytes → ℤ
unfolding signed skip_space
read_int xs = elim (signed (skip_space xs)) [
  | pos n ↦ if ltb n (2 ^ 31) then pos n else pos (2 ^ 31 - 1)
  | negsuc n ↦ if ltb n (2 ^ 31) then negsuc n else negsuc (2 ^ 31 - 1)
]

-- `getCgiLength`; of an empty text `ss >> len` reads nothing, and `len` is what it was, `unset`.
unfoldable pub get_cgi_length : ℤ → NetHttpRequest → ℤ
unfolding skip_space
get_cgi_length unset r =
    let text = get_header r (codes "Content-Length") in
    let declared = if length (skip_space text) == 0 then unset else read_int text in
    if is_post r.method then declared else pos (length r.query)

-- `readBuff`
unfoldable pub read_buff : NetHttpRequest → ℕ → List ReadOutcome → Read
read_buff r errno os = read_fd r.in_buff errno os

-- `writeBuff`: the buffer is cleared whatever the write returned.
unfoldable pub write_buff : NetHttpRequest → List WriteOutcome → NetHttpRequest × Write
unfolding clear
write_buff r os = (record r { out_buff = clear r.out_buff }, write_to_sock r.out_buff.char_vec os)

unfoldable pub write_able_bytes : NetHttpRequest → ℤ
unfolding data_size
write_able_bytes r = data_size r.out_buff

unfoldable pub append_out_buffer : NetHttpRequest → DataBuffer → NetHttpRequest
unfolding append_buffer
append_out_buffer r buf = record r { out_buff = (append_buffer r.out_buff buf).0 }

abbrev pub parse_finish : NetHttpRequest → Bool
parse_finish r = elim r.state [ got_all ↦ true | _ ↦ false ]

-- `resetParse`: the buffers, the timer and the working flag stay.
unfoldable pub reset_parse : NetHttpRequest → NetHttpRequest
reset_parse r = record r {
  state = expect_request_line;
  method = invalid;
  version = un_known;
  path = [];
  query = [];
  cgi = false;
  headers = [];
}
