-- ===== src/Request/Headers.antt =====
-- libnet/net_httprequest.h: the header map, and the body of a POST.
use c_s_online_library.Buffer.Defs.{set_cur}
use c_s_online_library.Common.{
  ℕ, ◌≡◌, ◌<◌, refl, true, some, List, [], ◌∷◌, ◌++◌, Bytes, bytes_eq, bytes_eq_iff, arith,
  if◌then◌else◌, length, length-append, take-append_length, pos,
}
use c_s_online_library.Request.Defs.{NetHttpRequest, store_header, find_header, got_all}
use c_s_online_library.Request.Parse.{finish, fault, body_turn}
use c_s_online_library.Request.Reader.{At, At-length}

-- `mHeaders[k] = v` overwrites the entry of `k` and leaves those of all other keys.
pub find_header-store_header :
    (k j v : Bytes) (m : List (Bytes × Bytes))
    → find_header j (store_header k v m) ≡ (if bytes_eq k j then some v else find_header j m)
unfolding find_header store_header
find_header-store_header k j v [] = refl
find_header-store_header k j v ((i, w) ∷ m) =
    ground (
      arith,
      bytes_eq_iff k j,
      bytes_eq_iff i k,
      bytes_eq_iff i j,
      find_header-store_header k j v m,
    )

-- The body of a POST, when Content-Length bytes of it are there: it becomes the query. The cursor
-- goes to that length counted from the start of the buffer, wherever the body stands.
pub body_turn-whole :
    (r : NetHttpRequest) (body rest : Bytes)
    → At r.in_buff (body ++ rest)
    → body_turn r (pos (length body))
      ≡ finish true (record r {
        query = body;
        in_buff = record r.in_buff { cur = length body };
        state = got_all;
      })
unfolding body_turn set_cur
body_turn-whole r body rest at =
    rw (at.unread, take-append_length body rest)
      (ground (arith, At-length at, length-append body rest, at.in_range))

-- With fewer bytes than Content-Length the parser reads past the end of the buffer: it neither
-- waits for the rest of the body nor fails.
pub body_turn-short :
    (r : NetHttpRequest) (len : ℕ) (u : Bytes)
    → At r.in_buff u
    → length u < len
    → body_turn r (pos len) ≡ fault
unfolding body_turn
body_turn-short r len u at h = ground (arith, At-length at)
