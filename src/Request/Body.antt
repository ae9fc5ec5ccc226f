-- ===== src/Request/Body.antt =====
-- libnet/net_httprequest.h: `parseRequest` at the body of a POST.
use c_s_online_library.Common.{
  ℕ, suc, ◌≡◌, ◌<◌, refl, ◌∙◌, ap, true, ◌++◌, Bytes, codes, length, pos,
}
use c_s_online_library.Request.Defs.{NetHttpRequest, expect_body, got_all, atoi, get_header}
use c_s_online_library.Request.Headers.{body_turn-whole, body_turn-short}
use c_s_online_library.Request.Parse.{
  body_turn, turn_in, parse_turn, done, undefined, parse_request,
}
use c_s_online_library.Request.Reader.{At}

-- The headers of a POST are read, and its Content-Length is `len`.
pub record WantsBody (r : NetHttpRequest) (len : ℕ) : Type 0 where
  pub expects : r.state ≡ expect_body
  pub declared : atoi (get_header r (codes "Content-Length")) ≡ pos len

WantsBody-turn :
    (r : NetHttpRequest) (len : ℕ) → WantsBody r len → parse_turn r ≡ body_turn r (pos len)
unfolding parse_turn turn_in
WantsBody-turn r len w = ap (λ s. turn_in s r) w.expects ∙ ap (body_turn r) w.declared

-- A body that is there in full: `parseRequest` returns true after one round, and the body, as long
-- as Content-Length says, is the query. The cursor goes to that length counted from the start of
-- the buffer, wherever the body stands: what is behind the body is not what is read next.
pub parse_request-whole_body :
    (fuel : ℕ) (r : NetHttpRequest) (body rest : Bytes)
    → WantsBody r (length body)
    → At r.in_buff (body ++ rest)
    → parse_request (suc fuel) r
      ≡ done true (record r {
        query = body;
        in_buff = record r.in_buff { cur = length body };
        state = got_all;
      })
unfolding parse_request
parse_request-whole_body fuel r body rest w at =
    rw (WantsBody-turn r (length body) w ∙ body_turn-whole r body rest at, parse_request) refl

-- A body of which less has arrived than Content-Length says: `parseRequest` reads past the end of
-- the buffer. It neither waits for the rest nor fails.
pub parse_request-short_body :
    (fuel : ℕ) (r : NetHttpRequest) (len : ℕ) (u : Bytes)
    → WantsBody r len
    → At r.in_buff u
    → length u < len
    → parse_request (suc fuel) r ≡ undefined
unfolding parse_request
parse_request-short_body fuel r len u w at h =
    rw (WantsBody-turn r len w ∙ body_turn-short r len u at h, parse_request) refl
