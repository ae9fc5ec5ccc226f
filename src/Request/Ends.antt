-- ===== src/Request/Ends.antt =====
-- libnet/net_httprequest.h, `parseRequest` ends on complete lines.
use c_s_online_library.Common.{ℕ, Bytes, crlf, [], Lacks, ◌++◌}
use c_s_online_library.Request.Parse.{
  Turn, again, finish, fault, Outcome, running, done, undefined, parse_request,
}

-- Complete lines: each ends in a line break, and holds no '\\r' before it.
pub data IsLines : Bytes → Type 0 where
  stop : IsLines []
  line : (l u : Bytes) → Lacks 13 l → IsLines u → IsLines (l ++ (crlf ++ u))

abbrev Ended : Outcome → Type 0
Ended (running r) = ⊥
Ended (done ok r) = Unit
Ended undefined = Unit

-- A round that ends the loop, or leads to a request from which it ends.
abbrev Leads : ℕ → Turn → Type 0
Leads fuel (again r) = Ended (parse_request fuel r)
Leads fuel (finish ok r) = Unit
Leads fuel fault = Unit
