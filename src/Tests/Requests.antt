-- ===== src/Tests/Requests.antt =====
-- libnet/net_httprequest.h on concrete input.
use c_s_online_library.Common.{
  ℕ, zero, suc, Lacks, ◌≡◌, refl, true, false, some, [], ◌∷◌, ◌++◌, Bytes, codes, crlf, bytes_eq,
  starts_with, drop, arith, pos,
}
use c_s_online_library.Common.{to_int}
use c_s_online_library.Request.Defs.{
  NetHttpRequest, HttpMethod, http1_1, new_request, expect_headers, expect_body, got_all,
  find_header, get_header, atoi, long_to_int,
}
use c_s_online_library.Request.Hang.{
  IsPartialHeader, parse_request-got_all, parse_request-partial_header,
}
use c_s_online_library.Request.Body.{WantsBody, parse_request-whole_body, parse_request-short_body}
use c_s_online_library.Request.Parse.{running, done, undefined, parse_request}
use c_s_online_library.Request.Reader.{At}
use c_s_online_library.Request.Render.{Head, IsHead, head_text}
use c_s_online_library.Request.RoundTrip.{HeadRead, parse_request-head_text}

abbrev read_in : Bytes → NetHttpRequest
read_in text = record (new_request 7) {
  in_buff = record { char_vec = text; cur = 0; allocated = true };
}

abbrev head : Head
head = record {
  method = HttpMethod.get;
  path = codes "/books";
  query = some (codes "id=7");
  version = http1_1;
  headers = (codes "Host", codes "localhost") ∷ [];
}

head-IsHead : IsHead head
head-IsHead = record {
  known = λ e. cc;
  versioned = λ e. cc;
  path_blank = omega arith;
  path_query = omega arith;
  path_break = omega arith;
  query_blank = omega arith;
  query_break = omega arith;
  headers_fit = (
    record {
      key_colon = omega arith;
      key_break = omega arith;
      value_break = omega arith;
      leading = omega arith;
      trailing = omega arith;
    },
    tt,
  );
}

whole-At : (text : Bytes) → At (read_in text).in_buff text
whole-At text = record { allocated = refl; in_range = omega arith; unread = refl }

parse_request-head_text_example :
    (r' : NetHttpRequest) × (parse_request 3 (read_in (head_text head (codes "tail")))
      ≡ done true r')
    × HeadRead (read_in (head_text head (codes "tail"))) head (codes "tail") r'
parse_request-head_text_example =
    parse_request-head_text 3 (read_in (head_text head (codes "tail"))) head (codes "tail")
      head-IsHead refl (whole-At (head_text head (codes "tail"))) refl (omega arith)

abbrev two_lines : Bytes
two_lines = codes "GET" ++ (crlf ++ (codes "Host" ++ (crlf ++ [])))

abbrev finished_request : NetHttpRequest
finished_request = record (read_in (codes "GET")) { state = got_all }

parse_request-got_all_example : parse_request 1000 finished_request ≡ running finished_request
parse_request-got_all_example = parse_request-got_all 1000 finished_request refl

-- "Host: loc", the rest still on its way
abbrev half_line : NetHttpRequest
half_line = record (read_in (codes "Host: loc")) { state = expect_headers }

Lacks-break : (xs : Bytes) → Lacks 13 xs → (m : ℕ) → starts_with crlf (drop m xs) ≡ false
Lacks-break [] h zero = refl
Lacks-break [] h (suc m) = refl
Lacks-break (x ∷ xs) h zero = ground (arith, h.0)
Lacks-break (x ∷ xs) h (suc m) = Lacks-break xs h.1 m

half_line-IsPartialHeader : IsPartialHeader half_line (codes "Host") (codes " loc")
half_line-IsPartialHeader = record {
  at = whole-At (codes "Host: loc");
  expects = refl;
  no_break = Lacks-break (codes "Host: loc") (omega arith);
}

parse_request-partial_header_example :
    (r' : NetHttpRequest) × (parse_request 1000 half_line ≡ running r')
    × (r'.in_buff ≡ half_line.in_buff)
parse_request-partial_header_example =
    parse_request-partial_header 1000 half_line (codes "Host") (codes " loc")
      half_line-IsPartialHeader

empty_head :
    (r' : NetHttpRequest) × (parse_request 3 (read_in (head_text head (codes "tail")))
      ≡ done true r')
empty_head = let (r', run, read) = parse_request-head_text_example in (r', run)

-- A POST whose body stands behind three bytes of its head.
abbrev posted : Bytes → NetHttpRequest
posted len = record (new_request 7) {
  in_buff = record { char_vec = codes "..." ++ codes "id=7&next"; cur = 3; allocated = true };
  state = expect_body;
  headers = (codes "Content-Length", len) ∷ [];
}

posted-At : (len : Bytes) → At (posted len).in_buff (codes "id=7&next")
posted-At len = record { allocated = refl; in_range = omega arith; unread = refl }

four : atoi (get_header (posted (codes "4")) (codes "Content-Length")) ≡ pos 4
unfolding get_header find_header bytes_eq atoi long_to_int to_int
four = refl

posted-WantsBody : WantsBody (posted (codes "4")) 4
posted-WantsBody = record { expects = refl; declared = four }

parse_request-whole_body_example :
    parse_request 1 (posted (codes "4"))
    ≡ done true (record (posted (codes "4")) {
      query = codes "id=7";
      in_buff = record (posted (codes "4")).in_buff { cur = 4 };
      state = got_all;
    })
parse_request-whole_body_example =
    parse_request-whole_body 0 (posted (codes "4")) (codes "id=7") (codes "&next") posted-WantsBody
      (posted-At (codes "4"))

ten : atoi (get_header (posted (codes "10")) (codes "Content-Length")) ≡ pos 10
unfolding get_header find_header bytes_eq atoi long_to_int to_int
ten = refl

long-WantsBody : WantsBody (posted (codes "10")) 10
long-WantsBody = record { expects = refl; declared = ten }

parse_request-short_body_example : parse_request 1 (posted (codes "10")) ≡ undefined
parse_request-short_body_example =
    parse_request-short_body 0 (posted (codes "10")) 10 (codes "id=7&next") long-WantsBody
      (posted-At (codes "10")) (omega arith)
