-- ===== src/Response/File.antt =====
-- libnet/net_httpresponse.h: `makeResponse` for a file.
use c_s_online_library.Buffer.Defs.{DataBuffer, fresh, append, append_string}
use c_s_online_library.Common.{
  subst, to_int, ℕ, ◌<◌, ◌^◌, ◌≡◌, refl, ap, ◌∙◌, sym, Bool, true, false, ◌||◌, some, ◌++◌, Bytes,
  codes, crlf, length, ltb, ◌==◌, arith, pos, to_int_small,
}
use c_s_online_library.Response.Defs.{
  GHttpResponse, Stat, Host, message_of, put_head, do_static_response, make_file_response,
  make_response,
}
use c_s_online_library.Response.Framing.{
  lines_text-IsShort, lines_text, head_lines, do_static_response_framed,
}

-- A file of these bytes, below 2 GiB, that is no program.
pub record IsFile (host : Host) (path text : Bytes) : Type 0 where
  pub entry : Stat
  pub found : host.stat path ≡ some entry
  pub regular : entry.regular ≡ true
  pub no_directory : entry.directory ≡ false
  pub user_exec : entry.user_exec ≡ false
  pub group_exec : entry.group_exec ≡ false
  pub other_exec : entry.other_exec ≡ false
  pub size : entry.size ≡ pos (length text)
  pub mapped : host.map_file path (length text) ≡ some text

-- The response to a file: the lines of the head, an empty line, and the file
abbrev pub page : GHttpResponse → Bytes → Bytes
page r text = lines_text (head_lines r (codes "OK") (length text)) (crlf ++ text)

-- A file that is below 2 GiB together with its head
page-small :
    (r : GHttpResponse) (text : Bytes) → length (page r text) < 2 ^ 31 → length text < 2 ^ 31
page-small r text h =
    let less = (lines_text-IsShort (head_lines r (codes "OK") (length text)) (crlf ++ text) h).1 in
    omega (arith, less)

or_true : (b : Bool) → (b || true) ≡ true
or_true b = ground arith

put_head_storage :
    (r : GHttpResponse) (out : DataBuffer) (message : Bytes) (size : ℕ)
    → (put_head r out message size).allocated ≡ true
unfolding put_head append_string append to_int
put_head_storage r out message size = or_true _

static_storage :
    (host : Host) (r : GHttpResponse) (size : ℕ) (message text : Bytes)
    → message_of r.status_code ≡ some message
    → host.map_file r.path size ≡ some text
    → size < 2 ^ 31
    → (do_static_response host r fresh (pos size)).allocated ≡ true
unfolding do_static_response append
static_storage host r size message text m f small =
    rw (m, do_static_response)
      (rw (f, do_static_response)
        (rw (to_int_small size small, do_static_response)
          (ap (λ b. b || ltb 0 size) (put_head_storage r fresh message size))))

make_response-static :
    (host : Host) (r : GHttpResponse) (text : Bytes)
    → r.status_code ≡ 200
    → r.cgi ≡ false
    → IsFile host r.path text
    → make_response host r
      ≡ some (do_static_response host (record r { cgi = false }) fresh (pos (length text)))
unfolding make_response make_file_response
make_response-static host r text code no_cgi f =
    let fine : (r.status_code == 400) ≡ false = ground (arith, code) in
    rw (fine, make_response)
      (rw (f.found, make_response)
        (rw
          (
            f.regular, f.no_directory, f.user_exec, f.group_exec, f.other_exec, no_cgi, f.size,
            make_file_response,
          )
          refl))

-- `makeResponse` for a file
pub make_response-file :
    (host : Host) (r : GHttpResponse) (text : Bytes)
    → r.status_code ≡ 200
    → r.cgi ≡ false
    → IsFile host r.path text
    → length (page r text) < 2 ^ 31
    → (out : DataBuffer) × (make_response host r ≡ some out)
      × (out.char_vec ≡ page r text)
      × (out.allocated ≡ true)
unfolding message_of
make_response-file host r text code no_cgi f total =
    let plain : GHttpResponse = record r { cgi = false } in
    let m : message_of plain.status_code ≡ some (codes "OK") = ap message_of code in
    let same : plain ≡ r = ap (λ c. record r { cgi = c }) (sym no_cgi) in
    let framed =
      do_static_response_framed host plain (length text) (codes "OK") text m f.mapped refl
        (subst (λ q. length (page q text) < 2 ^ 31) (sym same) total) in
    let small = page-small r text total in
    (
      _,
      make_response-static host r text code no_cgi f,
      framed.0 ∙ ap (λ q. page q text) same,
      static_storage host plain (length text) (codes "OK") text m f.mapped small,
    )
