-- ===== src/Tests/Buffers.antt =====
-- libnet/data_buffer.h and libnet/net_socktool.h on concrete input.
use c_s_online_library.Buffer.Defs.{DataBuffer, fresh, append, find_crlf}
use c_s_online_library.Buffer.Send.{answers, write_to_sock_sends, write_to_sock_resends}
use c_s_online_library.Buffer.Socket.{
  ReadOutcome, chunk, failed, eagain, Read, read_result, read_fd, wrote, refused, Write,
  write_to_sock,
}
use c_s_online_library.Common.{
  ◌≡◌, refl, search_for, true, some, List, [], ◌∷◌, codes, arith, pos, minus_one, to_int, ◌++◌,
}
use c_s_online_library.SockTool.{
  ListenCalls, url_decode, stop, plus, plain, escaped, url_decode-Encodes,
}

-- "GET\r\n", with one byte read
abbrev line_in : DataBuffer
line_in = record { char_vec = 71 ∷ 69 ∷ 84 ∷ 13 ∷ 10 ∷ []; cur = 1; allocated = true }

find_crlf_test : find_crlf line_in ≡ some 3
unfolding find_crlf search_for
find_crlf_test = refl

abbrev two_chunks : List ReadOutcome
two_chunks = chunk 71 (69 ∷ []) ∷ chunk 84 [] ∷ []

reset_run : read_fd fresh 0 (failed 104 ∷ []) ≡ Read.returned fresh minus_one 104
unfolding read_fd read_result append
reset_run = refl

write_to_sock_sends_example :
    write_to_sock (codes "HTTP") (answers (1 ∷ 2 ∷ []) ++ wrote 1 ∷ [])
    ≡ Write.returned (to_int 1) (codes "HTTP")
write_to_sock_sends_example =
    write_to_sock_sends (codes "HTTP") (1 ∷ 2 ∷ []) 1 [] (omega arith) (omega arith)

write_to_sock_resends_example :
    write_to_sock (codes "HTTP") (wrote 2 ∷ refused eagain ∷ answers (1 ∷ []) ++ wrote 2 ∷ [])
    ≡ Write.returned (to_int 2) (codes "HTTTP")
write_to_sock_resends_example =
    write_to_sock_resends (codes "HTTP") 2 eagain 2 (1 ∷ []) [] (omega arith) (omega arith)
      (omega arith) (omega arith)

-- "a /+": the blank as '+', the slash and the plus escaped
url_decode-Encodes_example : url_decode (codes "a+%2F%2B") ≡ some (codes "a /+")
url_decode-Encodes_example = url_decode-Encodes (
    plain 97 (omega arith) (omega arith)
      (plus (escaped 47 (omega arith) (escaped 43 (omega arith) stop))))

abbrev calls : ListenCalls
calls = record { socket = pos 3; bind = λ p. pos 0; listen = λ n. pos 0 }
