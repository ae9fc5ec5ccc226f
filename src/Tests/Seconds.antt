-- ===== src/Tests/Seconds.antt =====
-- libnet/net_mq.h, and the second server, src/Server.cc with sock_ser.hpp, on concrete input.
use c_s_online_library.Buffer.Socket.{chunk, refused, wrote, write_to_sock}
use c_s_online_library.Common.{
  ◌≤◌, ◌<◌, ◌≡◌, refl, true, none, some, [], ◌∷◌, ◌++◌, ◌⊎◌, codes, length, pos, arith,
}
use c_s_online_library.Echo.{
  SockCalls, ListenSock, new_listen_sock, set_port, open_sock, destroy_listen_sock, ok, bind,
  listen_sock_life,
}
use c_s_online_library.Echo.Work.{
  sock_write, with_size, sock_write-write_to_sock, greeting, fault, replies, recv_and_work,
  sock_read, recv_and_work_lem,
}
use c_s_online_library.Mq.{NetMq, no_message, new_mq_data, recv_mq, mq_no_message}

abbrev queue : NetMq
queue = record { name = codes "/q"; linked = true; message = no_message }

mq_no_message_example :
    (new_mq_data 9 9 (codes "hello, all") ≡ none)
    × (recv_mq none queue ≡ none)
    × (8 ≤ 10 → recv_mq (some (codes "hello, all")) queue ≡ none)
mq_no_message_example = mq_no_message 9 9 (codes "hello, all") queue

-- Any address can be bound, or only the default port.
abbrev calls : SockCalls
calls = record { socket = some 3; binds = λ ip port. true; listens = true }

abbrev on_80 : ListenSock
on_80 = set_port 80 new_listen_sock

listen_sock_life_example :
    (((open_sock calls on_80).1 ≡ ok)
      × ((destroy_listen_sock (open_sock calls on_80).0).closed ≡ pos 3 ∷ pos 3 ∷ []))
    ⊎ (((open_sock calls on_80).1 ≡ bind)
        × ((destroy_listen_sock (open_sock calls on_80).0).closed ≡ []))
unfolding set_port
listen_sock_life_example = listen_sock_life calls on_80 refl 3 refl

sock_write-write_to_sock_example :
    sock_write (codes "abc") (wrote 1 ∷ refused 11 ∷ wrote 3 ∷ [])
    ≡ with_size 3 (write_to_sock (codes "abc") (wrote 1 ∷ refused 11 ∷ wrote 3 ∷ []))
sock_write-write_to_sock_example =
    sock_write-write_to_sock (codes "abc") (wrote 1 ∷ refused 11 ∷ wrote 3 ∷ [])

-- A client that says "hi", in a buffer that holds "XXX!" already
recv_and_work_lem_example :
    (length (greeting ++ (codes "hi" ++ codes "X!")) < 1024
      → recv_and_work (codes "XXX!" ++ (0 ∷ [])) (chunk 104 (105 ∷ [])) (wrote 23 ∷ [])
        ≡ replies (sock_write (greeting ++ (codes "hi" ++ codes "X!")) (wrote 23 ∷ [])))
    × (1024 ≤ length (greeting ++ (codes "hi" ++ codes "X!"))
        → recv_and_work (codes "XXX!" ++ (0 ∷ [])) (chunk 104 (105 ∷ [])) (wrote 23 ∷ []) ≡ fault)
unfolding sock_read
recv_and_work_lem_example =
    recv_and_work_lem (chunk 104 (105 ∷ [])) (wrote 23 ∷ []) (codes "XXX!" ++ (0 ∷ [])) (codes "X!")
      [] (omega arith) (omega arith) refl
