-- ===== src/Sockets/Examples.antt =====
-- Runs of the socket programs of "16 work" on concrete answers.
use home_work.Base.{ℕ, ◌≡◌, refl, List, [], ◌∷◌, Option, none, some, length, arith}
use home_work.Libc.{Bytes}
use home_work.Posix.{
  Answer, start, Run, blocked, exited, done, fault, out_of_fuel, ask, open_with, succeeds, receive,
  close, close_all, exit, give_up, check, open_or_give_up,
}
use home_work.Posix.Ensures.{Ensures, Clean, Waits}
use home_work.Text.{reverse_string, reverse_loop, swap, until_nul}
use home_work.Sockets.{print_address, reverse_message, reverse_buffer, type_line, cut_line}
use home_work.Sockets.Messages.{Answered, datagram_reply, stream_reply, sent_messages}
use home_work.Sockets.Servers.{Serves, servers-Serves}
use home_work.Sockets.Clients.{TalksInLines, clients-TalksInLines}
use home_work.Sockets.TcpInet
use home_work.Sockets.TcpLocal
use home_work.Sockets.UdpInet
use home_work.Sockets.UdpLocal
use home_work.Sockets.Raw
use home_work.Sockets.TcpInet.Answers.{tcp_inet-Ensures}

abbrev pub ok : ℕ → Answer
ok n = record { value = some n; payload = [] }

abbrev pub refused : Answer
refused = record { value = none; payload = [] }

abbrev pub message : Bytes → Answer
message b = record { value = some (length b); payload = b }

-- A socket, its address, two datagrams with their replies, and a failed read.
abbrev datagrams : List Answer
datagrams =
    ok 3
    ∷ ok 0
    ∷ message (49 ∷ [])
    ∷ message (97 ∷ 98 ∷ 99 ∷ [])
    ∷ ok 3
    ∷ message (100 ∷ 101 ∷ [])
    ∷ ok 2
    ∷ refused
    ∷ []

-- A socket, its address, a client that sends "abc" and leaves, and no further client.
abbrev connections : List Answer
connections =
    ok 3 ∷ ok 0 ∷ message [] ∷ ok 0 ∷ ok 4 ∷ message (97 ∷ 98 ∷ 99 ∷ []) ∷ ok 3 ∷ message [] ∷ []

-- A socket, its address, the line "hi", and the reply to it.
abbrev typing : List Answer
typing =
    ok 3 ∷ ok 0 ∷ message [] ∷ message (104 ∷ 105 ∷ 10 ∷ []) ∷ ok 2 ∷ message (105 ∷ 104 ∷ []) ∷ []

abbrev pub sent_by : Run (Unit {0}) → Option (List Bytes)
sent_by (done a p) = none
sent_by (exited n p) = some (sent_messages p.log)
sent_by (blocked p) = some (sent_messages p.log)
sent_by fault = none
sent_by out_of_fuel = none

udp_inet_sends :
    sent_by (UdpInet.server_main 9 (start datagrams))
    ≡ some ((101 ∷ 100 ∷ []) ∷ (99 ∷ 98 ∷ 97 ∷ []) ∷ [])
unfolding UdpInet.server_main UdpInet.serve ask open_with succeeds receive close close_all exit
    give_up check open_or_give_up print_address reverse_message reverse_buffer reverse_string
    reverse_loop swap until_nul
udp_inet_sends = refl

tcp_inet_sends :
    sent_by (TcpInet.server_main 9 (start connections)) ≡ some ((99 ∷ 98 ∷ 97 ∷ []) ∷ [])
unfolding TcpInet.server_main TcpInet.accept_loop TcpInet.serve_client ask open_with succeeds
    receive close close_all exit give_up check open_or_give_up print_address reverse_message
    reverse_buffer reverse_string reverse_loop swap until_nul
tcp_inet_sends = refl

tcp_inet_client_sends :
    sent_by (TcpInet.client_main 7 [] (start typing)) ≡ some ((104 ∷ 105 ∷ []) ∷ [])
unfolding TcpInet.client_main TcpInet.talk ask open_with succeeds receive close close_all exit
    give_up check open_or_give_up print_address type_line cut_line until_nul
tcp_inet_client_sends = refl

tcp_inet-Ensures_example :
    Ensures
      (λ _ p. ⊥)
      (Clean (Answered stream_reply))
      (Waits (Answered stream_reply))
      (TcpInet.server_main 9 (start connections))
tcp_inet-Ensures_example = tcp_inet-Ensures 9 connections (omega arith)

clients-TalksInLines_example :
    TalksInLines (TcpInet.client_main 7 []) typing
    × TalksInLines (TcpLocal.client_main 7 []) typing
    × TalksInLines (UdpInet.client_main 7 []) typing
    × TalksInLines (UdpLocal.client_main 7 []) typing
clients-TalksInLines_example = clients-TalksInLines 7 [] typing (omega arith)

servers-Serves_example :
    Serves (Answered stream_reply) (TcpLocal.server_main 9) connections
    × Serves (Answered datagram_reply) (UdpInet.server_main 9) connections
    × Serves (Answered datagram_reply) (UdpLocal.server_main 9) connections
    × Serves (Answered datagram_reply) (Raw.server_main (λ _. 49 ∷ []) 9) connections
servers-Serves_example = servers-Serves (λ _. 49 ∷ []) 9 connections (omega arith)
