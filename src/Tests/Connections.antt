-- ===== src/Tests/Connections.antt =====
-- network/network.go: a request and its answer.
use k8_p2p_failover_poc.Prelude.{◌≡◌, refl, pos, none, some, [], ◌∷◌, nat_beq, if◌then◌else◌, arith}
use k8_p2p_failover_poc.Network.Gob.{Gob, Transmits}
use k8_p2p_failover_poc.Network.Packet.{
  Packet, TcpAddr, request_vote, new_packet, encode_packet, read_request, decode_packet,
}
use k8_p2p_failover_poc.Network.Connection.{
  Settled, late, sent, closed, connected, handle_request, send_request_await_response,
}
use k8_p2p_failover_poc.Network.Connection.Answers.{answer, send_request_await_response-answer}
use k8_p2p_failover_poc.Tests.Data.{byte, no_packet}

abbrev here : TcpAddr
here = record { ip = "10.0.0.1"; port = pos 9996 }

abbrev there : TcpAddr
there = record { ip = "10.0.0.2"; port = pos 9996 }

-- The first byte says which of two packets it is.
abbrev two_packets : Gob Packet
two_packets = record {
  encode = λ p. some (p.payload);
  decode = λ b.
      if nat_beq (byte b) 1
      then (new_packet here (1 ∷ []) request_vote, none)
      else if nat_beq (byte b) 2
      then (new_packet there (2 ∷ []) request_vote, none)
      else (no_packet, some "EOF");
}

first_Transmits : Transmits two_packets (new_packet here (1 ∷ []) request_vote) 1
unfolding new_packet
first_Transmits = record { bytes = 1 ∷ []; encoded = refl; size = refl; decoded = λ rest. refl }

second_Transmits : Transmits two_packets (new_packet there (2 ∷ []) request_vote) 1
unfolding new_packet
second_Transmits = record { bytes = 2 ∷ []; encoded = refl; size = refl; decoded = λ rest. refl }

abbrev answers_two : Packet → Settled
answers_two p = sent (encode_packet two_packets (new_packet there (2 ∷ []) request_vote)).0

reads_nothing : (read_request two_packets []).1 ≡ some "EOF"
unfolding read_request decode_packet
reads_nothing = refl

send_request_await_response-answer_example :
    let p = new_packet here (1 ∷ []) request_vote in
    let q = new_packet there (2 ∷ []) request_vote in
    let result =
      send_request_await_response two_packets here connected
        (answer two_packets answers_two)
        (1 ∷ [])
        request_vote in
    ((handle_request two_packets answers_two (encode_packet two_packets p).0).0 ≡ p)
    × (answers_two p ≡ sent (encode_packet two_packets q).0 → result ≡ (none, some q))
    × (answers_two p ≡ late → result ≡ (none, none))
    × (answers_two p ≡ closed → result ≡ (none, none))
send_request_await_response-answer_example =
    send_request_await_response-answer two_packets answers_two here there (1 ∷ []) (2 ∷ [])
      request_vote request_vote 1 1 "EOF" first_Transmits (omega arith) second_Transmits
      (omega arith) reads_nothing
