-- ===== src/Network/Packet.antt =====
-- network/packet.go, and the buffer of `handleRequest` in network/network.go.
use k8_p2p_failover_poc.Prelude.{
  ℕ, ◌≡◌, ◌≤◌, ◌-◌, ℤ, String, Option, none, some, List, ◌++◌, take, length, replicate,
}
use k8_p2p_failover_poc.Network.Gob.{Gob, Transmits, encode_within, decode-encode_within}

-- A `*net.TCPAddr` that is not nil, with the text of its IP.
pub record TcpAddr : Type 0 where
  pub ip : String
  pub port : ℤ

-- `type DataType int`
pub data DataType : Type 0 where
  request_vote append_entry fetch_missing_entries : DataType
  unknown_type : ℤ → DataType

-- `caller` is none for a nil pointer, as in the packet that a failed `Decode` returns.
pub record Packet : Type 0 where
  pub caller : Option TcpAddr
  pub payload : List ℕ
  pub packet_type : DataType

abbrev pub packet_size : ℕ
packet_size = 2048

unfoldable pub new_packet : TcpAddr → List ℕ → DataType → Packet
new_packet c payload dt = record { caller = some c; payload = payload; packet_type = dt }

module _ (g : Gob Packet) where
  unfoldable pub encode_packet : Packet → List ℕ × Option String
  unfolding encode_within
  encode_packet p = encode_within g packet_size p

  unfoldable pub decode_packet : List ℕ → Packet × Option String
  decode_packet raw = g.decode raw

  -- What `handleRequest` decodes: a buffer of 2048 bytes, filled from the socket by one read.
  unfoldable pub read_request : List ℕ → Packet × Option String
  unfolding decode_packet
  read_request sent =
      let arrived = take packet_size sent in
      decode_packet (arrived ++ replicate (packet_size - length arrived) 0)

  -- The goroutine of `SendRequestAwaitResponse`: what it reads in the same way, unless it has an error.
  unfoldable pub await_response : List ℕ → Option Packet
  unfolding read_request
  await_response sent =
      let (p, err) = read_request sent in elim err [ some e ↦ none | none ↦ some p ]

  -- A packet whose encoding has at most 2048 bytes is read by the other node as it was made.
  pub read_request-encode_packet :
      (c : TcpAddr) (payload : List ℕ) (dt : DataType) (n : ℕ)
      → Transmits g (new_packet c payload dt) n
      → n ≤ packet_size
      → read_request (encode_packet (new_packet c payload dt)).0 ≡ (new_packet c payload dt, none)
  unfolding read_request encode_packet
  read_request-encode_packet c payload dt n t h =
      decode-encode_within g packet_size packet_size n (new_packet c payload dt) t _ h h
