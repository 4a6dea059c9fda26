-- ===== src/Network/Connection.antt =====
-- network/network.go: requests over a connection. How a connection goes, and what the node does with a
-- request in the two seconds that a socket waits, are arguments.
pub mod Answers
use k8_p2p_failover_poc.Prelude.{String, Bool, true, false, Option, none, some, List, [], ◌∷◌, ℕ}
use k8_p2p_failover_poc.Network.Gob.{Gob}
use k8_p2p_failover_poc.Network.Packet.{
  TcpAddr, Packet, DataType, new_packet, encode_packet, read_request, await_response,
}

-- What comes first in the `select` of `handleRequest`: the timeout, bytes on the channel `Done`, or its
-- being closed.
pub data Settled : Type 0 where
  late : Settled
  sent : List ℕ → Settled
  closed : Settled

-- How far a request gets.
pub data Dial : Type 0 where
  unresolved refused broken connected : Dial

-- What `Accept` returns: a connection, on which these bytes arrive, or an error.
pub data Accepted : Type 0 where
  connection : List ℕ → Accepted
  accept_failed : Accepted

-- The error of a request that does not get through, with the name of what failed.
unfoldable pub dial_error : Dial → Option String
dial_error unresolved = some "FAILED TO RESOLVE TCP ADDR"
dial_error refused = some "FAILED TO CONNECT TO TCP ENDPOINT"
dial_error broken = some "FAILED TO WRITE"
dial_error connected = none

module _ (g : Gob Packet) where
  -- `handleRequest`: the packet that is handed to the node, and what is written to the socket. A
  -- receive from a closed channel gives no bytes.
  unfoldable pub handle_request : (Packet → Settled) → List ℕ → Packet × Option (List ℕ)
  handle_request node arrived =
      let packet = (read_request g arrived).0 in
      (packet, elim (node packet) [ late ↦ none | sent resp ↦ some resp | closed ↦ some [] ])

  -- `Listen`: the packets that are handed to the node, one for each connection; `none` if the process
  -- panics. An error of `Accept` is logged and its nil connection is handled.
  unfoldable pub accept_all : List Accepted → Option (List Packet)
  accept_all [] = some []
  accept_all (accept_failed ∷ more) = none
  accept_all (connection arrived ∷ more) = elim (accept_all more) [
    | none ↦ none
    | some packets ↦ some ((read_request g arrived).0 ∷ packets)
  ]

  unfoldable pub listen : Bool → List Accepted → Option (List Packet)
  unfolding accept_all
  listen false accepted = none
  listen true accepted = accept_all accepted

  -- `SendRequest`: the error, and what is written.
  unfoldable pub send_request : TcpAddr → Dial → List ℕ → DataType → Option String × Option (List ℕ)
  unfolding dial_error
  send_request addr dial payload dt = elim (dial_error dial) [
    | some e ↦ (some e, none)
    | none ↦ (none, some (encode_packet g (new_packet addr payload dt)).0)
  ]

  -- `SendRequestAwaitResponse`: the error, and the packet that is sent on the channel that it returns,
  -- where the other side answers the bytes that it is sent.
  unfoldable pub send_request_await_response :
      TcpAddr → Dial → (List ℕ → List ℕ) → List ℕ → DataType → Option String × Option Packet
  unfolding dial_error
  send_request_await_response addr dial other payload dt = elim (dial_error dial) [
    | some e ↦ (some e, none)
    | none ↦ (none, await_response g (other (encode_packet g (new_packet addr payload dt)).0))
  ]
