-- ===== src/Tests/Replicas.antt =====
-- raft/raft.go: a member with one entry fetches a second one from its leader.
use k8_p2p_failover_poc.Prelude.{
  ◌≡◌, refl, pos, pos_part, String, true, some, none, List, [], ◌∷◌, ◌++◌, ℕ, nat_beq, take,
  if◌then◌else◌, arith, lookup, insert,
}
use k8_p2p_failover_poc.Kube.Resources.{no_cmd, is_no_cmd}
use k8_p2p_failover_poc.Network.Gob.{encode_within}
use k8_p2p_failover_poc.Network.Packet.{
  Packet, TcpAddr, append_entry, fetch_missing_entries, new_packet,
}
use k8_p2p_failover_poc.Raft.Peer.{leader, member, is_leader}
use k8_p2p_failover_poc.Raft.Routing.{get_leader_addr, get_addr, find_peer, is_peer, update_ttl}
use k8_p2p_failover_poc.Raft.Rpc.{Platform, FetchMissingEntries, encode_payload, decode_payload}
use k8_p2p_failover_poc.Raft.State.{Raft, Effect, get_length_log, count_entries}
use k8_p2p_failover_poc.Raft.Replies.{send_reply_object_commited}
use k8_p2p_failover_poc.Raft.Commit.{Answer}
use k8_p2p_failover_poc.Raft.Handler.{hears, returned, handle_rpc}
use k8_p2p_failover_poc.Raft.System.Exchange.{Arrives, fetches_served}
use k8_p2p_failover_poc.Raft.System.Replication.{handle_rpc-served}
use k8_p2p_failover_poc.Tests.Data.{
  service_cmd, demo, node, routing, peer_at, env_with, fetch_of, byte, packet_from,
}

-- Three bytes for a message, and the same for its packet.
abbrev fetch_bytes : FetchMissingEntries → List ℕ
fetch_bytes m =
    pos_part m.term ∷ pos_part m.log_index ∷ (if is_no_cmd m.new_object then 0 else 1) ∷ []

abbrev fetch_of_bytes : List ℕ → FetchMissingEntries
fetch_of_bytes b = record (fetch_of b) {
  leader_addr = if nat_beq (byte b) 0 then "" else "10.0.0.2";
}

abbrev pub address : String → TcpAddr
address a = record { ip = a; port = pos 9996 }

abbrev packet_of_bytes : List ℕ → Packet
packet_of_bytes b = record {
  caller = some (address (if nat_beq (byte b) 0 then "10.0.0.2" else "10.0.0.1"));
  payload = take 3 b;
  packet_type = fetch_missing_entries;
}

abbrev pub wire : Platform
wire = record demo {
  packets = record { encode = λ p. some p.payload; decode = λ b. (packet_of_bytes b, none) };
  fetches = record { encode = λ m. some (fetch_bytes m); decode = λ b. (fetch_of_bytes b, none) };
}

abbrev pub follower : Raft
follower = record (node member) { peers = routing leader }

abbrev pub chief : Raft
chief = record (node leader) {
  peers = record (routing member) {
    self = peer_at "10.0.0.2" leader;
    table = ("10.0.0.1", peer_at "10.0.0.1" member) ∷ [];
  };
  commit_log = service_cmd ∷ service_cmd ∷ [];
}

pub request_Arrives :
    Arrives wire
      (address "10.0.0.1")
      (record { term = pos 1; leader_addr = "10.0.0.2"; log_index = pos 2; new_object = no_cmd })
unfolding encode_payload encode_within new_packet is_no_cmd
request_Arrives = record {
  size = 3;
  transmits = record {
    bytes = 1 ∷ 2 ∷ 0 ∷ [];
    encoded = refl;
    size = refl;
    decoded = λ rest. refl;
  };
  fits = omega arith;
  whole = 3;
  packed = record { bytes = 1 ∷ 2 ∷ 0 ∷ []; encoded = refl; size = refl; decoded = λ rest. refl };
  whole_fits = omega arith;
}

pub reply_Arrives :
    Arrives wire
      (address "10.0.0.2")
      (record { term = pos 0; leader_addr = ""; log_index = pos 2; new_object = service_cmd })
unfolding encode_payload encode_within new_packet is_no_cmd
reply_Arrives = record {
  size = 3;
  transmits = record {
    bytes = 0 ∷ 2 ∷ 1 ∷ [];
    encoded = refl;
    size = refl;
    decoded = λ rest. refl;
  };
  fits = omega arith;
  whole = 3;
  packed = record { bytes = 0 ∷ 2 ∷ 1 ∷ []; encoded = refl; size = refl; decoded = λ rest. refl };
  whole_fits = omega arith;
}

abbrev pub from_chief : Packet
from_chief = packet_from "10.0.0.2" (1 ∷ 2 ∷ 0 ∷ []) append_entry

-- The answers do not depend on what the chief has been heard of.
abbrev fetches : List Answer
fetches =
    fetches_served wire (env_with [] []) chief (address "10.0.0.1") (pos 1)
      (get_leader_addr (hears (env_with [] []) follower (address "10.0.0.2")).peers).0 1 1

handle_rpc-served_example :
    let h = handle_rpc wire (env_with [] fetches) follower from_chief in
    (h.raft.commit_log ≡ service_cmd ∷ service_cmd ∷ [])
    × (h.ending ≡ returned)
    × ((es : List Effect) × (h.effects ≡ es ++ send_reply_object_commited wire h.raft true ∷ []))
unfolding get_leader_addr find_peer is_leader get_addr get_length_log count_entries is_no_cmd
    is_peer lookup update_ttl decode_payload insert
handle_rpc-served_example =
    handle_rpc-served wire (env_with [] fetches) (env_with [] []) follower chief from_chief
      (address "10.0.0.2") (address "10.0.0.1") (service_cmd ∷ [])
      (record { sent_by = refl; known = refl; type = refl }) refl (omega arith) (refl, tt)
      (refl, tt) refl (omega arith) (omega arith) refl (omega arith) refl refl
      (request_Arrives, reply_Arrives, tt) refl
