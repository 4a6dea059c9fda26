-- ===== src/Tests/Elections.antt =====
-- raft/raft.go: a candidate with one voter.
use k8_p2p_failover_poc.Prelude.{
  ◌≡◌, refl, pos, true, none, some, [], ◌∷◌, ◌+ℤ◌, wrap_int, nat_beq, if◌then◌else◌, arith, lookup,
  map,
}
use k8_p2p_failover_poc.Network.Gob.{encode_within}
use k8_p2p_failover_poc.Network.Packet.{
  TcpAddr, request_vote, new_packet, encode_packet, read_request, decode_packet, await_response,
}
use k8_p2p_failover_poc.Kube.Resources.{is_no_cmd}
use k8_p2p_failover_poc.Raft.Peer.{leader, candidate, member}
use k8_p2p_failover_poc.Raft.Routing.{get_addr, is_peer}
use k8_p2p_failover_poc.Raft.Rpc.{Platform, RequestVote, encode_payload, decode_payload}
use k8_p2p_failover_poc.Raft.State.{Raft, get_length_log, count_entries, update_term}
use k8_p2p_failover_poc.Raft.Election.{request_leader_votes}
use k8_p2p_failover_poc.Raft.Replies.{send_reply_leader_vote, send_encoded_reply}
use k8_p2p_failover_poc.Raft.Loop.{Node, choosing, electing, finish_election}
use k8_p2p_failover_poc.Raft.System.{Run, votes_read}
use k8_p2p_failover_poc.Raft.System.Winning.{
  asks, Readable, granting, Delivered, Supports, heard_from, candidate_wins,
}
use k8_p2p_failover_poc.Tests.Data.{demo, node, peer_at, routing, env_with, byte, no_packet}

abbrev pub self_addr : TcpAddr
self_addr = record { ip = "10.0.0.1"; port = pos 9996 }

abbrev request_of : RequestVote
request_of = asks "10.0.0.1" (pos 2) (pos 1)

-- One byte says whether a message is the request or an answer.
abbrev pub ballot : Platform
ballot = record demo {
  packets = record {
    encode = λ p. some p.payload;
    decode = λ b.
        if nat_beq (byte b) 1
        then (new_packet self_addr (1 ∷ []) request_vote, none)
        else if nat_beq (byte b) 2
        then (new_packet self_addr (2 ∷ []) request_vote, none)
        else (no_packet, some "EOF");
  };
  votes = record {
    encode = λ v. some ((if v.agreed then 2 else 1) ∷ []);
    decode =
        λ b. (if nat_beq (byte b) 1 then request_of else record request_of { agreed = true }, none);
  };
}

request-Delivered : Delivered ballot self_addr request_of
unfolding encode_payload decode_payload encode_within encode_packet read_request decode_packet
    new_packet
request-Delivered = record { whole = refl; content = refl }

abbrev pub voter : Raft
voter = record (node member) {
  peers = record (routing member) { table = ("10.0.0.1", peer_at "10.0.0.1" member) ∷ [] };
}

voter-Readable :
    Readable ballot
      (send_reply_leader_vote ballot (granting ballot (env_with [] []) self_addr voter request_of))
unfolding send_reply_leader_vote send_encoded_reply encode_payload encode_within encode_packet
    read_request decode_packet new_packet await_response
voter-Readable = (new_packet self_addr (2 ∷ []) request_vote, refl)

voter-Supports : Supports ballot (env_with [] []) self_addr request_of voter
unfolding is_peer lookup get_length_log count_entries is_no_cmd
voter-Supports = record {
  known = refl;
  behind = omega arith;
  no_longer = omega arith;
  heard = voter-Readable;
}

abbrev stands : Node
stands = record { raft = update_term (node candidate) (pos 2); phase = electing }

abbrev wins : Node
wins = finish_election true (update_term (node candidate) (pos 2))

candidate_wins_example :
    Run ballot
      (record { raft = node candidate; phase = choosing })
      stands
      (request_leader_votes ballot (update_term (node candidate) (pos 2)) (pos 2))
    × ((run : Run ballot stands wins []) × (votes_read run
          ≡ map
              (heard_from ballot (env_with [] []) self_addr "10.0.0.1" (pos 2) (pos 1))
              (("10.0.0.2", voter) ∷ [])))
    × (wins.raft.role ≡ leader)
    × (wins.raft.term ≡ pos 2)
unfolding wrap_int ◌+ℤ◌ get_addr get_length_log count_entries is_no_cmd
candidate_wins_example =
    candidate_wins ballot (env_with [] []) (pos 0) self_addr (node candidate)
      (("10.0.0.2", voter) ∷ []) refl (omega arith) (omega arith) request-Delivered
      (voter-Supports, tt)
