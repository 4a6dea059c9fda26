-- ===== src/Tests/Proposals.antt =====
-- raft/raft.go: a leader with one member that confirms.
use k8_p2p_failover_poc.Prelude.{
  ◌≡◌, refl, pos, true, none, some, [], ◌∷◌, nat_beq, if◌then◌else◌, arith, lookup, map,
}
use k8_p2p_failover_poc.Network.Gob.{encode_within}
use k8_p2p_failover_poc.Network.Packet.{
  TcpAddr, append_entry, request_vote, new_packet, encode_packet, read_request, decode_packet,
  await_response,
}
use k8_p2p_failover_poc.Kube.Resources.{is_no_cmd}
use k8_p2p_failover_poc.Raft.Peer.{leader, member}
use k8_p2p_failover_poc.Raft.Routing.{get_addr, is_peer}
use k8_p2p_failover_poc.Raft.Rpc.{Platform, AppendEntry, encode_payload, decode_payload}
use k8_p2p_failover_poc.Raft.State.{Raft, get_length_log, count_entries}
use k8_p2p_failover_poc.Raft.Commit.{commit_object}
use k8_p2p_failover_poc.Raft.Replies.{send_reply_object_commited, send_encoded_reply}
use k8_p2p_failover_poc.Raft.System.Committing.{
  proposes, IsConfirmation, heard_of, Delivered, Confirms, heard_from, commit_object-reaches,
}
use k8_p2p_failover_poc.Tests.Data.{
  demo, node, peer_at, routing, env_with, byte, no_packet, service_cmd,
}

abbrev leader_addr : TcpAddr
leader_addr = record { ip = "10.0.0.1"; port = pos 9996 }

abbrev proposal : AppendEntry
proposal = proposes "10.0.0.1" (pos 1) (pos 1) service_cmd

-- A request has the byte 2, and a reply that confirms the byte 1.
abbrev ledger : Platform
ledger = record demo {
  packets = record {
    encode = λ p. some p.payload;
    decode = λ b.
        if nat_beq (byte b) 2
        then (new_packet leader_addr (2 ∷ []) append_entry, none)
        else if nat_beq (byte b) 1
        then (new_packet leader_addr (1 ∷ []) request_vote, none)
        else (no_packet, some "EOF");
  };
  entries = record { encode = λ v. some (2 ∷ []); decode = λ b. (proposal, none) };
  replies = record demo.replies { encode = λ v. some ((if v.confirmed then 1 else 3) ∷ []) };
}

proposal-Delivered : Delivered ledger leader_addr proposal
unfolding encode_payload decode_payload encode_within encode_packet read_request decode_packet
    new_packet
proposal-Delivered = record { whole = refl; content = refl }

abbrev follower : Raft
follower = record (node member) {
  peers = record (routing member) { table = ("10.0.0.1", peer_at "10.0.0.1" leader) ∷ [] };
}

follower-IsConfirmation :
    IsConfirmation ledger (
      send_reply_object_commited ledger
        (heard_of ledger (env_with [] []) leader_addr follower)
        true)
unfolding send_reply_object_commited send_encoded_reply encode_payload decode_payload encode_within
    encode_packet read_request decode_packet new_packet await_response
follower-IsConfirmation = (new_packet leader_addr (1 ∷ []) request_vote, refl, refl)

follower-Confirms : Confirms ledger (env_with [] []) leader_addr proposal follower
unfolding is_peer lookup get_length_log count_entries is_no_cmd
follower-Confirms = record {
  known = refl;
  follows = refl;
  no_earlier = omega arith;
  same_length = refl;
  heard = follower-IsConfirmation;
}

commit_object-reaches_example :
    let votes =
      map
        (heard_from ledger (env_with [] []) leader_addr "10.0.0.1" (pos 1) (pos 1) service_cmd)
        (("10.0.0.2", follower) ∷ []) in
    let committed = commit_object ledger (env_with votes []) (node leader) service_cmd in
    (committed.2 ≡ some true) × (committed.0.commit_log ≡ service_cmd ∷ service_cmd ∷ [])
unfolding get_addr get_length_log count_entries is_no_cmd
commit_object-reaches_example =
    commit_object-reaches ledger (env_with [] []) leader_addr (node leader) service_cmd
      (("10.0.0.2", follower) ∷ []) refl (omega arith) (omega arith) refl proposal-Delivered
      (follower-Confirms, tt)
