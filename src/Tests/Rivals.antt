-- ===== src/Tests/Rivals.antt =====
-- raft/raft.go: two leaders and the member that confirms to both.
use k8_p2p_failover_poc.Prelude.{
  ◌≡◌, refl, pos, true, none, some, [], ◌∷◌, nat_beq, eq_ℤ, if◌then◌else◌, arith, lookup, map,
  String, List,
}
use k8_p2p_failover_poc.Network.Gob.{encode_within}
use k8_p2p_failover_poc.Network.Packet.{
  TcpAddr, append_entry, request_vote, new_packet, encode_packet, read_request, decode_packet,
  await_response,
}
use k8_p2p_failover_poc.Kube.Resources.{KubeCmd, no_cmd, create_deployment, is_no_cmd}
use k8_p2p_failover_poc.Raft.Peer.{leader, member}
use k8_p2p_failover_poc.Raft.Routing.{get_addr, is_peer}
use k8_p2p_failover_poc.Raft.Rpc.{Platform, AppendEntry, encode_payload, decode_payload}
use k8_p2p_failover_poc.Raft.State.{Raft, get_length_log, count_entries}
use k8_p2p_failover_poc.Raft.Commit.{commit_object}
use k8_p2p_failover_poc.Raft.Replies.{send_reply_object_commited, send_encoded_reply}
use k8_p2p_failover_poc.Raft.System.Committing.{
  proposes, IsConfirmation, heard_of, Delivered, heard_from,
}
use k8_p2p_failover_poc.Raft.System.Divergence.{ServesBoth, after_requests, commits_diverge}
use k8_p2p_failover_poc.Tests.Data.{
  demo, node, peer_at, routing, env_with, byte, no_packet, service_cmd,
}

abbrev old_addr : TcpAddr
old_addr = record { ip = "10.0.0.1"; port = pos 9996 }

abbrev new_addr : TcpAddr
new_addr = record { ip = "10.0.0.3"; port = pos 9996 }

abbrev deployment_cmd : KubeCmd
deployment_cmd = record no_cmd { msg_type = create_deployment }

abbrev old_call : AppendEntry
old_call = proposes "10.0.0.1" (pos 1) (pos 1) service_cmd

abbrev new_call : AppendEntry
new_call = proposes "10.0.0.3" (pos 2) (pos 1) deployment_cmd

-- The requests have the bytes 2 and 3, and a reply that confirms the byte 1.
abbrev both : Platform
both = record demo {
  packets = record {
    encode = λ p. some p.payload;
    decode = λ b.
        if nat_beq (byte b) 2
        then (new_packet old_addr (2 ∷ []) append_entry, none)
        else if nat_beq (byte b) 3
        then (new_packet new_addr (3 ∷ []) append_entry, none)
        else if nat_beq (byte b) 1
        then (new_packet old_addr (1 ∷ []) request_vote, none)
        else (no_packet, some "EOF");
  };
  entries = record {
    encode = λ v. some ((if eq_ℤ v.term (pos 1) then 2 else 3) ∷ []);
    decode = λ b. (if nat_beq (byte b) 2 then old_call else new_call, none);
  };
  replies = record demo.replies { encode = λ v. some ((if v.confirmed then 1 else 4) ∷ []) };
}

old-Delivered : Delivered both old_addr old_call
unfolding encode_payload decode_payload encode_within encode_packet read_request decode_packet
    new_packet
old-Delivered = record { whole = refl; content = refl }

new-Delivered : Delivered both new_addr new_call
unfolding encode_payload decode_payload encode_within encode_packet read_request decode_packet
    new_packet
new-Delivered = record { whole = refl; content = refl }

-- The old leader, the new one, and a member of the new one's term.
abbrev old : Raft
old = node leader

abbrev new : Raft
new = record (node leader) {
  term = pos 2;
  peers = record (routing member) { self = peer_at "10.0.0.3" leader };
}

abbrev voter : Raft
voter = record (node member) {
  term = pos 2;
  peers = record (routing member) {
    table = ("10.0.0.1", peer_at "10.0.0.1" leader) ∷ ("10.0.0.3", peer_at "10.0.0.3" member) ∷ [];
  };
}

old-IsConfirmation :
    IsConfirmation both
      (send_reply_object_commited both (heard_of both (env_with [] []) old_addr voter) true)
unfolding send_reply_object_commited send_encoded_reply encode_payload decode_payload encode_within
    encode_packet read_request decode_packet new_packet await_response
old-IsConfirmation = (new_packet old_addr (1 ∷ []) request_vote, refl, refl)

new-IsConfirmation : IsConfirmation both (
    send_reply_object_commited both
      (heard_of both (env_with [] []) new_addr (heard_of both (env_with [] []) old_addr voter))
      true)
unfolding send_reply_object_commited send_encoded_reply encode_payload decode_payload encode_within
    encode_packet read_request decode_packet new_packet await_response
new-IsConfirmation = (new_packet old_addr (1 ∷ []) request_vote, refl, refl)

voter-ServesBoth : ServesBoth both (env_with [] []) old_addr new_addr old_call new_call voter
unfolding is_peer lookup get_length_log count_entries is_no_cmd
voter-ServesBoth = record {
  first = record {
    known = refl;
    follows = refl;
    no_earlier = omega arith;
    same_length = refl;
    heard = old-IsConfirmation;
  };
  knows_other = refl;
  no_earlier = omega arith;
  heard = new-IsConfirmation;
}

commits_diverge_example :
    let members : List (String × Raft) = ("10.0.0.2", voter) ∷ [] in
    let votes_old =
      map
        (heard_from both (env_with [] []) old_addr "10.0.0.1" (pos 1) (pos 1) service_cmd)
        members in
    let votes_new =
      map
        (heard_from both (env_with [] []) new_addr "10.0.0.3" (pos 2) (pos 1) deployment_cmd)
        (after_requests both (env_with [] []) old_addr old_call members) in
    let done_old = commit_object both (env_with votes_old []) old service_cmd in
    let done_new = commit_object both (env_with votes_new []) new deployment_cmd in
    (done_old.2 ≡ some true)
    × (done_new.2 ≡ some true)
    × (done_old.0.commit_log ≡ service_cmd ∷ service_cmd ∷ [])
    × (done_new.0.commit_log ≡ service_cmd ∷ deployment_cmd ∷ [])
unfolding get_addr get_length_log count_entries is_no_cmd
commits_diverge_example =
    commits_diverge both (env_with [] []) old_addr new_addr old new service_cmd deployment_cmd
      (("10.0.0.2", voter) ∷ []) refl refl (omega arith) (omega arith) refl refl refl old-Delivered
      new-Delivered (voter-ServesBoth, tt)
