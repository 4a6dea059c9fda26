-- ===== src/Raft/Replies.antt =====
-- raft/raft.go: the replies and the request that `handleRpc` sends.
use k8_p2p_failover_poc.Prelude.{ℕ, ℤ, pos, String, Bool, true, List}
use k8_p2p_failover_poc.Kube.Resources.{KubeCmd, no_cmd}
use k8_p2p_failover_poc.Network.Packet.{
  TcpAddr, DataType, request_vote, fetch_missing_entries, new_packet, encode_packet,
}
use k8_p2p_failover_poc.Raft.Routing.{get_leader_addr}
use k8_p2p_failover_poc.Raft.Rpc.{Platform, encode_payload}
use k8_p2p_failover_poc.Raft.State.{Raft, Effect, reply, request, get_length_log}

module _ (w : Platform) where
  -- `sendEncodedReply`
  unfoldable pub send_encoded_reply : Raft → String → List ℕ → DataType → Effect
  unfolding encode_packet new_packet
  send_encoded_reply r target payload dt =
      let addr : TcpAddr = record { ip = w.parse_ip target; port = r.raft_port } in
      reply (encode_packet w.packets (new_packet addr payload dt)).0

  unfoldable pub send_reply_object_commited : Raft → Bool → Effect
  unfolding send_encoded_reply encode_payload
  send_reply_object_commited r status =
      let leader_addr = (get_leader_addr r.peers).0 in
      send_encoded_reply r leader_addr
        (encode_payload w.replies (record {
          term = r.term;
          leader_addr = leader_addr;
          log_index = get_length_log r;
          confirmed = status;
        })).0
        request_vote

  -- The argument `status` of `sendReplyLeaderVote` is not used.
  unfoldable pub send_reply_leader_vote : Raft → Effect
  unfolding send_encoded_reply encode_payload
  send_reply_leader_vote r =
      let leader_addr = (get_leader_addr r.peers).0 in
      send_encoded_reply r leader_addr
        (encode_payload w.votes (record {
          term = r.term;
          candidate_addr = leader_addr;
          log_index = pos 0;
          agreed = true;
        })).0
        request_vote

  unfoldable pub respond_fetch_missing_entries : Raft → KubeCmd → ℤ → String → Effect
  unfolding send_encoded_reply encode_payload
  respond_fetch_missing_entries r obj index laddr =
      send_encoded_reply r laddr
        (encode_payload w.fetches
          (record { term = pos 0; leader_addr = ""; log_index = index; new_object = obj })).0
        fetch_missing_entries

  unfoldable pub send_fetch_object_at_index : ℤ → ℤ → String → Effect
  unfolding encode_payload
  send_fetch_object_at_index term index laddr =
      request laddr
        (encode_payload w.fetches
          (record { term = term; leader_addr = laddr; log_index = index; new_object = no_cmd })).0
        fetch_missing_entries
