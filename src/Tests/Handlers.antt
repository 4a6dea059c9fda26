-- ===== src/Tests/Handlers.antt =====
-- raft/raft.go: requests to one node.
use k8_p2p_failover_poc.Prelude.{
  lookup, insert, wrap_int, ◌≡◌, ◌≤◌, ◌↔◌, ◌⊎◌, refl, pos, ◌+ℤ◌, ◌-ℤ◌, ◌≤ℤ◌, ltb_ℤ, eq_ℤ, true,
  false, not, ◌&&◌, some, List, [], ◌∷◌, ◌++◌, All, arith, if◌then◌else◌,
}
use k8_p2p_failover_poc.Kube.Resources.{KubeCmd, is_no_cmd}
use k8_p2p_failover_poc.Network.Packet.{append_entry, request_vote}
use k8_p2p_failover_poc.Raft.Peer.{leader, candidate, member}
use k8_p2p_failover_poc.Raft.Routing.{make_leader, wipe_leader, is_peer, update_ttl}
use k8_p2p_failover_poc.Raft.Rpc.{decode_payload}
use k8_p2p_failover_poc.Raft.State.{is_role, count_entries, get_length_log, add_commit}
use k8_p2p_failover_poc.Raft.Replies.{send_reply_object_commited, send_reply_leader_vote}
use k8_p2p_failover_poc.Raft.State.Effects.{written, has_reply}
use k8_p2p_failover_poc.Raft.Election.{answered}
use k8_p2p_failover_poc.Raft.Election.Tally.{in_time, confirming}
use k8_p2p_failover_poc.Raft.Commit.{Answer, packet, commit_object}
use k8_p2p_failover_poc.Raft.Commit.Log.{commit_object-quorum}
use k8_p2p_failover_poc.Raft.Handler.{
  hears, returned, handle_rpc, handle_entry, handle_append_entry, dispatch, catch_up, fetch_rounds,
}
use k8_p2p_failover_poc.Raft.Handler.Log.{handle_rpc-commit_log}
use k8_p2p_failover_poc.Raft.Handler.Terms.{Frame, handle_rpc-term}
use k8_p2p_failover_poc.Raft.Handler.Votes.{Deserves, before_answer, handle_rpc-Deserves}
use k8_p2p_failover_poc.Raft.Handler.Entries.{handle_rpc-le_length}
use k8_p2p_failover_poc.Tests.Data.{service_cmd, demo, node, env_with, packet_from, vote_of}

abbrev fetched : List Answer
fetched = packet (0 ∷ 2 ∷ 1 ∷ []) ∷ packet (0 ∷ 3 ∷ 1 ∷ []) ∷ []

abbrev two_cmds : List KubeCmd
two_cmds = service_cmd ∷ service_cmd ∷ []

-- A member with one entry hears of a log with three, and fetches two.
handle_rpc_fetches :
    (handle_rpc demo
      (env_with [] fetched)
      (node member)
      (packet_from "10.0.0.2" (1 ∷ 3 ∷ 0 ∷ []) append_entry)).raft.commit_log
    ≡ service_cmd ∷ service_cmd ∷ service_cmd ∷ []
unfolding handle_rpc dispatch handle_append_entry handle_entry catch_up fetch_rounds decode_payload
    is_peer update_ttl lookup insert is_role get_length_log count_entries is_no_cmd add_commit
    wrap_int ◌+ℤ◌ ◌-ℤ◌
handle_rpc_fetches = refl

handle_rpc-commit_log_example :
    ((handle_rpc demo
        (env_with [] fetched)
        (node member)
        (packet_from "10.0.0.2" (1 ∷ 3 ∷ 0 ∷ []) append_entry)).raft.commit_log
      ≡ service_cmd ∷ []
        ++ written
            (handle_rpc demo
              (env_with [] fetched)
              (node member)
              (packet_from "10.0.0.2" (1 ∷ 3 ∷ 0 ∷ []) append_entry)).effects)
    × All
        (λ c. is_no_cmd c ≡ false)
        (written
          (handle_rpc demo
            (env_with [] fetched)
            (node member)
            (packet_from "10.0.0.2" (1 ∷ 3 ∷ 0 ∷ []) append_entry)).effects)
handle_rpc-commit_log_example =
    handle_rpc-commit_log demo (env_with [] fetched) (node member)
      (packet_from "10.0.0.2" (1 ∷ 3 ∷ 0 ∷ []) append_entry)

handle_rpc-term_example :
    let r' =
      (handle_rpc demo
        (env_with [] [])
        (node leader)
        (packet_from "10.0.0.2" (2 ∷ 0 ∷ 0 ∷ []) append_entry)).raft in
    (pos 1 ≤ℤ r'.term) × ((r'.role ≡ leader) ⊎ (r'.role ≡ member)) × Frame (node leader) r'
handle_rpc-term_example =
    handle_rpc-term demo (env_with [] []) (node leader)
      (packet_from "10.0.0.2" (2 ∷ 0 ∷ 0 ∷ []) append_entry)

handle_rpc-le_length_example :
    let env = env_with [] [] in
    let rp = packet_from "10.0.0.2" (1 ∷ 0 ∷ 1 ∷ []) append_entry in
    let heard = hears env (node member) (record { ip = "10.0.0.2"; port = pos 9996 }) in
    handle_rpc demo env (node member) rp ≡ record {
      raft = heard;
      effects =
          if eq_ℤ (get_length_log (node member)) (pos 0) && is_no_cmd service_cmd
          then []
          else send_reply_object_commited demo heard true ∷ [];
      ending = returned;
    }
unfolding get_length_log count_entries is_no_cmd ◌-ℤ◌ is_peer lookup is_role decode_payload
handle_rpc-le_length_example =
    handle_rpc-le_length demo (env_with [] []) (node member)
      (packet_from "10.0.0.2" (1 ∷ 0 ∷ 1 ∷ []) append_entry)
      (record { ip = "10.0.0.2"; port = pos 9996 })
      (record { sent_by = refl; known = refl; type = refl }) refl (omega arith) (omega arith)
      (omega arith)

commit_object-quorum_example :
    let c = commit_object demo (env_with (answered (1 ∷ []) ∷ []) []) (node leader) service_cmd in
    ((c.2 ≡ some true) ↔ (1 ≤ confirming demo (in_time (answered (1 ∷ []) ∷ []))))
    × (c.0.commit_log ≡ service_cmd ∷ [] ++ written c.1)
    × (written c.1 ≡ elim c.2 [ some true ↦ service_cmd ∷ [] | _ ↦ [] ])
commit_object-quorum_example =
    commit_object-quorum demo (env_with (answered (1 ∷ []) ∷ []) []) (node leader) service_cmd refl
      (omega arith)

-- A candidate gets a call of its own term with a longer log.
handle_rpc-Deserves_example :
    let rp = packet_from "10.0.0.2" (1 ∷ 2 ∷ []) request_vote in
    let h = handle_rpc demo (env_with [] []) (node candidate) rp in
    let heard =
      hears (env_with [] []) (node candidate) (record { ip = "10.0.0.2"; port = pos 9996 }) in
    ((has_reply h.effects ≡ true) ↔ (
      (is_peer (node candidate).peers "10.0.0.2" ≡ true)
      × Deserves (node candidate) (vote_of (1 ∷ 2 ∷ []))))
    × (has_reply h.effects ≡ true
        → h.effects
          ≡ before_answer (node candidate) (vote_of (1 ∷ 2 ∷ []))
            ++ send_reply_leader_vote demo h.raft ∷ [])
    × (h.raft.peers ≡ (
        if not (is_peer (node candidate).peers "10.0.0.2")
        then (node candidate).peers
        else if has_reply h.effects
        then (make_leader heard.peers "10.0.0.2").0
        else if ltb_ℤ (pos 1) (pos 1)
        then wipe_leader heard.peers
        else heard.peers))
unfolding decode_payload
handle_rpc-Deserves_example =
    handle_rpc-Deserves demo (env_with [] []) (node candidate)
      (packet_from "10.0.0.2" (1 ∷ 2 ∷ []) request_vote)
      (record { ip = "10.0.0.2"; port = pos 9996 }) refl refl refl refl
