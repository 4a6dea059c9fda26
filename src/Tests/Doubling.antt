-- ===== src/Tests/Doubling.antt =====
-- raft/raft.go: two requests of the leader while a member with one entry fetches the second one.
use k8_p2p_failover_poc.Prelude.{◌≡◌, refl, pos, [], ◌∷◌, arith, lookup, true, wrap_int, ◌-ℤ◌, ◌+ℤ◌}
use k8_p2p_failover_poc.Kube.Resources.{is_no_cmd}
use k8_p2p_failover_poc.Raft.Peer.{is_leader}
use k8_p2p_failover_poc.Raft.Routing.{get_leader_addr, get_addr, find_peer, is_peer}
use k8_p2p_failover_poc.Raft.State.{is_role, get_length_log, count_entries}
use k8_p2p_failover_poc.Raft.State.Effects.{written}
use k8_p2p_failover_poc.Raft.Commit.{packet}
use k8_p2p_failover_poc.Raft.Rpc.{AppendEntry}
use k8_p2p_failover_poc.Raft.Handler.Rounds.{
  Reach, quiet, begin_round, begin_fetches, end_round, reaches_loop, here, next, begins, ends,
}
use k8_p2p_failover_poc.Raft.Handler.Rounds.Grows.{Grown, Reach-Grown}
use k8_p2p_failover_poc.Raft.Replies.{send_fetch_object_at_index}
use k8_p2p_failover_poc.Raft.System.Exchange.{served}
use k8_p2p_failover_poc.Raft.System.Doubling.{one_round, both_begin, both_end, catch_ups_overlap}
use k8_p2p_failover_poc.Tests.Data.{service_cmd, env_with, entry_of}
use k8_p2p_failover_poc.Tests.Replicas.{
  address, wire, follower, chief, request_Arrives, reply_Arrives,
}

catch_ups_overlap_example :
    let call = entry_of (1 ∷ 2 ∷ 0 ∷ []) in
    let loop = one_round follower 1 in
    let started = both_begin wire follower call call in
    let answer =
      served wire
        (env_with [] [])
        chief
        (address "10.0.0.1")
        (send_fetch_object_at_index wire (pos 1) (pos 2) "10.0.0.2") in
    let ended = both_end wire started loop answer in
    (started.fetches ≡ loop ∷ loop ∷ [])
    × Reach wire (quiet follower) ended
    × (ended.fetches ≡ [])
    × (ended.raft.commit_log ≡ service_cmd ∷ service_cmd ∷ service_cmd ∷ [])
    × (written ended.effects ≡ service_cmd ∷ service_cmd ∷ [])
unfolding get_leader_addr find_peer is_leader get_addr get_length_log count_entries is_no_cmd
    is_peer lookup
catch_ups_overlap_example =
    catch_ups_overlap wire (env_with [] []) follower chief (address "10.0.0.1")
      (entry_of (1 ∷ 2 ∷ 0 ∷ [])) (entry_of (1 ∷ 2 ∷ 0 ∷ [])) service_cmd (refl, tt) refl refl refl
      (omega arith) (omega arith) refl (omega arith) refl refl refl request_Arrives reply_Arrives

abbrev call : AppendEntry
call = entry_of (1 ∷ 2 ∷ 0 ∷ [])

one_behind : reaches_loop follower call ≡ true
unfolding reaches_loop get_length_log count_entries is_no_cmd is_role
one_behind = refl

one_waits : (begin_fetches wire (quiet follower) call).fetches ≡ one_round follower 1 ∷ []
unfolding begin_fetches begin_round get_length_log count_entries is_no_cmd get_leader_addr find_peer
    is_leader wrap_int ◌-ℤ◌ ◌+ℤ◌
one_waits = refl

-- One loop, which gets its entry.
Reach-Grown_example : Grown (quiet follower) (
    end_round wire
      (begin_fetches wire (quiet follower) call)
      (one_round follower 1)
      []
      (packet (0 ∷ 2 ∷ 1 ∷ [])))
Reach-Grown_example = Reach-Grown wire (
    next (next here (begins call one_behind))
      (ends [] [] (one_round follower 1) (packet (0 ∷ 2 ∷ 1 ∷ [])) one_waits))
