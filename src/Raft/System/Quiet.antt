-- ===== src/Raft/System/Quiet.antt =====
-- raft/raft.go: what the runs of the loop of `startRAFT` hand to the cluster.
use k8_p2p_failover_poc.Prelude.{◌≡◌, refl, ℤ, pos, ◌+ℤ◌, wrap_int, List, [], arith}
use k8_p2p_failover_poc.Raft.Rpc.{Platform}
use k8_p2p_failover_poc.Raft.Routing.{get_peers_address}
use k8_p2p_failover_poc.Raft.Routing.Members.{nonempty}
use k8_p2p_failover_poc.Raft.State.{Raft, Effect, update_term}
use k8_p2p_failover_poc.Raft.State.Effects.{written, written-map}
use k8_p2p_failover_poc.Raft.Election.{request_leader_votes, send_request_leader_votes}
use k8_p2p_failover_poc.Raft.Loop.{Node, choose, heartbeat, send_log_updates}
use k8_p2p_failover_poc.Raft.System.{Run, chooses, beats}

module _ (w : Platform) where
  request_leader_votes-written : (r : Raft) (t : ℤ) → written (request_leader_votes w r t) ≡ []
  unfolding request_leader_votes send_request_leader_votes written
  request_leader_votes-written r t =
      written-map _ (nonempty (get_peers_address r.peers)) (λ a. refl)

  send_log_updates-written : (r : Raft) → written (send_log_updates w r) ≡ []
  unfolding send_log_updates written
  send_log_updates-written r = written-map _ (nonempty (get_peers_address r.peers)) (λ a. refl)

  pub Run-written : {n m : Node} {es : List Effect} → Run w n m es → written es ≡ []
  unfolding choose heartbeat written
  Run-written {n} (chooses now ph) =
      let t = wrap_int (n.raft.term +ℤ pos 1) in
      ground (arith, request_leader_votes-written (update_term n.raft t) t)
  Run-written {n} (beats ph) = ground (arith, send_log_updates-written n.raft)
  Run-written run = ground arith
