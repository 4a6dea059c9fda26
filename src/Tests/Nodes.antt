-- ===== src/Tests/Nodes.antt =====
-- raft/raft.go: the log, the counts and the loop of one node.
use k8_p2p_failover_poc.Prelude.{
  ◌≡◌, ◌≤◌, ◌+◌, leb, refl, pos, true, false, some, List, [], ◌∷◌, ◌++◌, length, All, arith, String,
}
use k8_p2p_failover_poc.Kube.Resources.{KubeCmd, is_no_cmd}
use k8_p2p_failover_poc.Raft.Peer.{leader, candidate}
use k8_p2p_failover_poc.Raft.Routing.{lock_routing_table_entries}
use k8_p2p_failover_poc.Raft.Routing.Known.{IsTable}
use k8_p2p_failover_poc.Raft.State.{init_raft, get_length_log, count_entries, change_role}
use k8_p2p_failover_poc.Raft.State.Effects.{has_reply}
use k8_p2p_failover_poc.Raft.Election.{
  VoteEvent, answered, timed_out, count_votes, count_confirmations,
}
use k8_p2p_failover_poc.Raft.Election.Tally.{in_time, confirming, count_votes-total}
use k8_p2p_failover_poc.Raft.Handler.{handle_request_vote}
use k8_p2p_failover_poc.Raft.Loop.{Node, electing, start, add_peers, finish_election, choose}
use k8_p2p_failover_poc.Raft.System.{Run, votes_read, here, next, runs, elects, chooses}
use k8_p2p_failover_poc.Raft.System.Safety.{Fixed, start-Fixed, Reach-commit_log, Run-leader}
use k8_p2p_failover_poc.Raft.System.Peers.{start-IsTable}
use k8_p2p_failover_poc.Raft.System.Elections.{leader_of_granted_term}
use k8_p2p_failover_poc.Tests.Data.{service_cmd, demo, node, vote_of}

abbrev two_answers : List VoteEvent
two_answers = answered [] ∷ answered [] ∷ timed_out ∷ []

count_votes-total_example :
    let seen = answered [] ∷ timed_out ∷ answered [] ∷ [] in
    let counted = in_time (answered [] ∷ []) in
    (count_votes 2 0 seen ≡ some (leb 2 (0 + length counted)))
    × (count_confirmations demo 2 0 seen
        ≡ some (leb 2 (0 + confirming demo (in_time (answered [] ∷ [])))))
count_votes-total_example =
    count_votes-total demo 2 0 0 (answered [] ∷ []) (answered [] ∷ []) (omega arith) (omega arith)

abbrev elector : Node
elector = record { raft = node candidate; phase = electing }

quorum_read : count_votes elector.raft.quorum 0 (answered [] ∷ []) ≡ some true
unfolding count_votes
quorum_read = refl

abbrev won : Run demo elector (finish_election true (node candidate)) []
won = elects (answered [] ∷ []) true refl quorum_read

Run-leader_example : (electing ≡ electing) × (1 ≤ length (in_time (votes_read won)))
unfolding finish_election change_role
Run-leader_example = Run-leader won (omega arith) (λ e. cc) refl

abbrev three_peers : List String
three_peers = "10.0.0.2" ∷ "10.0.0.3" ∷ []

start-Fixed_example :
    Fixed
      (lock_routing_table_entries (add_peers (init_raft "10.0.0.1" (pos 9996)).peers three_peers)).1
      (choose demo (pos 0) (start "10.0.0.1" (pos 9996) three_peers).raft).0.raft
unfolding start
start-Fixed_example =
    start-Fixed demo "10.0.0.1" (pos 9996) three_peers
      (choose demo (pos 0) (start "10.0.0.1" (pos 9996) three_peers).raft).0
      (next here (runs (chooses (pos 0) refl)))

start-IsTable_example :
    let m = (choose demo (pos 0) (start "10.0.0.1" (pos 9996) ("10.0.0.3" ∷ three_peers)).raft).0 in
    IsTable ("10.0.0.3" ∷ three_peers) m.raft.peers × (m.raft.peers.self.addr ≡ "10.0.0.1")
unfolding start
start-IsTable_example =
    start-IsTable demo "10.0.0.1" (pos 9996) ("10.0.0.3" ∷ three_peers)
      (choose demo (pos 0) (start "10.0.0.1" (pos 9996) ("10.0.0.3" ∷ three_peers)).raft).0
      (next here (runs (chooses (pos 0) refl)))

Reach-commit_log_example :
    (l : List KubeCmd) × ((finish_election true (node candidate)).raft.commit_log
      ≡ service_cmd ∷ [] ++ l)
    × All (λ c. is_no_cmd c ≡ false) l
Reach-commit_log_example = Reach-commit_log (next here (runs won))

leader_of_granted_term_example :
    let h = handle_request_vote demo (node candidate) (vote_of (2 ∷ 1 ∷ [])) in
    (has_reply h.effects ≡ true)
    × Run demo (record elector { raft = h.raft }) (finish_election true h.raft) []
    × ((finish_election true h.raft).raft.role ≡ leader)
    × ((finish_election true h.raft).raft.term ≡ pos 2)
unfolding get_length_log count_entries is_no_cmd
leader_of_granted_term_example =
    leader_of_granted_term demo elector (vote_of (2 ∷ 1 ∷ [])) (answered [] ∷ []) refl refl
      (omega arith) (omega arith) (omega arith) (omega arith)
