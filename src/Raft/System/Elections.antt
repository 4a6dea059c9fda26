-- ===== src/Raft/System/Elections.antt =====
-- raft/raft.go: an election that goes on while the node answers other candidates.
use k8_p2p_failover_poc.Prelude.{
  ◌<◌, ◌≤◌, ◌≡◌, refl, ◌≤ℤ◌, ◌<ℤ◌, true, List, [], length, arith, inl,
}
use k8_p2p_failover_poc.Raft.Peer.{leader}
use k8_p2p_failover_poc.Raft.Rpc.{Platform, RequestVote}
use k8_p2p_failover_poc.Raft.State.{unbuffered, get_length_log, change_role}
use k8_p2p_failover_poc.Raft.State.Effects.{has_reply}
use k8_p2p_failover_poc.Raft.Election.{VoteEvent}
use k8_p2p_failover_poc.Raft.Election.Tally.{in_time, count_votes-quorum}
use k8_p2p_failover_poc.Raft.Handler.{handle_request_vote}
use k8_p2p_failover_poc.Raft.Handler.Votes.{handle_request_vote-answers}
use k8_p2p_failover_poc.Raft.Handler.Terms.{handle_request_vote-term}
use k8_p2p_failover_poc.Raft.Loop.{Node, electing, finish_election}
use k8_p2p_failover_poc.Raft.System.{Run, elects}

-- A node that waits for its election answers a candidate of a greater term and takes over that term.
-- If a quorum then answers its own, earlier requests, the next step makes it leader of the term in
-- which it has just voted for the other.
pub leader_of_granted_term :
    (w : Platform) (n : Node) (call : RequestVote) (events : List VoteEvent)
    → n.phase ≡ electing
    → n.raft.new_leader_ch ≡ unbuffered
    → n.raft.term <ℤ call.term
    → get_length_log n.raft ≤ℤ call.log_index
    → 0 < n.raft.quorum
    → n.raft.quorum ≤ length (in_time events)
    → let h = handle_request_vote w n.raft call in
      (has_reply h.effects ≡ true)
      × Run w (record n { raft = h.raft }) (finish_election true h.raft) []
      × ((finish_election true h.raft).raft.role ≡ leader)
      × ((finish_election true h.raft).raft.term ≡ call.term)
unfolding finish_election change_role
leader_of_granted_term w n call events ph ch t l q v =
    let h = handle_request_vote w n.raft call in
    let changed = handle_request_vote-term w n.raft call in
    (
      (handle_request_vote-answers w n.raft call ch).1 (inl (t, l)),
      elects events true ph (
          (count_votes-quorum h.raft.quorum 0 events (ground (arith, changed))).1
            (ground (arith, changed))),
      refl,
      ground (arith, changed),
    )
