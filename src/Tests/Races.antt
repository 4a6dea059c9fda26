-- ===== src/Tests/Races.antt =====
-- raft/raft.go: a node of term 1 with an empty log, and the vote requests of two candidates of term 2.
use k8_p2p_failover_poc.Prelude.{◌≡◌, refl, pos, false, true, [], ◌∷◌, arith}
use k8_p2p_failover_poc.Kube.Resources.{is_no_cmd}
use k8_p2p_failover_poc.Raft.Peer.{member}
use k8_p2p_failover_poc.Raft.Rpc.{RequestVote}
use k8_p2p_failover_poc.Raft.State.{Raft, get_length_log, count_entries}
use k8_p2p_failover_poc.Raft.State.Effects.{has_reply}
use k8_p2p_failover_poc.Raft.Replies.{send_reply_leader_vote}
use k8_p2p_failover_poc.Raft.Handler.{handle_request_vote}
use k8_p2p_failover_poc.Raft.Handler.Races.{
  Voting, idle, begin_vote, end_vote, backing, Reach, votes_overlap,
}
use k8_p2p_failover_poc.Tests.Data.{demo, node, vote_of}

abbrev voter : Raft
voter = record (node member) { commit_log = [] }

abbrev one : RequestVote
one = vote_of (2 ∷ 0 ∷ [])

abbrev other : RequestVote
other = record (vote_of (2 ∷ 0 ∷ [])) { candidate_addr = "10.0.0.3" }

abbrev both_end : Voting
both_end =
    end_vote demo (end_vote demo (begin_vote (begin_vote (idle voter) one) other) one (other ∷ []))
      other []

votes_overlap_example :
    let once = backing demo voter one in
    let twice = backing demo once other in
    Reach demo (idle voter) both_end
    × (both_end ≡ record {
      raft = twice;
      passed = [];
      answers =
          (one, send_reply_leader_vote demo once) ∷ (other, send_reply_leader_vote demo twice) ∷ [];
    })
    × (twice.term ≡ pos 2)
    × (has_reply (handle_request_vote demo voter one).effects ≡ true)
    × (has_reply (handle_request_vote demo (handle_request_vote demo voter one).raft other).effects
        ≡ false)
unfolding get_length_log count_entries is_no_cmd
votes_overlap_example = votes_overlap demo voter one other (omega arith) refl refl refl
