-- ===== src/Raft/Election.antt =====
-- raft/raft.go: `requestLeaderVotes`, and the counting of votes and confirmations.
pub mod Tally
use k8_p2p_failover_poc.Prelude.{
  ℕ, zero, suc, ◌+◌, ℤ, String, Bool, true, false, Option, none, some, List, [], ◌∷◌, map, leb,
  if◌then◌else◌,
}
use k8_p2p_failover_poc.Network.Packet.{request_vote}
use k8_p2p_failover_poc.Raft.Routing.{get_addr, get_peers_address}
use k8_p2p_failover_poc.Raft.Routing.Members.{nonempty}
use k8_p2p_failover_poc.Raft.Rpc.{Platform, AppendEntryResponse, encode_payload, decode_payload}
use k8_p2p_failover_poc.Raft.State.{Raft, Effect, request, get_length_log}

-- What the counting goroutine sees: the data of an answer from a peer, or five seconds without one.
pub data VoteEvent : Type 0 where
  answered : List ℕ → VoteEvent
  timed_out : VoteEvent

module _ (w : Platform) where
  -- `sendRequestLeaderVotes` to one peer.
  unfoldable pub send_request_leader_votes : String → String → ℤ → ℤ → Effect
  unfolding encode_payload
  send_request_leader_votes self peer term log_index =
      request peer
        (encode_payload w.votes
          (record { term = term; candidate_addr = self; log_index = log_index; agreed = false })).0
        request_vote

  -- The requests of `requestLeaderVotes`, to every address of the table that is not empty.
  unfoldable pub request_leader_votes : Raft → ℤ → List Effect
  unfolding send_request_leader_votes
  request_leader_votes r new_term =
      map (λ pr. send_request_leader_votes (get_addr r.peers) pr new_term (get_length_log r))
        (nonempty (get_peers_address r.peers))

  -- The counting loop of `requestAddObject`; `none` while it still waits.
  unfoldable pub count_confirmations : ℕ → ℕ → List VoteEvent → Option Bool
  unfolding decode_payload
  count_confirmations quorum num_votes [] = none
  count_confirmations quorum num_votes (timed_out ∷ events) = some false
  count_confirmations quorum num_votes (answered packet ∷ events) =
      let n : ℕ =
        if (decode_payload w.replies packet).0.confirmed then num_votes + 1 else num_votes in
      let rest = count_confirmations quorum n events in if leb quorum n then some true else rest

-- The counting loop of `requestLeaderVotes`: any answer is a vote.
unfoldable pub count_votes : ℕ → ℕ → List VoteEvent → Option Bool
count_votes quorum num_votes [] = none
count_votes quorum num_votes (timed_out ∷ events) = some false
count_votes quorum num_votes (answered packet ∷ events) =
    let rest = count_votes quorum (num_votes + 1) events in
    if leb quorum (num_votes + 1) then some true else rest
