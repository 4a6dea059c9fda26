-- ===== src/Raft/Handler/Races.antt =====
-- raft/raft.go: vote requests of a greater term as their handlers overlap. `getTerm` and `updateTerm` take
-- the lock one after the other, so that a handler that has passed its test goes on whatever the term has
-- become meanwhile. The calls are of peers, and decoded.
use k8_p2p_failover_poc.Prelude.{
  ◌≡◌, refl, ap, ◌∙◌, ◌<ℤ◌, ltb_ℤ, true, false, List, [], ◌∷◌, ◌++◌, if◌then◌else◌, arith,
}
use k8_p2p_failover_poc.Raft.Peer.{member}
use k8_p2p_failover_poc.Raft.Routing.{make_leader, wipe_leader}
use k8_p2p_failover_poc.Raft.Rpc.{Platform, RequestVote}
use k8_p2p_failover_poc.Raft.State.{Raft, Effect, change_role, update_term, get_length_log}
use k8_p2p_failover_poc.Raft.State.Effects.{has_reply}
use k8_p2p_failover_poc.Raft.Replies.{send_reply_leader_vote}
use k8_p2p_failover_poc.Raft.Handler.{with_peers, handle_request_vote}

-- The node, the calls whose handlers are behind their test, and the calls that are answered, with their
-- answers.
pub record Voting : Type 0 where
  pub raft : Raft
  pub passed : List RequestVote
  pub answers : List (RequestVote × Effect)

abbrev pub idle : Raft → Voting
idle r = record { raft = r; passed = []; answers = [] }

-- The test of the term.
unfoldable pub begin_vote : Voting → RequestVote → Voting
begin_vote s call = record s { passed = s.passed ++ call ∷ [] }

module _ (w : Platform) where
  -- The node after a call whose log is not shorter.
  abbrev pub backing : Raft → RequestVote → Raft
  backing r call =
      let r1 = change_role (update_term r call.term) member in
      with_peers r1 (make_leader r1.peers call.candidate_addr).0

  -- What follows the test, up to the send on `newTerm`.
  unfoldable pub end_vote : Voting → RequestVote → List RequestVote → Voting
  end_vote s call others =
      let r1 = change_role (update_term s.raft call.term) member in
      if ltb_ℤ call.log_index (get_length_log r1)
      then record s { raft = with_peers r1 (wipe_leader r1.peers); passed = others }
      else record {
        raft = backing s.raft call;
        passed = others;
        answers = s.answers ++ (call, send_reply_leader_vote w (backing s.raft call)) ∷ [];
      }

  pub data Step (s : Voting) : Voting → Type 0 where
    tests : (call : RequestVote) → ltb_ℤ s.raft.term call.term ≡ true → Step s (begin_vote s call)
    ends :
        (before after : List RequestVote) (call : RequestVote)
        → s.passed ≡ before ++ call ∷ after
        → Step s (end_vote s call (before ++ after))

  pub data Reach (s : Voting) : Voting → Type 0 where
    here : Reach s s
    next : {t u : Voting} → Reach s t → Step t u → Reach s u

  -- A handler that no other overlaps does what the case does in one go.
  end_vote-alone :
      (r : Raft) (call : RequestVote)
      → r.term <ℤ call.term
      → (end_vote (begin_vote (idle r) call) call []).raft ≡ (handle_request_vote w r call).raft
  unfolding end_vote begin_vote handle_request_vote get_length_log change_role update_term
  end_vote-alone r call t = ground (arith, t)

  abbrev answered_too : Voting → RequestVote → Voting
  answered_too s call = record {
    raft = backing s.raft call;
    passed = [];
    answers = s.answers ++ (call, send_reply_leader_vote w (backing s.raft call)) ∷ [];
  }

  end_vote-long :
      (s : Voting) (call : RequestVote) (others : List RequestVote)
      → ltb_ℤ call.log_index (get_length_log s.raft) ≡ false
      → end_vote s call others ≡ record (answered_too s call) { passed = others }
  unfolding end_vote get_length_log change_role update_term
  end_vote-long s call others h = rw (end_vote, h) refl

  -- Two vote requests of one term, greater than the node's, come from peers, each with a log as long
  -- as the node's. If both handlers test the term before either sets it, both calls are answered,
  -- whoever the candidates are, and MakeLeader is called for the one and then for the other. If the
  -- second handler begins when the first is done, only the first call is answered.
  pub votes_overlap :
      (r : Raft) (first second : RequestVote)
      → r.term <ℤ first.term
      → second.term ≡ first.term
      → first.log_index ≡ get_length_log r
      → second.log_index ≡ get_length_log r
      → let tested = begin_vote (begin_vote (idle r) first) second in
        let ended = end_vote (end_vote tested first (second ∷ [])) second [] in
        let once = backing r first in
        let twice = backing once second in
        Reach (idle r) ended
        × (ended ≡ record {
          raft = twice;
          passed = [];
          answers =
              (first, send_reply_leader_vote w once)
              ∷ (second, send_reply_leader_vote w twice)
              ∷ [];
        })
        × (twice.term ≡ first.term)
        × (has_reply (handle_request_vote w r first).effects ≡ true)
        × (has_reply (handle_request_vote w (handle_request_vote w r first).raft second).effects
            ≡ false)
  unfolding begin_vote end_vote handle_request_vote get_length_log change_role update_term has_reply
      send_reply_leader_vote
  votes_overlap r first second t e l m =
      let later : ltb_ℤ r.term second.term ≡ true = ground (arith, t, e) in
      let tested = begin_vote (begin_vote (idle r) first) second in
      let once = end_vote-long tested first (second ∷ []) (ground (arith, l)) in
      let twice =
        end_vote-long (end_vote tested first (second ∷ [])) second []
          (rw once (ground (arith, m))) in
      let ended = end_vote (end_vote tested first (second ∷ [])) second [] in
      let reached : Reach (idle r) ended =
        next
          (next (next (next here (tests first (ground (arith, t)))) (tests second later))
            (ends [] (second ∷ []) first refl))
          (ends [] [] second (ap (λ s. s.passed) once)) in
      (
        reached,
        twice ∙ ap (λ s. answered_too s second) once,
        e,
        ground (arith, t, l),
        ground (arith, t, e, l, m),
      )
