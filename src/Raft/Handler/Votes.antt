-- ===== src/Raft/Handler/Votes.antt =====
-- raft/raft.go: which vote requests are granted.
use k8_p2p_failover_poc.Prelude.{
  ◌≡◌, refl, ◌⊎◌, ◌↔◌, ◌≤ℤ◌, ◌<ℤ◌, ltb_ℤ, eq_ℤ, ◌&&◌, not, true, some, List, [], ◌∷◌, ◌++◌, arith,
  if◌then◌else◌, Bool-cases, inl, inr,
}
use k8_p2p_failover_poc.Network.Packet.{Packet, TcpAddr, request_vote}
use k8_p2p_failover_poc.Raft.Peer.{candidate}
use k8_p2p_failover_poc.Raft.Routing.{make_leader, wipe_leader, is_peer}
use k8_p2p_failover_poc.Raft.Rpc.{Platform, RequestVote, decode_payload}
use k8_p2p_failover_poc.Raft.State.{
  unbuffered, nil_channel, Effect, send_new_leader, Raft, change_role, update_term, is_role,
  get_length_log,
}
use k8_p2p_failover_poc.Raft.State.Effects.{has_reply}
use k8_p2p_failover_poc.Raft.Commit.{Env}
use k8_p2p_failover_poc.Raft.Replies.{send_reply_leader_vote}
use k8_p2p_failover_poc.Raft.Handler.{hears, handle_rpc, dispatch, handle_request_vote}

-- A greater term with a log that is not shorter, or the same term with a longer log.
abbrev pub Deserves : Raft → RequestVote → Type 0
Deserves r call =
    ((r.term <ℤ call.term) × (get_length_log r ≤ℤ call.log_index))
    ⊎ ((call.term ≡ r.term) × (get_length_log r <ℤ call.log_index))

-- The call of a candidate of the node's own term that has a longer log is answered by a candidate only
-- behind a send on `newLeaderCh`.
abbrev pub before_answer : Raft → RequestVote → List Effect
before_answer r call =
    if eq_ℤ call.term r.term && is_role r candidate
    then send_new_leader call.candidate_addr ∷ []
    else []

pub handle_request_vote-answers :
    (w : Platform) (r : Raft) (call : RequestVote)
    → r.new_leader_ch ≡ unbuffered
    → (has_reply (handle_request_vote w r call).effects ≡ true) ↔ Deserves r call
unfolding handle_request_vote change_role update_term has_reply send_reply_leader_vote
    get_length_log
handle_request_vote-answers w r call h = ground arith

-- The case of a vote request in `handleRpc`: when there is an answer, what comes before it, and what
-- becomes of the routing table.
handle_request_vote-Deserves :
    (w : Platform) (r : Raft) (call : RequestVote)
    → r.new_leader_ch ≡ unbuffered
    → r.new_term ≡ nil_channel
    → let h = handle_request_vote w r call in
      ((has_reply h.effects ≡ true) ↔ Deserves r call)
      × (has_reply h.effects ≡ true
          → h.effects ≡ before_answer r call ++ send_reply_leader_vote w h.raft ∷ [])
      × (h.raft.peers ≡ (
          if has_reply h.effects
          then (make_leader r.peers call.candidate_addr).0
          else (if ltb_ℤ r.term call.term then wipe_leader r.peers else r.peers)))
unfolding handle_request_vote change_role update_term has_reply send_reply_leader_vote
    get_length_log is_role
handle_request_vote-Deserves w r call h n = ground (arith, h, n)

-- A packet holds a vote request, and the node's channels are as its start leaves them: newLeaderCh
-- is made and newTerm is nil. The handler has an answer among its effects exactly when the packet is
-- from a peer, and the term of the call is greater and its log not shorter, or its term is the same
-- and its log longer. The answer is then its last effect, and the only one but for one case: in the
-- same term a candidate first sends the address in the call on newLeaderCh, so that the answer comes
-- only once an election has received that. Beside the time at which the peer was heard of, the table
-- is then what MakeLeader of the address in the call leaves, which is not changed if no peer has
-- that address and it is not the node's own; without an answer it is what WipeLeader leaves on a
-- greater term, and else it is kept. For a packet of a stranger it is kept as it was.
pub handle_rpc-Deserves :
    (w : Platform) (env : Env) (r : Raft) (rp : Packet) (caller : TcpAddr)
    → rp.caller ≡ some caller
    → rp.packet_type ≡ request_vote
    → r.new_leader_ch ≡ unbuffered
    → r.new_term ≡ nil_channel
    → let call = (decode_payload w.votes rp.payload).0 in
      let h = handle_rpc w env r rp in
      ((has_reply h.effects ≡ true) ↔ ((is_peer r.peers caller.ip ≡ true) × Deserves r call))
      × (has_reply h.effects ≡ true
          → h.effects ≡ before_answer r call ++ send_reply_leader_vote w h.raft ∷ [])
      × (h.raft.peers ≡ (
          if not (is_peer r.peers caller.ip)
          then r.peers
          else if has_reply h.effects
          then (make_leader (hears env r caller).peers call.candidate_addr).0
          else if ltb_ℤ r.term call.term
          then wipe_leader (hears env r caller).peers
          else (hears env r caller).peers))
unfolding handle_rpc dispatch has_reply get_length_log is_role
handle_rpc-Deserves w env r rp caller c t h n =
    let call = (decode_payload w.votes rp.payload).0 in
    elim (Bool-cases (is_peer r.peers caller.ip)) [
      | inr k ↦ rw (handle_rpc, c, k) (ground arith)
      | inl k ↦
          let (answers, last, table) =
            handle_request_vote-Deserves w (hears env r caller) call h n in
          rw (handle_rpc, c, t, k) ((λ e. (refl, answers.0 e), λ e. answers.1 e.1), last, table)
    ]
