-- ===== src/Raft/Handler/Terms.antt =====
-- raft/raft.go: what a request does to the term and the role, on every path of `handleRpc`.
use k8_p2p_failover_poc.Prelude.{
  ℕ, zero, suc, ◌≡◌, refl, ◌⊎◌, inl, inr, ℤ, ◌-ℤ◌, ◌≤ℤ◌, ltb_ℤ, wrap_int, pos_part, List, [], ◌∷◌,
  if◌then◌else◌, arith, String, Option-cases,
}
use k8_p2p_failover_poc.Network.Packet.{
  Packet, DataType, request_vote, append_entry, fetch_missing_entries, unknown_type,
}
use k8_p2p_failover_poc.Raft.Peer.{member}
use k8_p2p_failover_poc.Raft.Routing.{get_leader_addr, update_ttl}
use k8_p2p_failover_poc.Raft.Rpc.{
  Platform, RequestVote, AppendEntry, FetchMissingEntries, decode_payload,
}
use k8_p2p_failover_poc.Raft.State.{Raft, add_commit, get_length_log, change_role, update_term}
use k8_p2p_failover_poc.Raft.Commit.{Answer, send_failed, no_answer, packet, Env}
use k8_p2p_failover_poc.Raft.Commit.Log.{Same, add_commit-Same, commit_object-Outcome}
use k8_p2p_failover_poc.Raft.Handler.{
  with_peers, handle_request_vote, handle_append_entry, handle_commit_request, handle_entry,
  handle_fetch, handle_rpc, dispatch, fetch_rounds, catch_up,
}

Same-refl : (r : Raft) → Same r r
Same-refl r = record {
  role = refl;
  term = refl;
  quorum = refl;
  new_term = refl;
  new_leader_ch = refl;
}

fetch_rounds-Same :
    (w : Platform) (term : ℤ) (ladr : String) (r : Raft) (n : ℕ) (answers : List Answer)
    → Same r (fetch_rounds w term ladr r n answers).0
unfolding fetch_rounds
fetch_rounds-Same w term ladr r zero answers = Same-refl r
fetch_rounds-Same w term ladr r (suc n) [] = Same-refl r
fetch_rounds-Same w term ladr r (suc n) (send_failed ∷ answers) = Same-refl r
fetch_rounds-Same w term ladr r (suc n) (no_answer ∷ answers) = Same-refl r
fetch_rounds-Same w term ladr r (suc n) (packet p ∷ answers) =
    let added = add_commit r (decode_payload w.fetches p).0.new_object in
    ground (
      arith,
      add_commit-Same r (decode_payload w.fetches p).0.new_object,
      fetch_rounds-Same w term ladr added.0 n answers,
    )

catch_up-Same :
    (w : Platform) (env : Env) (r : Raft) (call : AppendEntry) → Same r (catch_up w env r call).raft
unfolding catch_up
catch_up-Same w env r call =
    let n = pos_part (wrap_int (call.log_index -ℤ get_length_log r)) in
    ground (arith, fetch_rounds-Same w r.term (get_leader_addr r.peers).0 r n env.fetch_answers)

handle_entry-Same :
    (w : Platform) (env : Env) (r : Raft) (call : AppendEntry)
    → Same r (handle_entry w env r call).raft
unfolding handle_entry
handle_entry-Same w env r call = ground (arith, catch_up-Same w env r call)

handle_commit_request-Same :
    (w : Platform) (env : Env) (r : Raft) (call : AppendEntry)
    → Same r (handle_commit_request w env r call).raft
unfolding handle_commit_request
handle_commit_request-Same w env r call =
    ground (arith, commit_object-Outcome w env r call.new_object)

-- The fields that no handler writes.
pub record Frame (r r' : Raft) : Type 0 where
  pub quorum : r'.quorum ≡ r.quorum
  pub new_term : r'.new_term ≡ r.new_term
  pub new_leader_ch : r'.new_leader_ch ≡ r.new_leader_ch

-- `AppendEntry` never changes the role, and takes over a greater term.
handle_append_entry-term :
    (w : Platform) (env : Env) (r : Raft) (call : AppendEntry)
    → let r' = (handle_append_entry w env r call).raft in
      (r'.role ≡ r.role)
      × (r'.term ≡ (if ltb_ℤ r.term call.term then call.term else r.term))
      × Frame r r'
unfolding handle_append_entry update_term
handle_append_entry-term w env r call =
    ground (arith, handle_commit_request-Same w env r call, handle_entry-Same w env r call)

-- `RequestVote` makes the node a member exactly when its term is greater, and takes over that term.
pub handle_request_vote-term :
    (w : Platform) (r : Raft) (call : RequestVote)
    → let r' = (handle_request_vote w r call).raft in
      (r'.role ≡ (if ltb_ℤ r.term call.term then member else r.role))
      × (r'.term ≡ (if ltb_ℤ r.term call.term then call.term else r.term))
      × Frame r r'
unfolding handle_request_vote change_role update_term
handle_request_vote-term w r call = ground arith

handle_fetch-raft :
    (w : Platform) (r : Raft) (call : FetchMissingEntries) → (handle_fetch w r call).raft ≡ r
unfolding handle_fetch
handle_fetch-raft w r call = ground arith

-- The term does not fall, and the role is kept or becomes `member`.
abbrev Steps : Raft → Raft → Type 0
Steps r r' = (r.term ≤ℤ r'.term) × ((r'.role ≡ r.role) ⊎ (r'.role ≡ member)) × Frame r r'

dispatch-Steps :
    (w : Platform) (env : Env) (r : Raft) (rp : Packet) (dt : DataType)
    → Steps r (dispatch w env r rp dt).raft
unfolding dispatch
dispatch-Steps w env r rp request_vote =
    ground (arith, handle_request_vote-term w r (decode_payload w.votes rp.payload).0)
dispatch-Steps w env r rp append_entry =
    ground (arith, handle_append_entry-term w env r (decode_payload w.entries rp.payload).0)
dispatch-Steps w env r rp fetch_missing_entries =
    ground (arith, handle_fetch-raft w r (decode_payload w.fetches rp.payload).0)
dispatch-Steps w env r rp (unknown_type t) = ground arith

-- Whatever packet arrives, the term of the node does not fall, and its role stays or becomes
-- `member`: no request makes a node candidate or leader. Quorum and channels are kept.
pub handle_rpc-term :
    (w : Platform) (env : Env) (r : Raft) (rp : Packet)
    → let r' = (handle_rpc w env r rp).raft in
      (r.term ≤ℤ r'.term) × ((r'.role ≡ r.role) ⊎ (r'.role ≡ member)) × Frame r r'
unfolding handle_rpc
handle_rpc-term w env r rp = elim (Option-cases rp.caller) [
  | inl e ↦ ground arith
  | inr (c, e) ↦ ground (
    arith,
    dispatch-Steps w env (with_peers r (update_ttl env.now r.peers c.ip).0) rp rp.packet_type,
  )
]
