-- ===== src/Raft/Handler/Log.antt =====
-- raft/raft.go: what a request does to the log, on every path of `handleRpc`.
use k8_p2p_failover_poc.Prelude.{
  ℕ, zero, suc, ◌≡◌, ℤ, ◌-ℤ◌, wrap_int, pos_part, true, false, List, [], ◌∷◌, ◌++◌, arith, All,
  All-append, append-nil, append_assoc, String, Option-cases, inl, inr, sym,
}
use k8_p2p_failover_poc.Kube.Resources.{is_no_cmd}
use k8_p2p_failover_poc.Network.Packet.{
  Packet, DataType, request_vote, append_entry, fetch_missing_entries, unknown_type,
}
use k8_p2p_failover_poc.Raft.Routing.{get_leader_addr, update_ttl}
use k8_p2p_failover_poc.Raft.Rpc.{
  Platform, RequestVote, AppendEntry, FetchMissingEntries, decode_payload,
}
use k8_p2p_failover_poc.Raft.State.{
  Raft, Effect, add_commit, get_length_log, change_role, update_term,
}
use k8_p2p_failover_poc.Raft.State.Effects.{written, written-append}
use k8_p2p_failover_poc.Raft.Commit.{Answer, send_failed, no_answer, packet, Env, commit_object}
use k8_p2p_failover_poc.Raft.Commit.Log.{add_commit-written, commit_object-Outcome}
use k8_p2p_failover_poc.Raft.Replies.{
  send_reply_leader_vote, send_reply_object_commited, respond_fetch_missing_entries,
  send_fetch_object_at_index,
}
use k8_p2p_failover_poc.Raft.Handler.{
  with_peers, handle_request_vote, handle_append_entry, handle_commit_request, handle_entry,
  handle_fetch, handle_rpc, dispatch, fetch_rounds, catch_up,
}

-- The log grows by the commands that are handed to the cluster, of which none is empty.
abbrev Grows : Raft → Raft → List Effect → Type 0
Grows r r' effects =
    (r'.commit_log ≡ r.commit_log ++ written effects)
    × All (λ c. is_no_cmd c ≡ false) (written effects)

handle_request_vote-Grows :
    (w : Platform) (r : Raft) (call : RequestVote)
    → let h = handle_request_vote w r call in Grows r h.raft h.effects
unfolding handle_request_vote change_role update_term written send_reply_leader_vote
handle_request_vote-Grows w r call = ground (arith, append-nil r.commit_log)

Grows-trans :
    (r s t : Raft) (es fs : List Effect) → Grows r s es → Grows s t fs → Grows r t (es ++ fs)
Grows-trans r s t es fs (p, a) (q, b) = (
  rw (q, p, written-append es fs) (append_assoc r.commit_log (written es) (written fs)),
  rw (written-append es fs) (All-append _ (written es) (written fs) a b),
)

fetch_rounds-Grows :
    (w : Platform) (term : ℤ) (ladr : String) (r : Raft) (n : ℕ) (answers : List Answer)
    → let f = fetch_rounds w term ladr r n answers in Grows r f.0 f.1
unfolding fetch_rounds written send_fetch_object_at_index
fetch_rounds-Grows w term ladr r zero answers = (sym (append-nil r.commit_log), tt)
fetch_rounds-Grows w term ladr r (suc n) [] = (sym (append-nil r.commit_log), tt)
fetch_rounds-Grows w term ladr r (suc n) (send_failed ∷ answers) =
    (sym (append-nil r.commit_log), tt)
fetch_rounds-Grows w term ladr r (suc n) (no_answer ∷ answers) = (sym (append-nil r.commit_log), tt)
fetch_rounds-Grows w term ladr r (suc n) (packet p ∷ answers) =
    let added = add_commit r (decode_payload w.fetches p).0.new_object in
    ground (
      arith,
      append-nil r.commit_log,
      add_commit-written r (decode_payload w.fetches p).0.new_object,
      fetch_rounds-Grows w term ladr added.0 n answers,
      written-append added.1 (fetch_rounds w term ladr added.0 n answers).1,
      append_assoc r.commit_log ((decode_payload w.fetches p).0.new_object ∷ [])
          (written (fetch_rounds w term ladr added.0 n answers).1),
    )

catch_up-Grows :
    (w : Platform) (env : Env) (r : Raft) (call : AppendEntry)
    → let h = catch_up w env r call in Grows r h.raft h.effects
unfolding catch_up written send_reply_object_commited
catch_up-Grows w env r call =
    let n = pos_part (wrap_int (call.log_index -ℤ get_length_log r)) in
    let ladr = (get_leader_addr r.peers).0 in
    let f = fetch_rounds w r.term ladr r n env.fetch_answers in
    ground (
      arith,
      fetch_rounds-Grows w r.term ladr r n env.fetch_answers,
      written-append f.1 (send_reply_object_commited w f.0 true ∷ []),
      append-nil (written f.1),
    )

handle_entry-Grows :
    (w : Platform) (env : Env) (r : Raft) (call : AppendEntry)
    → let h = handle_entry w env r call in Grows r h.raft h.effects
unfolding handle_entry written send_reply_object_commited
handle_entry-Grows w env r call =
    ground (arith, append-nil r.commit_log, catch_up-Grows w env r call)

handle_commit_request-Grows :
    (w : Platform) (env : Env) (r : Raft) (call : AppendEntry)
    → is_no_cmd call.new_object ≡ false
    → let h = handle_commit_request w env r call in Grows r h.raft h.effects
unfolding handle_commit_request written send_reply_object_commited
handle_commit_request-Grows w env r call h = ground (
  arith,
  append-nil r.commit_log,
  commit_object-Outcome w env r call.new_object,
  append-nil (written (commit_object w env r call.new_object).1),
  written-append (commit_object w env r call.new_object).1
      (send_reply_object_commited w (commit_object w env r call.new_object).0 true ∷ []),
)

handle_append_entry-Grows :
    (w : Platform) (env : Env) (r : Raft) (call : AppendEntry)
    → let h = handle_append_entry w env r call in Grows r h.raft h.effects
unfolding handle_append_entry update_term written
handle_append_entry-Grows w env r call = ground (
  arith,
  append-nil r.commit_log,
  handle_commit_request-Grows w env r call,
  handle_entry-Grows w env r call,
)

handle_fetch-Grows :
    (w : Platform) (r : Raft) (call : FetchMissingEntries)
    → let h = handle_fetch w r call in Grows r h.raft h.effects
unfolding handle_fetch written respond_fetch_missing_entries
handle_fetch-Grows w r call = ground (arith, append-nil r.commit_log)

dispatch-Grows :
    (w : Platform) (env : Env) (r : Raft) (rp : Packet) (dt : DataType)
    → let h = dispatch w env r rp dt in Grows r h.raft h.effects
unfolding dispatch written
dispatch-Grows w env r rp request_vote =
    handle_request_vote-Grows w r (decode_payload w.votes rp.payload).0
dispatch-Grows w env r rp append_entry =
    handle_append_entry-Grows w env r (decode_payload w.entries rp.payload).0
dispatch-Grows w env r rp fetch_missing_entries =
    handle_fetch-Grows w r (decode_payload w.fetches rp.payload).0
dispatch-Grows w env r rp (unknown_type t) = (sym (append-nil r.commit_log), tt)

-- Whatever packet arrives, the log only grows at its end, by exactly the commands that are handed to
-- the local cluster, in the same order; and none of these is the empty command.
pub handle_rpc-commit_log :
    (w : Platform) (env : Env) (r : Raft) (rp : Packet)
    → ((handle_rpc w env r rp).raft.commit_log
        ≡ r.commit_log ++ written (handle_rpc w env r rp).effects)
      × All (λ c. is_no_cmd c ≡ false) (written (handle_rpc w env r rp).effects)
unfolding handle_rpc written
handle_rpc-commit_log w env r rp = elim (Option-cases rp.caller) [
  | inl e ↦ ground (arith, append-nil r.commit_log)
  | inr (c, e) ↦ ground (
    arith,
    append-nil r.commit_log,
    dispatch-Grows w env (with_peers r (update_ttl env.now r.peers c.ip).0) rp rp.packet_type,
  )
]
