-- ===== src/Raft/Cluster/Handlers.antt =====
-- raft/raft.go: on every path of `handleRpc`, which objects a node appends to its log and sends.
use k8_p2p_failover_poc.Prelude.{
  ℕ, zero, suc, ◌≡◌, refl, ◌⊎◌, inl, inr, ℤ, ◌-ℤ◌, wrap_int, pos_part, String, true, none, List, [],
  ◌∷◌, All, All-append, arith, Option-cases,
}
use k8_p2p_failover_poc.Kube.Resources.{KubeCmd}
use k8_p2p_failover_poc.Network.Packet.{
  Packet, DataType, request_vote, append_entry, fetch_missing_entries, unknown_type,
}
use k8_p2p_failover_poc.Raft.Routing.{get_leader_addr, update_ttl}
use k8_p2p_failover_poc.Raft.Rpc.{
  Platform, RequestVote, AppendEntry, FetchMissingEntries, decode_payload,
}
use k8_p2p_failover_poc.Raft.State.{Raft, add_commit, get_length_log}
use k8_p2p_failover_poc.Raft.Commit.{Answer, send_failed, no_answer, packet, Env, commit_object}
use k8_p2p_failover_poc.Raft.Replies.{
  send_encoded_reply, send_reply_object_commited, send_reply_leader_vote,
  respond_fetch_missing_entries, send_fetch_object_at_index,
}
use k8_p2p_failover_poc.Raft.Handler.{
  with_peers, handle_request_vote, handle_append_entry, handle_commit_request, handle_entry,
  handle_fetch, handle_rpc, dispatch, fetch_rounds, catch_up,
}
use k8_p2p_failover_poc.Raft.Cluster.Objects.{
  Honest, Fine, Clean, FineAnswer, FinePacket, add_commit-Clean, commit_object-Clean,
}

module _ (w : Platform) (Typed : KubeCmd → Type 0) where
  fetch_rounds-Clean :
      (term : ℤ) (ladr : String) (r : Raft) (n : ℕ) (answers : List Answer)
      → All (FineAnswer w Typed) answers
      → All (Clean w Typed) (fetch_rounds w term ladr r n answers).1
  unfolding fetch_rounds send_fetch_object_at_index
  fetch_rounds-Clean term ladr r zero answers h = tt
  fetch_rounds-Clean term ladr r (suc n) [] h = (tt, tt)
  fetch_rounds-Clean term ladr r (suc n) (send_failed ∷ answers) h = (tt, tt)
  fetch_rounds-Clean term ladr r (suc n) (no_answer ∷ answers) h = (tt, tt)
  fetch_rounds-Clean term ladr r (suc n) (packet p ∷ answers) h =
      let found = (decode_payload w.fetches p).0.new_object in
      let added = add_commit r found in
      let rest = fetch_rounds w term ladr added.0 n answers in
      ground (
        arith,
        h.0,
        add_commit-Clean w Typed r found,
        All-append (Clean w Typed) added.1 rest.1,
        fetch_rounds-Clean term ladr added.0 n answers h.1,
      )

  catch_up-Clean :
      (env : Env) (r : Raft) (call : AppendEntry)
      → All (FineAnswer w Typed) env.fetch_answers
      → All (Clean w Typed) (catch_up w env r call).effects
  unfolding catch_up send_reply_object_commited send_encoded_reply
  catch_up-Clean env r call h =
      let n = pos_part (wrap_int (call.log_index -ℤ get_length_log r)) in
      let ladr = (get_leader_addr r.peers).0 in
      let f = fetch_rounds w r.term ladr r n env.fetch_answers in
      ground (
        arith,
        fetch_rounds-Clean r.term ladr r n env.fetch_answers h,
        All-append (Clean w Typed) f.1 (send_reply_object_commited w f.0 true ∷ []),
      )

  handle_entry-Clean :
      (env : Env) (r : Raft) (call : AppendEntry)
      → All (FineAnswer w Typed) env.fetch_answers
      → All (Clean w Typed) (handle_entry w env r call).effects
  unfolding handle_entry send_reply_object_commited send_encoded_reply
  handle_entry-Clean env r call h = ground (arith, catch_up-Clean env r call h)

  handle_commit_request-Clean :
      (env : Env) (r : Raft) (call : AppendEntry)
      → Honest w
      → Typed call.new_object
      → All (Clean w Typed) (handle_commit_request w env r call).effects
  unfolding handle_commit_request send_reply_object_commited send_encoded_reply
  handle_commit_request-Clean env r call h t =
      let c = commit_object w env r call.new_object in
      ground (
        arith,
        commit_object-Clean w Typed env r call.new_object h t,
        All-append (Clean w Typed) c.1 (send_reply_object_commited w c.0 true ∷ []),
      )

  handle_append_entry-Clean :
      (env : Env) (r : Raft) (call : AppendEntry)
      → Honest w
      → Fine w Typed call.new_object
      → All (FineAnswer w Typed) env.fetch_answers
      → All (Clean w Typed) (handle_append_entry w env r call).effects
  unfolding handle_append_entry
  handle_append_entry-Clean env r call h f a =
      ground (arith, f, handle_commit_request-Clean env r call h, handle_entry-Clean env r call a)

  handle_request_vote-Clean :
      (r : Raft) (call : RequestVote) → All (Clean w Typed) (handle_request_vote w r call).effects
  unfolding handle_request_vote send_reply_leader_vote send_encoded_reply
  handle_request_vote-Clean r call = ground arith

  handle_fetch-Clean :
      (r : Raft) (call : FetchMissingEntries) → All (Clean w Typed) (handle_fetch w r call).effects
  unfolding handle_fetch respond_fetch_missing_entries send_encoded_reply
  handle_fetch-Clean r call = ground arith

  dispatch-Clean :
      (env : Env) (r : Raft) (rp : Packet) (dt : DataType)
      → Honest w
      → (dt ≡ append_entry → Fine w Typed (decode_payload w.entries rp.payload).0.new_object)
      → All (FineAnswer w Typed) env.fetch_answers
      → All (Clean w Typed) (dispatch w env r rp dt).effects
  unfolding dispatch
  dispatch-Clean env r rp request_vote h f a =
      handle_request_vote-Clean r (decode_payload w.votes rp.payload).0
  dispatch-Clean env r rp append_entry h f a =
      handle_append_entry-Clean env r (decode_payload w.entries rp.payload).0 h (f refl) a
  dispatch-Clean env r rp fetch_missing_entries h f a =
      handle_fetch-Clean r (decode_payload w.fetches rp.payload).0
  dispatch-Clean env r rp (unknown_type t) h f a = tt

  pub handle_rpc-Clean :
      (env : Env) (r : Raft) (rp : Packet)
      → Honest w
      → (rp.caller ≡ none) ⊎ FinePacket w Typed rp
      → All (FineAnswer w Typed) env.fetch_answers
      → All (Clean w Typed) (handle_rpc w env r rp).effects
  unfolding handle_rpc
  handle_rpc-Clean env r rp h f a = elim (Option-cases rp.caller) [
    | inl e ↦ ground (arith, e)
    | inr (c, e) ↦ elim f [
      | inl d ↦ absurd cc
      | inr g ↦ ground (
        arith,
        e,
        dispatch-Clean env (with_peers r (update_ttl env.now r.peers c.ip).0) rp rp.packet_type h g
            a,
      )
    ]
  ]
