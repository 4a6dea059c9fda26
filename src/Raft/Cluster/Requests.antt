-- ===== src/Raft/Cluster/Requests.antt =====
-- raft/raft.go: which objects the loop sends, and which a fetch gives.
use k8_p2p_failover_poc.Prelude.{
  zero, suc, ◌≡◌, refl, sym, subst, ℤ, pos, negsuc, ◌+ℤ◌, wrap_int, String, false, some, List, [],
  ◌∷◌, map, inl, inr, All, All-get, arith, Option-cases, text_keys,
}
use k8_p2p_failover_poc.Kube.Resources.{KubeCmd, no_cmd, is_no_cmd}
use k8_p2p_failover_poc.Network.Packet.{
  Packet, append_entry, new_packet, encode_packet, await_response,
}
use k8_p2p_failover_poc.Raft.Routing.{get_addr, get_peers_address}
use k8_p2p_failover_poc.Raft.Routing.Members.{nonempty}
use k8_p2p_failover_poc.Raft.Rpc.{Platform, FetchMissingEntries, encode_payload, decode_payload}
use k8_p2p_failover_poc.Raft.State.{
  Raft, Effect, reply, request, get_log_item, update_term, get_length_log,
}
use k8_p2p_failover_poc.Raft.Election.{request_leader_votes, send_request_leader_votes}
use k8_p2p_failover_poc.Raft.Commit.{packet, no_answer}
use k8_p2p_failover_poc.Raft.Replies.{respond_fetch_missing_entries, send_encoded_reply}
use k8_p2p_failover_poc.Raft.Handler.{handle_fetch}
use k8_p2p_failover_poc.Raft.Loop.{Node, choose, heartbeat, send_log_updates}
use k8_p2p_failover_poc.Raft.System.{Run, chooses, beats}
use k8_p2p_failover_poc.Raft.System.Exchange.{answer_of}
use k8_p2p_failover_poc.Raft.Cluster.Objects.{
  Honest, Fine, Clean, FineAnswer, entry-Fine, fetch-Fine,
}

module _ (w : Platform) (Typed : KubeCmd → Type 0) (h : Honest w) where
  request_leader_votes-Clean : (r : Raft) (t : ℤ) → All (Clean w Typed) (request_leader_votes w r t)
  unfolding request_leader_votes send_request_leader_votes
  request_leader_votes-Clean r t = by_list (nonempty (get_peers_address r.peers))
    where
      by_list :
          (l : List String)
          → All
              (Clean w Typed)
              (map (λ pr. send_request_leader_votes w (get_addr r.peers) pr t (get_length_log r)) l)
      by_list [] = tt
      by_list (a ∷ l) = (tt, by_list l)

  send_log_updates-Clean : (r : Raft) → All (Clean w Typed) (send_log_updates w r)
  unfolding send_log_updates is_no_cmd
  send_log_updates-Clean r = by_list (nonempty (get_peers_address r.peers))
    where
      by_list :
          (l : List String)
          → All (Clean w Typed) (
              map
                (λ peer.
                  request peer
                    (encode_payload w.entries (record {
                      term = r.term;
                      leader_addr = get_addr r.peers;
                      log_index = get_length_log r;
                      new_object = no_cmd;
                      confirmed = false;
                    })).0
                    append_entry)
                l)
      by_list [] = tt
      by_list (a ∷ l) = (entry-Fine w Typed _ h (inl refl), by_list l)

  pub Run-Clean : {n m : Node} {es : List Effect} → Run w n m es → All (Clean w Typed) es
  unfolding choose heartbeat
  Run-Clean {n} (chooses now ph) =
      let t = wrap_int (n.raft.term +ℤ pos 1) in
      ground (arith, request_leader_votes-Clean (update_term n.raft t) t)
  Run-Clean {n} (beats ph) = ground (arith, send_log_updates-Clean n.raft)
  Run-Clean run = tt

  item-Fine :
      (r : Raft) (i : ℤ) (c : KubeCmd)
      → All Typed r.commit_log
      → get_log_item r i ≡ some c
      → Fine w Typed c
  unfolding get_log_item is_no_cmd
  item-Fine r (pos zero) c a e = let p : no_cmd ≡ c = cc in subst (Fine w Typed) p (inl refl)
  item-Fine r (pos (suc n)) c a e = inr (All-get Typed r.commit_log n c a e)
  item-Fine r (negsuc n) c a e = absurd cc

  read-FineAnswer :
      (p : Packet)
      → Fine w Typed (decode_payload w.fetches p.payload).0.new_object
      → FineAnswer w Typed (answer_of w (reply (encode_packet w.packets p).0 ∷ []))
  unfolding await_response
  read-FineAnswer p f = elim (h.packets p) [
    | inl e ↦
        let q : answer_of w (reply (encode_packet w.packets p).0 ∷ []) ≡ packet p.payload =
          ground (arith, e) in
        subst (FineAnswer w Typed) (sym q) f
    | inr (c, e, d) ↦
        let q : answer_of w (reply (encode_packet w.packets p).0 ∷ []) ≡ no_answer =
          ground (arith, d) in
        subst (FineAnswer w Typed) (sym q) tt
  ]

  respond-FineAnswer :
      (r : Raft) (c : KubeCmd) (i : ℤ) (laddr : String)
      → Fine w Typed c
      → FineAnswer w Typed (answer_of w (respond_fetch_missing_entries w r c i laddr ∷ []))
  unfolding respond_fetch_missing_entries send_encoded_reply new_packet
  respond-FineAnswer r c i laddr f = read-FineAnswer _ (fetch-Fine w Typed _ h f)

  pub handle_fetch-FineAnswer :
      (r : Raft) (call : FetchMissingEntries)
      → All Typed r.commit_log
      → FineAnswer w Typed (answer_of w (handle_fetch w r call).effects)
  unfolding handle_fetch
  handle_fetch-FineAnswer r call a = elim (Option-cases (get_log_item r call.log_index)) [
    | inl e ↦ ground (arith, e)
    | inr (c, e) ↦
        let f = item-Fine r call.log_index c a e in
        ground (arith, e, respond-FineAnswer r c call.log_index call.leader_addr f)
  ]
