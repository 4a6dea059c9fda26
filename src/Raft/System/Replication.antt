-- ===== src/Raft/System/Replication.antt =====
-- raft/raft.go: two nodes, of which one fetches from the other what its log lacks.
use k8_p2p_failover_poc.Prelude.{
  ℕ, suc, ◌+◌, ◌<◌, ◌≤◌, ◌≡◌, refl, sym, ap, ◌∙◌, ℤ, pos, ◌≤ℤ◌, String, true, false, some, List, [],
  ◌∷◌, ◌++◌, length, arith, append_assoc, get_elem?, All, All-append, subst, length-append,
  get_elem?-append_length, ◌^◌,
}
use k8_p2p_failover_poc.Kube.Resources.{KubeCmd, is_no_cmd}
use k8_p2p_failover_poc.Network.Packet.{Packet, TcpAddr}
use k8_p2p_failover_poc.Raft.Peer.{leader, member}
use k8_p2p_failover_poc.Raft.Routing.{get_leader_addr, is_peer}
use k8_p2p_failover_poc.Raft.Rpc.{Platform, decode_payload}
use k8_p2p_failover_poc.Raft.State.{Raft, Effect, get_length_log, count_entries}
use k8_p2p_failover_poc.Raft.Commit.{Env}
use k8_p2p_failover_poc.Raft.Replies.{send_reply_object_commited}
use k8_p2p_failover_poc.Raft.State.Log.{IsFull, count_entries-full}
use k8_p2p_failover_poc.Raft.Handler.CatchUp.{Serves, Caught, handle_entry-Serves}
use k8_p2p_failover_poc.Raft.Handler.Entries.{IsFromPeer, handle_rpc-member}
use k8_p2p_failover_poc.Raft.Handler.{hears, returned, handle_rpc}
use k8_p2p_failover_poc.Raft.System.Exchange.{
  fetches_served, AllArrive, Arrives-payload, served-fetch, given,
}

module _ (w : Platform) where
  fetches_served-Serves :
      (env : Env) (l : Raft) (caller : TcpAddr) (term : ℤ) (ladr : String) (n : ℕ)
      (before cs : List KubeCmd)
      → is_peer l.peers caller.ip ≡ true
      → l.role ≡ leader
      → term ≤ℤ l.term
      → l.commit_log ≡ before ++ cs
      → n ≡ length before
      → n + length cs ≤ count_entries l.commit_log
      → All (λ c. is_no_cmd c ≡ false) cs
      → AllArrive w caller (record { ip = w.parse_ip ladr; port = l.raft_port }) term ladr n cs
      → Serves w n cs (fetches_served w env l caller term ladr n (length cs))
  fetches_served-Serves env l caller term ladr n before [] p r t e h k full a = tt
  fetches_served-Serves env l caller term ladr n before (c ∷ cs) p r t e h k full a =
      let m = given w (suc n) c in
      let at : get_elem? l.commit_log n ≡ some c =
        rw (e, h) (get_elem?-append_length before cs c) in
      let bound : suc n ≤ count_entries l.commit_log = omega (arith, k) in
      let decoded = Arrives-payload w (record { ip = w.parse_ip ladr; port = l.raft_port }) m a.1 in
      let rest =
        fetches_served-Serves env l caller term ladr (suc n) (before ++ c ∷ []) cs p r t
          (e ∙ sym (append_assoc before (c ∷ []) cs))
          (omega (arith, h, length-append before (c ∷ []))) (omega (arith, k)) full.1 a.2 in
      subst
        (λ x. Serves w n (c ∷ cs) (x ∷ fetches_served w env l caller term ladr (suc n) (length cs)))
        (sym (served-fetch w env l caller term ladr n c p r t bound at a.0 a.1))
        (ap (λ d. d.log_index) decoded, ap (λ d. d.new_object) decoded, full.0, rest)

  -- A peer sends a call of the leader, in no later term, to a member whose log is a proper prefix of
  -- the leader's, by fewer than 2^63 entries; the call tells of the leader's log. If no entry is the empty
  -- command, the leader's term is not less than the member's, the leader knows the member as a peer, and
  -- its handler serves each fetch in the same state, with messages that fit the buffers, then the
  -- member's handler returns, the logs are equal in the end, and the last thing that it sends is the
  -- answer that the call is confirmed.
  pub handle_rpc-served :
      (env lead : Env) (f l : Raft) (rp : Packet) (sender caller : TcpAddr) (cs : List KubeCmd)
      → IsFromPeer f rp sender
      → f.role ≡ member
      → (decode_payload w.entries rp.payload).0.term ≤ℤ f.term
      → IsFull f
      → All (λ c. is_no_cmd c ≡ false) cs
      → l.commit_log ≡ f.commit_log ++ cs
      → 0 < length cs
      → length cs < 2 ^ 63
      → l.role ≡ leader
      → f.term ≤ℤ l.term
      → is_peer l.peers caller.ip ≡ true
      → (decode_payload w.entries rp.payload).0.log_index ≡ get_length_log l
      → let ladr = (get_leader_addr (hears env f sender).peers).0 in
        let n = length f.commit_log in
        AllArrive w caller (record { ip = w.parse_ip ladr; port = l.raft_port }) f.term ladr n cs
        → env.fetch_answers ≡ fetches_served w lead l caller f.term ladr n (length cs)
        → let h = handle_rpc w env f rp in
          (h.raft.commit_log ≡ l.commit_log)
          × (h.ending ≡ returned)
          × ((es : List Effect) × (h.effects ≡ es ++ send_reply_object_commited w h.raft true ∷ []))
  unfolding get_length_log
  handle_rpc-served env lead f l rp sender caller cs from q tc ff fc e z m r t p i a s =
      let ladr = (get_leader_addr (hears env f sender).peers).0 in
      let n = length f.commit_log in
      let total : count_entries l.commit_log ≡ n + length cs = rw e (
        count_entries-full (f.commit_log ++ cs) (All-append _ f.commit_log cs ff fc)
        ∙ length-append f.commit_log cs) in
      let served_all =
        fetches_served-Serves lead l caller f.term ladr n f.commit_log cs p r t e refl
          (omega (arith, total)) fc a in
      let entered =
        handle_entry-Serves w env (hears env f sender) (decode_payload w.entries rp.payload).0 n cs
          (count_entries-full f.commit_log ff) (i ∙ ap pos total) z m
          (subst (λ x. Serves w n cs x) (sym s) served_all) in
      let h = subst (Caught w f cs) (sym (handle_rpc-member w env f rp sender from q tc)) entered in
      (h.0 ∙ sym e, h.1, h.2)
