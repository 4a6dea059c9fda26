-- ===== src/Raft/System/Divergence.antt =====
-- raft/raft.go: what a member that confirms an object keeps of it, and what two leaders get from the same
-- members.
use k8_p2p_failover_poc.Prelude.{
  ◌≤◌, ◌<◌, ◌≡◌, refl, sym, subst, ap, ◌∙◌, suc, pos, ℤ, ◌+ℤ◌, ◌≤ℤ◌, String, true, false, some,
  List, [], ◌∷◌, ◌++◌, map, length, All, arith, lookup, lookup-insert, text_keys, eq_iff,
  Option-cases, inl, inr,
}
use k8_p2p_failover_poc.Kube.Resources.{KubeCmd, is_no_cmd}
use k8_p2p_failover_poc.Network.Packet.{
  TcpAddr, append_entry, new_packet, encode_packet, read_request,
}
use k8_p2p_failover_poc.Raft.Peer.{leader}
use k8_p2p_failover_poc.Raft.Routing.{
  PeerRouting, leader_heartbeat_timeout, get_addr, is_peer, update_ttl,
}
use k8_p2p_failover_poc.Raft.Rpc.{Platform, AppendEntry, encode_payload}
use k8_p2p_failover_poc.Raft.State.{Raft, get_length_log, count_entries, is_role}
use k8_p2p_failover_poc.Raft.Commit.{Env, commit_object}
use k8_p2p_failover_poc.Raft.Replies.{send_reply_object_commited}
use k8_p2p_failover_poc.Raft.Handler.{handle_rpc, handle_append_entry, handle_entry, dispatch}
use k8_p2p_failover_poc.Raft.System.Committing.{
  proposes, heard_of, Confirms, Delivered, IsConfirmation, heard_from, commit_object-reaches,
}

is_peer-update_ttl :
    (now : ℤ) (p : PeerRouting) (addr other : String)
    → is_peer (update_ttl now p addr).0 other ≡ is_peer p other
unfolding is_peer update_ttl
is_peer-update_ttl now p addr other = elim (Option-cases (lookup addr p.table)) [
  | inl e ↦ rw (update_ttl, e) refl
  | inr (pr, e) ↦
      rw
        (
          update_ttl,
          e,
          is_peer,
          lookup-insert addr other
              (record pr { ttl = now +ℤ leader_heartbeat_timeout; active = true }) p.table,
        )
        (ground (arith, e, eq_iff addr other))
]

module _ (w : Platform) where
  -- The member after it has served the request of `caller`.
  abbrev pub after_request : Env → TcpAddr → AppendEntry → Raft → Raft
  after_request env caller call l =
      let p = new_packet caller (encode_payload w.entries call).0 append_entry in
      (handle_rpc w env l (read_request w.packets (encode_packet w.packets p).0).0).raft

  heard_of-after_request :
      (env : Env) (caller : TcpAddr) (call : AppendEntry) (l : Raft)
      → Delivered w caller call
      → is_no_cmd call.new_object ≡ false
      → Confirms w env caller call l
      → let p = new_packet caller (encode_payload w.entries call).0 append_entry in
        (handle_rpc w env l (read_request w.packets (encode_packet w.packets p).0).0).raft
        ≡ heard_of w env caller l
  unfolding handle_rpc dispatch new_packet handle_append_entry handle_entry get_length_log is_role
  heard_of-after_request env caller call l d n c =
      rw (d.whole, c.known, d.content) (ground (arith, c.follows, c.no_earlier, c.same_length))

  -- A member that knows both leaders, is in no earlier term than either and has a log of the length of
  -- theirs, and whose replies arrive.
  pub record ServesBoth (env : Env) (a b : TcpAddr) (x y : AppendEntry) (l : Raft) : Type 0 where
    pub first : Confirms w env a x l
    pub knows_other : is_peer l.peers b.ip ≡ true
    pub no_earlier : y.term ≤ℤ l.term
    pub heard :
        IsConfirmation w (send_reply_object_commited w (heard_of w env b (heard_of w env a l)) true)

  second-Confirms :
      (env : Env) (a b : TcpAddr) (x y : AppendEntry) (l : Raft)
      → Delivered w a x
      → is_no_cmd x.new_object ≡ false
      → y.log_index ≡ x.log_index
      → ServesBoth env a b x y l
      → Confirms w env b y (after_request env a x l)
  unfolding get_length_log
  second-Confirms env a b x y l d n i s =
      subst (Confirms w env b y) (sym (heard_of-after_request env a x l d n s.first)) (record {
        known = is_peer-update_ttl env.now l.peers a.ip b.ip ∙ s.knows_other;
        follows = s.first.follows;
        no_earlier = s.no_earlier;
        same_length = s.first.same_length ∙ sym i;
        heard = s.heard;
      })

  -- The members after the first leader's requests.
  abbrev pub after_requests :
      Env → TcpAddr → AppendEntry → List (String × Raft) → List (String × Raft)
  after_requests env a x [] = []
  after_requests env a x ((pr, l) ∷ members) =
      (pr, after_request env a x l) ∷ after_requests env a x members

  All-second :
      (env : Env) (a b : TcpAddr) (x y : AppendEntry) (members : List (String × Raft))
      → Delivered w a x
      → is_no_cmd x.new_object ≡ false
      → y.log_index ≡ x.log_index
      → All (λ (v : String × Raft). ServesBoth env a b x y v.1) members
      → All (λ (v : String × Raft). Confirms w env a x v.1) members
        × All (λ (v : String × Raft). Confirms w env b y v.1) (after_requests env a x members)
        × (length (after_requests env a x members) ≡ length members)
  All-second env a b x y [] d n i s = (tt, tt, refl)
  All-second env a b x y ((pr, l) ∷ members) d n i s =
      let (c, e, k) = All-second env a b x y members d n i s.1 in
      ((s.0.first, c), (second-Confirms env a b x y l d n i s.0, e), ap suc k)

  -- Two leaders with the same log each propose a command at its end, first `a`, then `b`. If as many
  -- members as make a quorum of either serve both, in no earlier term than theirs, then both leaders
  -- commit, each its own command at the same index.
  pub commits_diverge :
      (env : Env) (from_a from_b : TcpAddr) (a b : Raft) (x y : KubeCmd)
      (members : List (String × Raft))
      → a.role ≡ leader
      → b.role ≡ leader
      → (0 < a.quorum) × (a.quorum ≤ length members)
      → (0 < b.quorum) × (b.quorum ≤ length members)
      → b.commit_log ≡ a.commit_log
      → is_no_cmd x ≡ false
      → is_no_cmd y ≡ false
      → let call_a = proposes (get_addr a.peers) a.term (get_length_log a) x in
        let call_b = proposes (get_addr b.peers) b.term (get_length_log b) y in
        Delivered w from_a call_a
        → Delivered w from_b call_b
        → All (λ (v : String × Raft). ServesBoth env from_a from_b call_a call_b v.1) members
        → let votes_a =
            map (heard_from w env from_a (get_addr a.peers) a.term (get_length_log a) x) members in
          let votes_b =
            map
              (heard_from w env from_b (get_addr b.peers) b.term (get_length_log b) y)
              (after_requests env from_a call_a members) in
          let done_a = commit_object w (record env { votes = votes_a }) a x in
          let done_b = commit_object w (record env { votes = votes_b }) b y in
          (done_a.2 ≡ some true)
          × (done_b.2 ≡ some true)
          × (done_a.0.commit_log ≡ a.commit_log ++ x ∷ [])
          × (done_b.0.commit_log ≡ a.commit_log ++ y ∷ [])
  unfolding get_length_log
  commits_diverge env from_a from_b a b x y members la lb qa qb same nx ny da db s =
      let call_a = proposes (get_addr a.peers) a.term (get_length_log a) x in
      let call_b = proposes (get_addr b.peers) b.term (get_length_log b) y in
      let i : get_length_log b ≡ get_length_log a = ap (λ l. pos (count_entries l)) same in
      let (ca, cb, k) = All-second env from_a from_b call_a call_b members da nx i s in
      let (ta, xa) = commit_object-reaches w env from_a a x members la qa.0 qa.1 nx da ca in
      let (tb, xb) =
        commit_object-reaches w env from_b b y (after_requests env from_a call_a members) lb qb.0
          (omega (arith, qb.1, k)) ny db cb in
      (ta, tb, xa, xb ∙ ap (λ l. l ++ y ∷ []) same)
