-- ===== src/Raft/System/Committing.antt =====
-- raft/raft.go: a leader and the nodes that confirm an object, from the bytes of the requests to those of
-- the replies.
use k8_p2p_failover_poc.Prelude.{
  ℕ, ◌≤◌, ◌<◌, ◌≡◌, refl, ap, ◌∙◌, ℤ, ◌≤ℤ◌, String, true, false, some, List, [], ◌∷◌, ◌++◌, map,
  length, All, arith,
}
use k8_p2p_failover_poc.Kube.Resources.{KubeCmd, is_no_cmd}
use k8_p2p_failover_poc.Network.Packet.{
  TcpAddr, append_entry, new_packet, encode_packet, read_request, await_response,
}
use k8_p2p_failover_poc.Raft.Peer.{leader, member}
use k8_p2p_failover_poc.Raft.Routing.{get_addr, is_peer, update_ttl}
use k8_p2p_failover_poc.Raft.Rpc.{Platform, AppendEntry, encode_payload, decode_payload}
use k8_p2p_failover_poc.Raft.State.{
  Raft, Effect, reply, request, get_length_log, to_cluster, close_done, send_new_term,
  send_new_leader, is_role,
}
use k8_p2p_failover_poc.Raft.Election.{VoteEvent, answered}
use k8_p2p_failover_poc.Raft.Election.Tally.{in_time, confirming}
use k8_p2p_failover_poc.Raft.Commit.{Env, packet, send_append_entry, commit_object}
use k8_p2p_failover_poc.Raft.Commit.Log.{commit_object-quorum}
use k8_p2p_failover_poc.Raft.Replies.{send_reply_object_commited}
use k8_p2p_failover_poc.Raft.Handler.{
  with_peers, handle_rpc, handle_append_entry, handle_entry, dispatch,
}
use k8_p2p_failover_poc.Raft.System.Exchange.{answer_of, served}
use k8_p2p_failover_poc.Raft.System.Winning.{event_of}

-- The request of the leader `self` of the term `t`, with `i` entries in its log.
abbrev pub proposes : String → ℤ → ℤ → KubeCmd → AppendEntry
proposes self t i obj = record {
  term = t;
  leader_addr = self;
  log_index = i;
  new_object = obj;
  confirmed = false;
}

module _ (w : Platform) where
  -- The reply is read where it arrives, and confirms.
  abbrev pub IsConfirmation : Effect → Type 0
  IsConfirmation (reply bytes) =
      (p : _) × (await_response w.packets bytes ≡ some p)
      × ((decode_payload w.replies p.payload).0.confirmed ≡ true)
  IsConfirmation _ = ⊥

  abbrev pub heard_of : Env → TcpAddr → Raft → Raft
  heard_of env caller l = with_peers l (update_ttl env.now l.peers caller.ip).0

  -- A peer that is a member, is in no earlier term and has a log of the same length, and whose reply
  -- arrives.
  pub record Confirms (env : Env) (caller : TcpAddr) (call : AppendEntry) (l : Raft) : Type 0 where
    pub known : is_peer l.peers caller.ip ≡ true
    pub follows : l.role ≡ member
    pub no_earlier : call.term ≤ℤ l.term
    pub same_length : get_length_log l ≡ call.log_index
    pub heard : IsConfirmation (send_reply_object_commited w (heard_of env caller l) true)

  -- The request of the leader is read as it was sent.
  pub record Delivered (caller : TcpAddr) (call : AppendEntry) : Type 0 where
    pub whole :
        let p = new_packet caller (encode_payload w.entries call).0 append_entry in
        (read_request w.packets (encode_packet w.packets p).0).0 ≡ p
    pub content : (decode_payload w.entries (encode_payload w.entries call).0).0 ≡ call

  accepts :
      (env : Env) (caller : TcpAddr) (call : AppendEntry) (l : Raft)
      → is_no_cmd call.new_object ≡ false
      → Confirms env caller call l
      → (handle_append_entry w env (heard_of env caller l) call).effects
        ≡ send_reply_object_commited w (heard_of env caller l) true ∷ []
  unfolding handle_append_entry handle_entry get_length_log is_role
  accepts env caller call l n c = ground (arith, c.follows, c.no_earlier, c.same_length)

  rpc_accepts :
      (env : Env) (caller : TcpAddr) (call : AppendEntry) (l : Raft)
      → Delivered caller call
      → is_no_cmd call.new_object ≡ false
      → Confirms env caller call l
      → let p = new_packet caller (encode_payload w.entries call).0 append_entry in
        (handle_rpc w env l (read_request w.packets (encode_packet w.packets p).0).0).effects
        ≡ send_reply_object_commited w (heard_of env caller l) true ∷ []
  unfolding handle_rpc dispatch new_packet
  rpc_accepts env caller call l d n c =
      rw (d.whole, c.known, d.content) (accepts env caller call l n c)

  confirmation-answered :
      (e : Effect)
      → IsConfirmation e
      → (p : List ℕ) × (event_of w (answer_of w (e ∷ [])) ≡ answered p)
        × ((decode_payload w.replies p).0.confirmed ≡ true)
  confirmation-answered (reply bytes) (p, r, k) =
      let q : answer_of w (reply bytes ∷ []) ≡ packet p.payload = ground (arith, r) in
      (p.payload, ap (event_of w) q, k)
  confirmation-answered (to_cluster c) r = elim r [ ]
  confirmation-answered close_done r = elim r [ ]
  confirmation-answered send_new_term r = elim r [ ]
  confirmation-answered (send_new_leader a) r = elim r [ ]
  confirmation-answered (request a b t) r = elim r [ ]

  -- What the leader hears of its request to the peer at `pr`, whose state is `l`.
  abbrev pub heard_from : Env → TcpAddr → String → ℤ → ℤ → KubeCmd → String × Raft → VoteEvent
  heard_from env caller self t i obj (pr, l) =
      event_of w (served w env l caller (send_append_entry w self pr t i obj))

  confirmed :
      (env : Env) (caller : TcpAddr) (self pr : String) (t i : ℤ) (obj : KubeCmd) (l : Raft)
      → Delivered caller (proposes self t i obj)
      → is_no_cmd obj ≡ false
      → Confirms env caller (proposes self t i obj) l
      → (p : List ℕ) × (heard_from env caller self t i obj (pr, l) ≡ answered p)
        × ((decode_payload w.replies p).0.confirmed ≡ true)
  unfolding send_append_entry
  confirmed env caller self pr t i obj l d n c =
      let call = proposes self t i obj in
      let (p, e, k) =
        confirmation-answered (send_reply_object_commited w (heard_of env caller l) true) c.heard in
      (p, ap (λ es. event_of w (answer_of w es)) (rpc_accepts env caller call l d n c) ∙ e, k)

  confirming-heard_from :
      (env : Env) (caller : TcpAddr) (self : String) (t i : ℤ) (obj : KubeCmd)
      (members : List (String × Raft))
      → Delivered caller (proposes self t i obj)
      → is_no_cmd obj ≡ false
      → All (λ (v : String × Raft). Confirms env caller (proposes self t i obj) v.1) members
      → confirming w (in_time (map (heard_from env caller self t i obj) members)) ≡ length members
  confirming-heard_from env caller self t i obj [] d n c = refl
  confirming-heard_from env caller self t i obj ((pr, l) ∷ members) d n c =
      let (p, e, k) = confirmed env caller self pr t i obj l d n c.0 in
      let rest = confirming-heard_from env caller self t i obj members d n c.1 in
      rw (e, k) (omega (arith, rest))

  -- A leader is given a command that is not empty. If its requests arrive at as many peers as make a
  -- quorum, each of which knows it, is a member, is in no earlier term and has a log of the same length,
  -- and whose replies can be read, then with these replies it commits the command, at the end of its log.
  -- A member in a later term confirms, too.
  pub commit_object-reaches :
      (env : Env) (caller : TcpAddr) (r : Raft) (obj : KubeCmd) (members : List (String × Raft))
      → r.role ≡ leader
      → 0 < r.quorum
      → r.quorum ≤ length members
      → is_no_cmd obj ≡ false
      → let call = proposes (get_addr r.peers) r.term (get_length_log r) obj in
        Delivered caller call
        → All (λ (v : String × Raft). Confirms env caller call v.1) members
        → let votes =
            map (heard_from env caller (get_addr r.peers) r.term (get_length_log r) obj) members in
          let committed = commit_object w (record env { votes = votes }) r obj in
          (committed.2 ≡ some true) × (committed.0.commit_log ≡ r.commit_log ++ obj ∷ [])
  commit_object-reaches env caller r obj members lead z q n d c =
      let self = get_addr r.peers in
      let events = map (heard_from env caller self r.term (get_length_log r) obj) members in
      let enough =
        confirming-heard_from env caller self r.term (get_length_log r) obj members d n c in
      let (i, log, out) = commit_object-quorum w (record env { votes = events }) r obj lead z in
      let done = i.1 (omega (arith, enough, q)) in
      (done, log ∙ ap (λ l. r.commit_log ++ l) (out ∙ rw done refl))
