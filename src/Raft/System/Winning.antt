-- ===== src/Raft/System/Winning.antt =====
-- raft/raft.go: a candidate and the nodes that vote for it, from the bytes of the requests to those of the
-- replies.
use k8_p2p_failover_poc.Prelude.{
  ℕ, suc, ◌≤◌, ◌<◌, ◌≡◌, refl, subst, ap, ◌∙◌, ℤ, pos, ◌+ℤ◌, wrap_int, ◌≤ℤ◌, ◌<ℤ◌, String, true,
  false, some, List, [], ◌∷◌, map, length, All, arith,
}
use k8_p2p_failover_poc.Network.Packet.{
  TcpAddr, request_vote, new_packet, encode_packet, read_request, await_response,
}
use k8_p2p_failover_poc.Raft.Peer.{leader, candidate, member}
use k8_p2p_failover_poc.Raft.Routing.{get_addr, is_peer, update_ttl, make_leader}
use k8_p2p_failover_poc.Raft.Rpc.{Platform, RequestVote, encode_payload, decode_payload}
use k8_p2p_failover_poc.Raft.State.{
  Raft, Effect, reply, request, get_length_log, nil_channel, unbuffered, Channel, to_cluster,
  close_done, send_new_term, send_new_leader, change_role, update_term,
}
use k8_p2p_failover_poc.Raft.Election.{
  VoteEvent, answered, timed_out, send_request_leader_votes, request_leader_votes,
}
use k8_p2p_failover_poc.Raft.Election.Tally.{in_time, count_votes-quorum}
use k8_p2p_failover_poc.Raft.Commit.{Answer, packet, Env}
use k8_p2p_failover_poc.Raft.Replies.{send_reply_leader_vote}
use k8_p2p_failover_poc.Raft.Handler.{with_peers, handle_rpc, handle_request_vote, dispatch}
use k8_p2p_failover_poc.Raft.Loop.{Node, choosing, electing, choose, finish_election}
use k8_p2p_failover_poc.Raft.System.{Run, chooses, elects, votes_read}
use k8_p2p_failover_poc.Raft.System.Exchange.{answer_of, served}

-- The request that the candidate `self` sends for the term `t`, with `i` entries in its log.
abbrev pub asks : String → ℤ → ℤ → RequestVote
asks self t i = record { term = t; candidate_addr = self; log_index = i; agreed = false }

module _ (w : Platform) where
  abbrev pub event_of : Answer → VoteEvent
  event_of (packet p) = answered p
  event_of _ = timed_out

  -- The reply can be read where it arrives.
  abbrev pub Readable : Effect → Type 0
  Readable (reply bytes) = (p : _) × (await_response w.packets bytes ≡ some p)
  Readable _ = ⊥

  -- The voter as it answers a candidate of a greater term.
  abbrev pub granting : Env → TcpAddr → Raft → RequestVote → Raft
  granting env caller l call =
      let r = with_peers l (update_ttl env.now l.peers caller.ip).0 in
      with_peers (change_role (update_term r call.term) member)
        (make_leader r.peers call.candidate_addr).0

  -- A peer whose term is less than the candidate's and whose log is not longer, and whose reply arrives.
  pub record Supports (env : Env) (caller : TcpAddr) (call : RequestVote) (l : Raft) : Type 0 where
    pub known : is_peer l.peers caller.ip ≡ true
    pub behind : l.term <ℤ call.term
    pub no_longer : get_length_log l ≤ℤ call.log_index
    pub heard : Readable (send_reply_leader_vote w (granting env caller l call))

  -- The request of the candidate is read as it was sent.
  pub record Delivered (caller : TcpAddr) (call : RequestVote) : Type 0 where
    pub whole :
        let p = new_packet caller (encode_payload w.votes call).0 request_vote in
        (read_request w.packets (encode_packet w.packets p).0).0 ≡ p
    pub content : (decode_payload w.votes (encode_payload w.votes call).0).0 ≡ call

  -- What is done behind the reply.
  abbrev told : Channel → List Effect
  told nil_channel = []
  told unbuffered = send_new_term ∷ []

  grants :
      (env : Env) (caller : TcpAddr) (call : RequestVote) (l : Raft)
      → Supports env caller call l
      → (handle_request_vote w (with_peers l (update_ttl env.now l.peers caller.ip).0) call).effects
        ≡ send_reply_leader_vote w (granting env caller l call) ∷ told l.new_term
  unfolding handle_request_vote get_length_log change_role update_term
  grants env caller call l s = ground (arith, s.behind, s.no_longer)

  rpc_grants :
      (env : Env) (caller : TcpAddr) (call : RequestVote) (l : Raft)
      → Delivered caller call
      → Supports env caller call l
      → let p = new_packet caller (encode_payload w.votes call).0 request_vote in
        (handle_rpc w env l (read_request w.packets (encode_packet w.packets p).0).0).effects
        ≡ send_reply_leader_vote w (granting env caller l call) ∷ told l.new_term
  unfolding handle_rpc dispatch new_packet
  rpc_grants env caller call l d s = rw (d.whole, s.known, d.content) (grants env caller call l s)

  Readable-answered :
      (e : Effect) (es : List Effect)
      → Readable e
      → (p : List ℕ) × (event_of (answer_of w (e ∷ es)) ≡ answered p)
  Readable-answered (reply bytes) es (p, r) =
      let q : answer_of w (reply bytes ∷ es) ≡ packet p.payload = ground (arith, r) in
      (p.payload, ap event_of q)
  Readable-answered (to_cluster c) es r = elim r [ ]
  Readable-answered close_done es r = elim r [ ]
  Readable-answered send_new_term es r = elim r [ ]
  Readable-answered (send_new_leader a) es r = elim r [ ]
  Readable-answered (request a b t) es r = elim r [ ]

  -- What the candidate hears of its request to the peer at `pr`, whose state is `l`.
  abbrev pub heard_from : Env → TcpAddr → String → ℤ → ℤ → String × Raft → VoteEvent
  heard_from env caller self t i (pr, l) =
      event_of (served w env l caller (send_request_leader_votes w self pr t i))

  supported :
      (env : Env) (caller : TcpAddr) (self pr : String) (t i : ℤ) (l : Raft)
      → Delivered caller (asks self t i)
      → Supports env caller (asks self t i) l
      → (p : List ℕ) × (heard_from env caller self t i (pr, l) ≡ answered p)
  unfolding send_request_leader_votes
  supported env caller self pr t i l d s =
      let call = asks self t i in
      let (p, e) =
        Readable-answered (send_reply_leader_vote w (granting env caller l call)) (told l.new_term)
          s.heard in
      (p, ap (λ es. event_of (answer_of w es)) (rpc_grants env caller call l d s) ∙ e)

  heard_in_time :
      (env : Env) (caller : TcpAddr) (self : String) (t i : ℤ) (voters : List (String × Raft))
      → Delivered caller (asks self t i)
      → All (λ (v : String × Raft). Supports env caller (asks self t i) v.1) voters
      → length (in_time (map (heard_from env caller self t i) voters)) ≡ length voters
  heard_in_time env caller self t i [] d s = refl
  heard_in_time env caller self t i ((pr, l) ∷ voters) d s =
      let (p, e) = supported env caller self pr t i l d s.0 in
      rw e (ap suc (heard_in_time env caller self t i voters d s.1))

  -- A candidate that is about to stand for election sends its requests. If they arrive at as many peers
  -- as make a quorum, each of which knows it, is in an earlier term and has no longer log, and whose
  -- replies can be read, then the loop can go on with these replies, and makes it leader of the new term.
  pub candidate_wins :
      (env : Env) (now : ℤ) (caller : TcpAddr) (r : Raft) (voters : List (String × Raft))
      → r.role ≡ candidate
      → 0 < r.quorum
      → r.quorum ≤ length voters
      → let t = wrap_int (r.term +ℤ pos 1) in
        let call = asks (get_addr r.peers) t (get_length_log r) in
        Delivered caller call
        → All (λ (v : String × Raft). Supports env caller call v.1) voters
        → let standing : Node = record { raft = update_term r t; phase = electing } in
          let won = finish_election true (update_term r t) in
          Run w
            (record { raft = r; phase = choosing })
            standing
            (request_leader_votes w (update_term r t) t)
          × ((run : Run w standing won []) × (votes_read run
                ≡ map (heard_from env caller (get_addr r.peers) t (get_length_log r)) voters))
          × (won.raft.role ≡ leader)
          × (won.raft.term ≡ t)
  unfolding choose finish_election change_role update_term get_length_log
  candidate_wins env now caller r voters c z q d s =
      let t = wrap_int (r.term +ℤ pos 1) in
      let events = map (heard_from env caller (get_addr r.peers) t (get_length_log r)) voters in
      let chosen : choose w now r ≡ (
        record { raft = update_term r t; phase = electing },
        request_leader_votes w (update_term r t) t,
      ) =
        ground (arith, c) in
      let enough = heard_in_time env caller (get_addr r.peers) t (get_length_log r) voters d s in
      (
        subst (λ (x : Node × List Effect). Run w (record { raft = r; phase = choosing }) x.0 x.1)
            chosen (chooses now refl),
        (
          elects events true refl
              ((count_votes-quorum r.quorum 0 events z).1 (omega (arith, enough, q))),
          refl,
        ),
        refl,
        refl,
      )
