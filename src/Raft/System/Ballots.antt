-- ===== src/Raft/System/Ballots.antt =====
-- raft/raft.go: the candidates that one node backs in the course of its run, and the elections of a term.
-- A vote request is served in one step here; Raft/Handler/Races.antt has those that overlap.
use k8_p2p_failover_poc.Prelude.{
  ◌+◌, ◌≤◌, ◌<◌, ◌≢◌, ◌≡◌, refl, inl, inr, ℤ, pos, ◌+ℤ◌, ◌≤ℤ◌, ◌<ℤ◌, ◌^◌, ◌-◌, eq_ℤ, wrap_int,
  wrap_int-of_IsInt, +ℤ_parts, Bool, true, false, ◌&&◌, ◌||◌, ◌==◌, text_keys, String, List, [],
  ◌∷◌, length, arith, All, All-weaken, All-get, Option-cases, Bool-cases, eq_iff,
}
use k8_p2p_failover_poc.Network.Packet.{Packet, request_vote}
use k8_p2p_failover_poc.Raft.Peer.{candidate}
use k8_p2p_failover_poc.Raft.Routing.{
  PeerRouting, get_addr, update_ttl, is_peer, lock_routing_table_entries,
}
use k8_p2p_failover_poc.Raft.Routing.Quorum.{size, quorums_meet}
use k8_p2p_failover_poc.Raft.Rpc.{Platform, RequestVote, decode_payload}
use k8_p2p_failover_poc.Raft.State.{Raft, get_length_log, change_role, update_term}
use k8_p2p_failover_poc.Raft.State.Effects.{has_reply}
use k8_p2p_failover_poc.Raft.Commit.{Env}
use k8_p2p_failover_poc.Raft.Replies.{send_reply_leader_vote}
use k8_p2p_failover_poc.Raft.Handler.{with_peers, handle_rpc, handle_request_vote, dispatch}
use k8_p2p_failover_poc.Raft.Loop.{Node, choosing, choose}
use k8_p2p_failover_poc.Raft.System.{Step}
use k8_p2p_failover_poc.Raft.System.Safety.{Step-term}

-- A term that can still be raised.
abbrev pub IsTerm : Raft → Type 0
IsTerm r = (pos 0 ≤ℤ r.term) × (r.term <ℤ pos (2 ^ 63 - 1))

-- A node backs a candidate for a term: it answers its vote request, whose log is no longer than its own,
-- or it is that candidate and stands for election.
pub data Backs (w : Platform) (t : ℤ) (who : String) (n : Node) : Node → Type 0 where
  votes :
      (env : Env) (rp : Packet)
      → rp.packet_type ≡ request_vote
      → (decode_payload w.votes rp.payload).0.term ≡ t
      → (decode_payload w.votes rp.payload).0.candidate_addr ≡ who
      → (decode_payload w.votes rp.payload).0.log_index ≤ℤ get_length_log n.raft
      → has_reply (handle_rpc w env n.raft rp).effects ≡ true
      → Backs w t who n (record n { raft = (handle_rpc w env n.raft rp).raft })
  stands :
      (now : ℤ)
      → n.phase ≡ choosing
      → n.raft.role ≡ candidate
      → wrap_int (n.raft.term +ℤ pos 1) ≡ t
      → get_addr n.raft.peers ≡ who
      → Backs w t who n (choose w now n.raft).0

-- A run of a node, with the terms and candidates that it has backed, the last one first.
pub data History (w : Platform) (n : Node) : Node → List (ℤ × String) → Type 0 where
  begins : History w n n []
  steps :
      {m k : Node} {backed : List (ℤ × String)}
      → History w n m backed
      → IsTerm m.raft
      → Step w m k
      → History w n k backed
  backs :
      {m k : Node} {backed : List (ℤ × String)} {t : ℤ} {who : String}
      → History w n m backed
      → IsTerm m.raft
      → Backs w t who m k
      → History w n k ((t, who) ∷ backed)

granted_term :
    (w : Platform) (r : Raft) (call : RequestVote)
    → call.log_index ≤ℤ get_length_log r
    → has_reply (handle_request_vote w r call).effects ≡ true
    → (r.term <ℤ call.term) × ((handle_request_vote w r call).raft.term ≡ call.term)
unfolding handle_request_vote change_role update_term has_reply send_reply_leader_vote
    get_length_log
granted_term w r call l g = ground arith

rpc_term :
    (w : Platform) (env : Env) (r : Raft) (rp : Packet)
    → rp.packet_type ≡ request_vote
    → (decode_payload w.votes rp.payload).0.log_index ≤ℤ get_length_log r
    → has_reply (handle_rpc w env r rp).effects ≡ true
    → (r.term <ℤ (decode_payload w.votes rp.payload).0.term)
      × ((handle_rpc w env r rp).raft.term ≡ (decode_payload w.votes rp.payload).0.term)
unfolding handle_rpc dispatch has_reply get_length_log
rpc_term w env r rp q l g = elim (Option-cases rp.caller) [
  | inl e ↦ absurd (ground arith)
  | inr (c, e) ↦ elim (Bool-cases (is_peer r.peers c.ip)) [
    | inl known ↦
        let r' = with_peers r (update_ttl env.now r.peers c.ip).0 in
        let call = (decode_payload w.votes rp.payload).0 in
        let same : handle_rpc w env r rp ≡ handle_request_vote w r' call = rw (e, known, q) refl in
        ground (arith, same, granted_term w r' call)
    | inr unknown ↦ absurd (ground arith)
  ]
]

Backs-term :
    {w : Platform} {t : ℤ} {who : String} {n m : Node}
    → IsTerm n.raft
    → Backs w t who n m
    → (n.raft.term <ℤ t) × (m.raft.term ≡ t)
unfolding choose update_term
Backs-term {w} {n} i (votes env rp q e c l g) = ground (arith, rpc_term w env n.raft rp q l g)
Backs-term {w} {n} i (stands now ph role e c) = ground (
  arith,
  wrap_int-of_IsInt (n.raft.term +ℤ pos 1) (ground (arith, +ℤ_parts n.raft.term (pos 1))),
  +ℤ_parts n.raft.term (pos 1),
)

-- Whether a candidate has been backed for a term.
unfoldable pub has_backed : ℤ → String → List (ℤ × String) → Bool
has_backed t who [] = false
has_backed t who ((u, c) ∷ backed) = (eq_ℤ u t && c == who) || has_backed t who backed

-- Each entry has a greater term than the ones before it.
abbrev Falls : List (ℤ × String) → Type 0
Falls [] = Unit
Falls ((t, c) ∷ backed) = All (λ (b : ℤ × String). b.0 <ℤ t) backed × Falls backed

History-term :
    {w : Platform} {n m : Node} {backed : List (ℤ × String)}
    → History w n m backed
    → All (λ (b : ℤ × String). b.0 ≤ℤ m.raft.term) backed × Falls backed
History-term begins = (tt, tt)
History-term (steps {m} {k} {backed} h i st) =
    let (below, falls) = History-term h in
    let risen = Step-term st i.0 i.1 in
    (All-weaken (λ b le. ground (arith, le, risen)) backed below, falls)
History-term (backs {m} {k} {backed} {t} {who} h i b) =
    let (below, falls) = History-term h in
    let (less, now) = Backs-term i b in
    let under =
      All-weaken (λ (b : ℤ × String) le. let l : b.0 <ℤ t = ground (arith, le, less) in l) backed
        below in
    (
      (ground (arith, now), All-weaken (λ b lt. ground (arith, lt, now)) backed under),
      (under, falls),
    )

has_backed-below :
    (t : ℤ) (who : String) (backed : List (ℤ × String))
    → All (λ (b : ℤ × String). b.0 <ℤ t) backed
    → has_backed t who backed ≡ false
unfolding has_backed
has_backed-below t who [] h = refl
has_backed-below t who ((u, c) ∷ backed) h = ground (arith, h.0, has_backed-below t who backed h.1)

Falls-one :
    (t : ℤ) (c d : String) (backed : List (ℤ × String))
    → Falls backed
    → has_backed t c backed ≡ true
    → has_backed t d backed ≡ true
    → c ≡ d
unfolding has_backed
Falls-one t c d [] f h k = absurd (ground arith)
Falls-one t c d ((u, e) ∷ backed) f h k = elim (Bool-cases (eq_ℤ u t)) [
  | inl same ↦
      let below =
        All-weaken (λ (b : ℤ × String) lt. let l : b.0 <ℤ t = ground (arith, lt, same) in l) backed
          f.0 in
      ground (
        arith,
        has_backed-below t c backed below,
        has_backed-below t d backed below,
        eq_iff e c,
        eq_iff e d,
      )
  | inr other ↦ Falls-one t c d backed f.1 (ground arith) (ground arith)
]

-- A node of the cluster has run from some start, and has backed these candidates.
abbrev pub HasRun : Platform → List (ℤ × String) → Type 0
HasRun w backed = (n : Node) × (m : Node) × History w n m backed

one_elected :
    (w : Platform) (p : PeerRouting) (nodes : List (List (ℤ × String))) (t : ℤ) (c d : String)
    → length nodes ≡ length p.table + 1
    → All (HasRun w) nodes
    → (lock_routing_table_entries p).1 + 1 ≤ size (has_backed t c) nodes
    → (lock_routing_table_entries p).1 + 1 ≤ size (has_backed t d) nodes
    → c ≡ d
one_elected w p nodes t c d len ran hc hd =
    let (i, backed, at, bc, bd) =
      quorums_meet p (has_backed t c) (has_backed t d) nodes len hc hd in
    let (n, m, h) = All-get (HasRun w) nodes i backed ran at in
    Falls-one t c d backed (History-term h).1 bc bd

-- If on every node the runs of handleRpc, of commitObject and of the loop follow one another, none with
-- another goroutine of the node in between, as in the steps of one node, then, in whatever order they
-- come: if one candidate of a term is backed by itself and a quorum of its peers, no other candidate of
-- that term is. Only those votes count that go to a candidate whose log is no longer than the voter's own,
-- and the terms must stay below the greatest int.
pub backed_once :
    (w : Platform) (p : PeerRouting) (nodes : List (List (ℤ × String))) (t : ℤ) (c d : String)
    → length nodes ≡ length p.table + 1
    → All (HasRun w) nodes
    → c ≢ d
    → (lock_routing_table_entries p).1 + 1 ≤ size (has_backed t c) nodes
    → size (has_backed t d) nodes < (lock_routing_table_entries p).1 + 1
backed_once w p nodes t c d len ran ne hc =
    let q = (lock_routing_table_entries p).1 + 1 in
    ground (
      arith,
      λ (h : q ≤ size (has_backed t d) nodes). ne (one_elected w p nodes t c d len ran hc h),
    )
