-- ===== src/Raft/System/Peers.antt =====
-- raft/raft.go: the peers of a node, from the list that `Start` is given.
use k8_p2p_failover_poc.Prelude.{
  ℕ, zero, suc, ◌≡◌, refl, ◌∙◌, ℤ, ◌-ℤ◌, wrap_int, pos_part, String, List, [], ◌∷◌, text_keys,
  arith, Option-cases, inl, inr,
}
use k8_p2p_failover_poc.Kube.Resources.{KubeCmd}
use k8_p2p_failover_poc.Network.Packet.{
  Packet, DataType, request_vote, append_entry, fetch_missing_entries, unknown_type,
}
use k8_p2p_failover_poc.Raft.Routing.{
  PeerRouting, init_peer_routing, add_peer, lock_routing_table_entries, get_leader_addr, update_ttl,
}
use k8_p2p_failover_poc.Raft.Routing.Kept.{
  Kept, update_ttl-Kept, make_leader-Kept, wipe_leader-Kept, get_leader_timeout-Kept,
  check_leader_timeout-Kept,
}
use k8_p2p_failover_poc.Raft.Routing.Known.{IsTable, IsTable-Kept, add_peers-IsTable}
use k8_p2p_failover_poc.Raft.Rpc.{Platform, RequestVote, AppendEntry, decode_payload}
use k8_p2p_failover_poc.Raft.State.{
  Raft, Effect, add_commit, get_length_log, change_role, update_term, init_raft,
}
use k8_p2p_failover_poc.Raft.Commit.{
  Answer, send_failed, no_answer, packet, Env, commit_as_leader, commit_as_member, commit_object,
}
use k8_p2p_failover_poc.Raft.Handler.{
  with_peers, handle_request_vote, handle_append_entry, handle_commit_request, handle_entry,
  handle_fetch, handle_rpc, dispatch, fetch_rounds, catch_up,
}
use k8_p2p_failover_poc.Raft.Loop.{
  Node, add_peers, start, choose, watch_leader, heartbeat, leader_new_term, finish_election,
  election_new_leader, election_new_term, await_leader_ttl, watch_new_term,
}
use k8_p2p_failover_poc.Raft.System.{
  Run, chooses, expires, told_term, Step, runs, serves, commits, Reach, here, next,
}

-- The peers of a node are kept.
abbrev Keeps : Raft → Raft → Type 0
Keeps r r' = Kept r.peers r'.peers

peers-add_commit : (r : Raft) (c : KubeCmd) → (add_commit r c).0.peers ≡ r.peers
unfolding add_commit
peers-add_commit r c = refl

commit_object-Keeps :
    (w : Platform) (env : Env) (r : Raft) (obj : KubeCmd) → Keeps r (commit_object w env r obj).0
unfolding commit_object commit_as_leader commit_as_member add_commit
commit_object-Keeps w env r obj = ground (arith, get_leader_timeout-Kept env.now r.peers)

peers-fetch_rounds :
    (w : Platform) (term : ℤ) (ladr : String) (r : Raft) (n : ℕ) (answers : List Answer)
    → (fetch_rounds w term ladr r n answers).0.peers ≡ r.peers
unfolding fetch_rounds
peers-fetch_rounds w term ladr r zero answers = refl
peers-fetch_rounds w term ladr r (suc n) [] = refl
peers-fetch_rounds w term ladr r (suc n) (send_failed ∷ answers) = refl
peers-fetch_rounds w term ladr r (suc n) (no_answer ∷ answers) = refl
peers-fetch_rounds w term ladr r (suc n) (packet p ∷ answers) =
    let found = (decode_payload w.fetches p).0.new_object in
    ground (
      arith,
      peers-add_commit r found,
      peers-fetch_rounds w term ladr (add_commit r found).0 n answers,
    )

peers-handle_entry :
    (w : Platform) (env : Env) (r : Raft) (call : AppendEntry)
    → (handle_entry w env r call).raft.peers ≡ r.peers
unfolding handle_entry catch_up
peers-handle_entry w env r call =
    let n = pos_part (wrap_int (call.log_index -ℤ get_length_log r)) in
    ground (arith, peers-fetch_rounds w r.term (get_leader_addr r.peers).0 r n env.fetch_answers)

handle_append_entry-Keeps :
    (w : Platform) (env : Env) (r : Raft) (call : AppendEntry)
    → Keeps r (handle_append_entry w env r call).raft
unfolding handle_append_entry handle_commit_request update_term
handle_append_entry-Keeps w env r call = ground (
  arith,
  make_leader-Kept r.peers call.leader_addr,
  commit_object-Keeps w env r call.new_object,
  peers-handle_entry w env r call,
)

handle_request_vote-Keeps :
    (w : Platform) (r : Raft) (call : RequestVote) → Keeps r (handle_request_vote w r call).raft
unfolding handle_request_vote change_role update_term
handle_request_vote-Keeps w r call =
    ground (arith, make_leader-Kept r.peers call.candidate_addr, wipe_leader-Kept r.peers)

dispatch-Keeps :
    (w : Platform) (env : Env) (r : Raft) (rp : Packet) (dt : DataType)
    → Keeps r (dispatch w env r rp dt).raft
unfolding dispatch handle_fetch
dispatch-Keeps w env r rp request_vote =
    handle_request_vote-Keeps w r (decode_payload w.votes rp.payload).0
dispatch-Keeps w env r rp append_entry =
    handle_append_entry-Keeps w env r (decode_payload w.entries rp.payload).0
dispatch-Keeps w env r rp fetch_missing_entries = ground arith
dispatch-Keeps w env r rp (unknown_type t) = ground arith

handle_rpc-Keeps :
    (w : Platform) (env : Env) (r : Raft) (rp : Packet) → Keeps r (handle_rpc w env r rp).raft
unfolding handle_rpc
handle_rpc-Keeps w env r rp = elim (Option-cases rp.caller) [
  | inl e ↦ ground arith
  | inr (c, e) ↦
      let q = (update_ttl env.now r.peers c.ip).0 in
      ground (
        arith,
        e,
        update_ttl-Kept env.now r.peers c.ip,
        dispatch-Keeps w env (with_peers r q) rp rp.packet_type,
      )
]

Run-Keeps : {w : Platform} {n m : Node} {es : List Effect} → Run w n m es → Keeps n.raft m.raft
unfolding choose watch_leader heartbeat leader_new_term finish_election election_new_leader
    election_new_term await_leader_ttl watch_new_term change_role update_term
Run-Keeps {w} {n} (chooses now ph) = ground (arith, get_leader_timeout-Kept now n.raft.peers)
Run-Keeps {w} {n} (expires now ph) = ground (arith, check_leader_timeout-Kept now n.raft.peers)
Run-Keeps {w} {n} (told_term ph ch) = make_leader-Kept n.raft.peers ""
Run-Keeps run = ground arith

Step-Keeps : {w : Platform} {n m : Node} → Step w n m → Keeps n.raft m.raft
Step-Keeps (runs run) = Run-Keeps run
Step-Keeps {w} {n} (serves env rp) = handle_rpc-Keeps w env n.raft rp
Step-Keeps {w} {n} (commits env obj h) = commit_object-Keeps w env n.raft obj

Reach-Keeps : {w : Platform} {n m : Node} → Reach w n m → Keeps n.raft m.raft
Reach-Keeps here = (refl, refl)
Reach-Keeps (next r st) =
    let k = Step-Keeps st in let before = Reach-Keeps r in (k.0 ∙ before.0, k.1 ∙ before.1)

addr-add_peers :
    (p : PeerRouting) (peers : List String) → (add_peers p peers).self.addr ≡ p.self.addr
unfolding add_peers add_peer
addr-add_peers p [] = refl
addr-add_peers p (a ∷ peers) = ground (arith, addr-add_peers (add_peer p a "").0 peers)

-- However the goroutines of a node interleave after its start, its peers are the addresses that `Start`
-- was given, each once however often it was given, each peer holds the address at which it stands, and
-- the node holds its own.
pub start-IsTable :
    (w : Platform) (ip : String) (port : ℤ) (peers : List String) (m : Node)
    → Reach w (start ip port peers) m
    → IsTable peers m.raft.peers × (m.raft.peers.self.addr ≡ ip)
unfolding start init_raft add_peers lock_routing_table_entries
start-IsTable w ip port peers m h =
    let k = Reach-Keeps h in
    (
      IsTable-Kept peers (start ip port peers).raft.peers m.raft.peers k
          (add_peers-IsTable ip peers),
      k.1 ∙ addr-add_peers (init_peer_routing ip) peers,
    )
