-- ===== src/Raft/System/Safety.antt =====
-- raft/raft.go: what holds of a node however its goroutines interleave.
use k8_p2p_failover_poc.Prelude.{
  ◌∙◌, ap, sym, append-nil, append_assoc, ℕ, ◌≤◌, ◌<◌, ◌≡◌, ◌≢◌, refl, ℤ, pos, ◌+ℤ◌, ◌≤ℤ◌, ◌<ℤ◌,
  +ℤ_parts, wrap_int, wrap_int-of_IsInt, false, List, [], ◌++◌, length, arith, All, All-append,
  String, ◌^◌, ◌-◌,
}
use k8_p2p_failover_poc.Kube.Resources.{KubeCmd, is_no_cmd}
use k8_p2p_failover_poc.Raft.Peer.{leader}
use k8_p2p_failover_poc.Raft.Routing.{lock_routing_table_entries}
use k8_p2p_failover_poc.Raft.Rpc.{Platform}
use k8_p2p_failover_poc.Raft.State.{
  Raft, Effect, nil_channel, unbuffered, change_role, update_term, init_raft,
}
use k8_p2p_failover_poc.Raft.State.Effects.{written}
use k8_p2p_failover_poc.Raft.Election.Tally.{in_time, count_votes-quorum}
use k8_p2p_failover_poc.Raft.Commit.{commit_object}
use k8_p2p_failover_poc.Raft.Commit.Log.{commit_object-Outcome}
use k8_p2p_failover_poc.Raft.Handler.{handle_rpc}
use k8_p2p_failover_poc.Raft.Handler.Log.{handle_rpc-commit_log}
use k8_p2p_failover_poc.Raft.Handler.Terms.{handle_rpc-term}
use k8_p2p_failover_poc.Raft.Loop.{
  Node, electing, start, add_peers, choose, watch_leader, heartbeat, leader_new_term,
  finish_election, election_new_leader, election_new_term, await_leader_ttl, watch_new_term,
}
use k8_p2p_failover_poc.Raft.System.{
  Run, chooses, elects, votes_read, Step, runs, serves, commits, Reach, here, next,
}

-- The quorum and the channels are never written after the start.
pub record Fixed (q : ℕ) (r : Raft) : Type 0 where
  pub quorum : r.quorum ≡ q
  pub new_term : r.new_term ≡ nil_channel
  pub new_leader_ch : r.new_leader_ch ≡ unbuffered

Run-Fixed :
    {w : Platform} {q : ℕ} {n m : Node} {es : List Effect}
    → Run w n m es
    → Fixed q n.raft
    → Fixed q m.raft
unfolding choose watch_leader heartbeat leader_new_term finish_election election_new_leader
    election_new_term await_leader_ttl watch_new_term change_role update_term
Run-Fixed (chooses now ph) f = ground arith
Run-Fixed run f = ground arith

Step-Fixed : {w : Platform} {q : ℕ} {n m : Node} → Step w n m → Fixed q n.raft → Fixed q m.raft
Step-Fixed (runs run) f = Run-Fixed run f
Step-Fixed {w} {n} (serves env rp) f = ground (arith, handle_rpc-term w env n.raft rp)
Step-Fixed {w} {n} (commits env obj h) f = ground (arith, commit_object-Outcome w env n.raft obj)

Reach-Fixed : {w : Platform} {q : ℕ} {n m : Node} → Reach w n m → Fixed q n.raft → Fixed q m.raft
Reach-Fixed here f = f
Reach-Fixed (next r st) f = Step-Fixed st (Reach-Fixed r f)

-- Reachable states keep the quorum of the start; `newTerm` stays nil, so nothing is ever sent or
-- received on it.
pub start-Fixed :
    (w : Platform) (ip : String) (port : ℤ) (peers : List String) (m : Node)
    → Reach w (start ip port peers) m
    → Fixed (lock_routing_table_entries (add_peers (init_raft ip port).peers peers)).1 m.raft
start-Fixed w ip port peers m r = Reach-Fixed r (first ip port peers)
  where
    first :
        (ip : String) (port : ℤ) (peers : List String)
        → Fixed
            (lock_routing_table_entries (add_peers (init_raft ip port).peers peers)).1
            (start ip port peers).raft
    first ip port peers = unfold start init_raft in ground arith

-- What a step adds to the log.
abbrev Adds : Raft → Raft → Type 0
Adds r r' =
    (l : List KubeCmd) × (r'.commit_log ≡ r.commit_log ++ l) × All (λ c. is_no_cmd c ≡ false) l

Adds-of_eq : (r r' : Raft) → r'.commit_log ≡ r.commit_log → Adds r r'
Adds-of_eq r r' e = ([], e ∙ sym (append-nil r.commit_log), tt)

pub Run-commit_log :
    {w : Platform} {n m : Node} {es : List Effect}
    → Run w n m es
    → m.raft.commit_log ≡ n.raft.commit_log
unfolding choose watch_leader heartbeat leader_new_term finish_election election_new_leader
    election_new_term await_leader_ttl watch_new_term change_role update_term
Run-commit_log (chooses now ph) = ground arith
Run-commit_log run = ground arith

Step-Adds : {w : Platform} {n m : Node} → Step w n m → Adds n.raft m.raft
Step-Adds {n} {m} (runs run) = Adds-of_eq n.raft m.raft (Run-commit_log run)
Step-Adds {w} {n} (serves env rp) =
    let h = handle_rpc-commit_log w env n.raft rp in
    (written (handle_rpc w env n.raft rp).effects, h.0, h.1)
Step-Adds {w} {n} (commits env obj h) =
    let o = commit_object-Outcome w env n.raft obj in
    (written (commit_object w env n.raft obj).1, o.0, rw (o.1) (ground arith))

-- However the goroutines interleave, the log only grows at its end, and no empty command enters it.
pub Reach-commit_log :
    {w : Platform} {n m : Node}
    → Reach w n m
    → (l : List KubeCmd) × (m.raft.commit_log ≡ n.raft.commit_log ++ l)
      × All (λ c. is_no_cmd c ≡ false) l
Reach-commit_log {n} here = Adds-of_eq n.raft n.raft refl
Reach-commit_log {n} (next r st) =
    let (l, p, a) = Reach-commit_log r in
    let (k, q, b) = Step-Adds st in
    (
      l ++ k,
      q ∙ ap (λ (x : List KubeCmd). x ++ k) p ∙ append_assoc n.raft.commit_log l k,
      All-append _ l k a b,
    )

-- A run of the loop makes a node leader only from an election, and only if the answers that it has
-- read in time are a quorum.
pub Run-leader :
    {w : Platform} {n m : Node} {es : List Effect} (run : Run w n m es)
    → 0 < n.raft.quorum
    → n.raft.role ≢ leader
    → m.raft.role ≡ leader
    → (n.phase ≡ electing) × (n.raft.quorum ≤ length (in_time (votes_read run)))
unfolding choose watch_leader heartbeat leader_new_term finish_election election_new_leader
    election_new_term await_leader_ttl watch_new_term change_role update_term
Run-leader {w} {n} (elects events success ph v) q was now =
    (ph, ground (arith, count_votes-quorum n.raft.quorum 0 events))
Run-leader run q was now = absurd (ground arith)

-- Every other step leaves a node that is no leader as it is or makes it member.
Step-leader :
    {w : Platform} {n m : Node} (step : Step w n m)
    → 0 < n.raft.quorum
    → n.raft.role ≢ leader
    → m.raft.role ≡ leader
    → (n.phase ≡ electing)
      × (es : List Effect) × (run : Run w n m es) × (n.raft.quorum
          ≤ length (in_time (votes_read run)))
Step-leader (runs {es} run) q was now = let (ph, v) = Run-leader run q was now in (ph, es, run, v)
Step-leader {w} {n} (serves env rp) q was now =
    absurd (ground (arith, handle_rpc-term w env n.raft rp))
Step-leader {w} {n} (commits env obj h) q was now =
    absurd (ground (arith, commit_object-Outcome w env n.raft obj))

next_term : (t : ℤ) → pos 0 ≤ℤ t → t <ℤ pos (2 ^ 63 - 1) → t ≤ℤ wrap_int (t +ℤ pos 1)
next_term t h k =
    rw (wrap_int-of_IsInt (t +ℤ pos 1) (ground (arith, +ℤ_parts t (pos 1))))
      (ground (arith, +ℤ_parts t (pos 1)))

Run-term :
    {w : Platform} {n m : Node} {es : List Effect}
    → Run w n m es
    → pos 0 ≤ℤ n.raft.term
    → n.raft.term <ℤ pos (2 ^ 63 - 1)
    → n.raft.term ≤ℤ m.raft.term
unfolding choose watch_leader heartbeat leader_new_term finish_election election_new_leader
    election_new_term await_leader_ttl watch_new_term change_role update_term
Run-term {n} (chooses now ph) h k = ground (arith, next_term n.raft.term h k)
Run-term run h k = ground arith

-- No step lowers the term, as long as it is not negative and below the greatest `int`.
pub Step-term :
    {w : Platform} {n m : Node}
    → Step w n m
    → pos 0 ≤ℤ n.raft.term
    → n.raft.term <ℤ pos (2 ^ 63 - 1)
    → n.raft.term ≤ℤ m.raft.term
Step-term (runs run) h k = Run-term run h k
Step-term {w} {n} (serves env rp) h k = ground (arith, handle_rpc-term w env n.raft rp)
Step-term {w} {n} (commits env obj g) h k = ground (arith, commit_object-Outcome w env n.raft obj)
