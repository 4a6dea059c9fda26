-- ===== src/Raft/Commit/Log.antt =====
-- raft/raft.go: what `commitObject` does to the node.
use k8_p2p_failover_poc.Prelude.{
  String, map, append-nil, ◌≤◌, ◌<◌, ◌≡◌, refl, ◌↔◌, Bool, true, Option, some, List, [], ◌∷◌, ◌++◌,
  arith,
}
use k8_p2p_failover_poc.Kube.Resources.{KubeCmd}
use k8_p2p_failover_poc.Raft.Peer.{leader}
use k8_p2p_failover_poc.Raft.Rpc.{Platform}
use k8_p2p_failover_poc.Raft.State.{Raft, Effect, add_commit, get_length_log}
use k8_p2p_failover_poc.Raft.State.Effects.{written, written-append}
use k8_p2p_failover_poc.Raft.Routing.{get_addr, get_peers_address}
use k8_p2p_failover_poc.Raft.Routing.Members.{nonempty}
use k8_p2p_failover_poc.Raft.State.Log.{commit_log-add_commit}
use k8_p2p_failover_poc.Raft.Election.Tally.{in_time, confirming, count_confirmations-quorum}
use k8_p2p_failover_poc.Raft.Commit.{
  Env, commit_object, commit_as_leader, commit_as_member, request_add_object, send_append_entry,
}

-- What a call of `addCommit` or none leaves of the other fields.
pub record Same (r r' : Raft) : Type 0 where
  pub role : r'.role ≡ r.role
  pub term : r'.term ≡ r.term
  pub quorum : r'.quorum ≡ r.quorum
  pub new_term : r'.new_term ≡ r.new_term
  pub new_leader_ch : r'.new_leader_ch ≡ r.new_leader_ch

pub add_commit-Same : (r : Raft) (c : KubeCmd) → Same r (add_commit r c).0
unfolding add_commit
add_commit-Same r c = ground arith

pub add_commit-written :
    (r : Raft) (c : KubeCmd)
    → (written (add_commit r c).1 ≡ c ∷ [])
      × ((add_commit r c).0.commit_log ≡ r.commit_log ++ c ∷ [])
unfolding add_commit written
add_commit-written r c = (refl, commit_log-add_commit r c)

pub request_add_object-written :
    (w : Platform) (r : Raft) (obj : KubeCmd) → written (request_add_object w r obj) ≡ []
unfolding request_add_object written
request_add_object-written w r obj = by_list (nonempty (get_peers_address r.peers))
  where
    by_list :
        (l : List String)
        → written
            (map (λ pr. send_append_entry w (get_addr r.peers) pr r.term (get_length_log r) obj) l)
          ≡ []
    by_list [] = refl
    by_list (a ∷ l) = by_list l

-- The object is appended and handed to the cluster, or neither.
abbrev pub Outcome : Raft → KubeCmd → Raft × List Effect × Option Bool → Type 0
Outcome r obj (r', effects, result) =
    (r'.commit_log ≡ r.commit_log ++ written effects)
    × (written effects ≡ elim result [ some true ↦ obj ∷ [] | _ ↦ [] ])
    × Same r r'

commit_as_leader-Outcome :
    (w : Platform) (env : Env) (r : Raft) (obj : KubeCmd)
    → Outcome r obj (commit_as_leader w env r obj)
unfolding commit_as_leader
commit_as_leader-Outcome w env r obj = ground (
  arith,
  add_commit-written r obj,
  add_commit-Same r obj,
  request_add_object-written w r obj,
  written-append (request_add_object w r obj) (add_commit r obj).1,
  append-nil r.commit_log,
)

commit_as_member-Outcome :
    (w : Platform) (env : Env) (r : Raft) (obj : KubeCmd)
    → Outcome r obj (commit_as_member w env r obj)
unfolding commit_as_member written add_commit send_append_entry
commit_as_member-Outcome w env r obj =
    ground (arith, commit_log-add_commit r obj, append-nil r.commit_log)

pub commit_object-Outcome :
    (w : Platform) (env : Env) (r : Raft) (obj : KubeCmd)
    → Outcome r obj (commit_object w env r obj)
unfolding commit_object written
commit_object-Outcome w env r obj = ground (
  arith,
  commit_as_leader-Outcome w env r obj,
  commit_as_member-Outcome w env r obj,
  append-nil r.commit_log,
)

-- A leader with a positive quorum commits an object exactly when a quorum of its peers confirms it in
-- time. The log then ends with the object, which is also handed to the local cluster; otherwise log
-- and cluster are left alone.
pub commit_object-quorum :
    (w : Platform) (env : Env) (r : Raft) (obj : KubeCmd)
    → r.role ≡ leader
    → 0 < r.quorum
    → (((commit_object w env r obj).2 ≡ some true) ↔ (r.quorum ≤ confirming w (in_time env.votes)))
      × ((commit_object w env r obj).0.commit_log
          ≡ r.commit_log ++ written (commit_object w env r obj).1)
      × (written (commit_object w env r obj).1
          ≡ elim (commit_object w env r obj).2 [ some true ↦ obj ∷ [] | _ ↦ [] ])
unfolding commit_object commit_as_leader
commit_object-quorum w env r obj lead h = (
  ground (arith, count_confirmations-quorum w r.quorum 0 env.votes),
  (commit_object-Outcome w env r obj).0,
  (commit_object-Outcome w env r obj).1,
)
