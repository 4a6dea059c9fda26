-- ===== src/Raft/Commit/Overlap.antt =====
-- raft/raft.go: calls of `commitObject` at a leader that overlap. A call sends its requests with the length
-- that the log has then, waits for its own count, and appends to the log as it has become.
use k8_p2p_failover_poc.Prelude.{
  suc, ◌≡◌, refl, sym, ap, ◌∙◌, ℤ, pos, ◌+ℤ◌, +ℤ_parts, Bool, true, false, some, List, [], ◌∷◌,
  ◌++◌, if◌then◌else◌, length, length-append, get_elem?-append_length, append-nil, append_assoc,
  arith,
}
use k8_p2p_failover_poc.Kube.Resources.{KubeCmd, is_no_cmd}
use k8_p2p_failover_poc.Raft.Peer.{leader}
use k8_p2p_failover_poc.Raft.Rpc.{Platform}
use k8_p2p_failover_poc.Raft.State.{
  Raft, Effect, to_cluster, add_commit, get_length_log, get_log_item,
}
use k8_p2p_failover_poc.Raft.State.Log.{IsFull, commit_log-add_commit, length-full}
use k8_p2p_failover_poc.Raft.State.Effects.{written, written-append}
use k8_p2p_failover_poc.Raft.Commit.Log.{request_add_object-written, add_commit-written}
use k8_p2p_failover_poc.Raft.Election.{VoteEvent, count_confirmations}
use k8_p2p_failover_poc.Raft.Commit.{Env, request_add_object, commit_as_leader}

-- The objects whose calls wait, and what all calls have done to the outside.
pub record Committing : Type 0 where
  pub raft : Raft
  pub waiting : List KubeCmd
  pub effects : List Effect

abbrev pub idle : Raft → Committing
idle r = record { raft = r; waiting = []; effects = [] }

-- `accepted := r.requestAddObject(obj)`
unfoldable pub begin_commit : Platform → Committing → KubeCmd → Committing
begin_commit w s obj = record s {
  waiting = s.waiting ++ obj ∷ [];
  effects = s.effects ++ request_add_object w s.raft obj;
}

-- What follows `quorum := <-accepted`.
unfoldable pub end_commit : Committing → KubeCmd → List KubeCmd → Bool → Committing
end_commit s obj others quorum =
    if quorum
    then (let (r', es) = add_commit s.raft obj in
        record { raft = r'; waiting = others; effects = s.effects ++ es })
    else record s { waiting = others }

pub data Step (w : Platform) (s : Committing) : Committing → Type 0 where
  begins :
      (obj : KubeCmd)
      → s.raft.role ≡ leader
      → is_no_cmd obj ≡ false
      → Step w s (begin_commit w s obj)
  ends :
      (before after : List KubeCmd) (obj : KubeCmd) (votes : List VoteEvent) (quorum : Bool)
      → s.waiting ≡ before ++ obj ∷ after
      → count_confirmations w s.raft.quorum 0 votes ≡ some quorum
      → Step w s (end_commit s obj (before ++ after) quorum)

pub data Reach (w : Platform) (s : Committing) : Committing → Type 0 where
  here : Reach w s s
  next : {t u : Committing} → Reach w s t → Step w t u → Reach w s u

-- A call that no other overlaps does what `commitObject` does.
end_commit-begin_commit :
    (w : Platform) (env : Env) (r : Raft) (obj : KubeCmd) (quorum : Bool)
    → count_confirmations w r.quorum 0 env.votes ≡ some quorum
    → let s = end_commit (begin_commit w (idle r) obj) obj [] quorum in
      commit_as_leader w env r obj ≡ (s.raft, s.effects, some quorum)
unfolding begin_commit end_commit commit_as_leader
end_commit-begin_commit w env r obj true e = rw (commit_as_leader, e) refl
end_commit-begin_commit w env r obj false e = rw (commit_as_leader, e) refl

item_behind :
    (s : Raft) (xs ys : List KubeCmd) (c : KubeCmd) (i : ℤ)
    → s.commit_log ≡ xs ++ c ∷ ys
    → i ≡ pos (suc (length xs))
    → get_log_item s i ≡ some c
unfolding get_log_item
item_behind s xs ys c i e f = rw (f, get_log_item, e) (get_elem?-append_length xs ys c)

-- Two calls at a leader that overlap both send the length that the log has before either. If a quorum
-- confirms to each, both are committed: the first right behind that length, as it was announced, and the
-- second one place further on.
pub commits_overlap :
    (w : Platform) (r : Raft) (x y : KubeCmd) (votes_x votes_y : List VoteEvent)
    → r.role ≡ leader
    → IsFull r
    → is_no_cmd x ≡ false
    → is_no_cmd y ≡ false
    → count_confirmations w r.quorum 0 votes_x ≡ some true
    → count_confirmations w r.quorum 0 votes_y ≡ some true
    → (s : Committing) × Reach w (idle r) s
      × (s.effects
          ≡ (request_add_object w r x ++ request_add_object w r y)
            ++ to_cluster x ∷ to_cluster y ∷ [])
      × (get_log_item s.raft (get_length_log r +ℤ pos 1) ≡ some x)
      × (get_log_item s.raft (get_length_log r +ℤ pos 2) ≡ some y)
unfolding begin_commit end_commit add_commit
commits_overlap w r x y votes_x votes_y lead full nx ny cx cy =
    let one = begin_commit w (idle r) x in
    let both = begin_commit w one y in
    let first = end_commit both x (y ∷ []) true in
    let second = end_commit first y [] true in
    let log : second.raft.commit_log ≡ (r.commit_log ++ x ∷ []) ++ y ∷ [] =
      commit_log-add_commit first.raft y ∙ ap (λ l. l ++ y ∷ []) (commit_log-add_commit r x) in
    let n = length-full r full in
    (
      second,
      next
          (next (next (next here (begins x lead nx)) (begins y lead ny))
            (ends [] (y ∷ []) x votes_x true refl cx))
          (ends [] [] y votes_y true refl cy),
      append_assoc (request_add_object w r x ++ request_add_object w r y) (to_cluster x ∷ [])
          (to_cluster y ∷ []),
      item_behind second.raft r.commit_log (y ∷ []) x (get_length_log r +ℤ pos 1)
          (log ∙ append_assoc r.commit_log (x ∷ []) (y ∷ []))
          (rw n (ground (arith, +ℤ_parts (pos (length r.commit_log)) (pos 1)))),
      item_behind second.raft (r.commit_log ++ x ∷ []) [] y (get_length_log r +ℤ pos 2) log (
          rw (n, length-append r.commit_log (x ∷ []))
            (ground (arith, +ℤ_parts (pos (length r.commit_log)) (pos 2)))),
    )

Step-written :
    {w : Platform} {s t : Committing} (l : List KubeCmd)
    → Step w s t
    → s.raft.commit_log ≡ l ++ written s.effects
    → t.raft.commit_log ≡ l ++ written t.effects
unfolding begin_commit end_commit
Step-written {w} {s} l (begins obj lead n) h =
    rw
      (
        written-append s.effects (request_add_object w s.raft obj),
        request_add_object-written w s.raft obj,
        append-nil (written s.effects),
      )
      h
Step-written {w} {s} l (ends before after obj votes true e f) h =
    let (handed, log) = add_commit-written s.raft obj in
    rw (written-append s.effects (add_commit s.raft obj).1, handed)
      (log ∙ ap (λ x. x ++ obj ∷ []) h ∙ append_assoc l (written s.effects) (obj ∷ []))
Step-written l (ends before after obj votes false e f) h = h

-- However the calls at a leader overlap, its log is what it was and, behind it, the objects that are
-- handed to the cluster, in order.
Reach-written :
    (w : Platform) (r : Raft) (s : Committing)
    → Reach w (idle r) s
    → s.raft.commit_log ≡ r.commit_log ++ written s.effects
unfolding written
Reach-written w r s here = sym (append-nil r.commit_log)
Reach-written w r s (next {t} rest st) = Step-written r.commit_log st (Reach-written w r t rest)
