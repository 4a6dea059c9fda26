-- ===== src/Raft/Handler/Rounds/Grows.antt =====
-- raft/raft.go: the log while fetch loops overlap.
use k8_p2p_failover_poc.Prelude.{
  ℕ, zero, suc, ◌≡◌, refl, sym, ap, ◌∙◌, ℤ, String, false, not, ◌||◌, List, [], ◌∷◌, ◌++◌,
  append-nil, append_assoc, All, All-append, arith, Bool-cases, inl, inr, eq_ℤ, wrap_int, pos_part,
  ◌-ℤ◌,
}
use k8_p2p_failover_poc.Kube.Resources.{KubeCmd, is_no_cmd}
use k8_p2p_failover_poc.Raft.Routing.{get_leader_addr}
use k8_p2p_failover_poc.Raft.Rpc.{Platform, AppendEntry, decode_payload}
use k8_p2p_failover_poc.Raft.State.{Raft, to_cluster, add_commit, get_length_log}
use k8_p2p_failover_poc.Raft.State.Effects.{written, written-append}
use k8_p2p_failover_poc.Raft.State.Log.{commit_log-add_commit}
use k8_p2p_failover_poc.Raft.Replies.{send_reply_object_commited, send_fetch_object_at_index}
use k8_p2p_failover_poc.Raft.Commit.{Answer, send_failed, no_answer, packet}
use k8_p2p_failover_poc.Raft.Handler.Rounds.{
  Fetch, Fetching, begin_round, begin_fetches, end_round, Step, begins, ends, Reach, here, next,
}

-- The commands by which the log has grown, which are those handed to the cluster meanwhile.
pub record Grown (s t : Fetching) : Type 0 where
  pub added : List KubeCmd
  pub log : t.raft.commit_log ≡ s.raft.commit_log ++ added
  pub handed : written t.effects ≡ written s.effects ++ added
  pub full : All (λ c. is_no_cmd c ≡ false) added

-- Other loops wait, and nothing else has changed.
Grown-left : (s : Fetching) (others : List Fetch) → Grown s (record s { fetches = others })
Grown-left s others = record {
  added = [];
  log = sym (append-nil s.raft.commit_log);
  handed = sym (append-nil (written s.effects));
  full = tt;
}

Grown-trans : (s t u : Fetching) → Grown s t → Grown t u → Grown s u
Grown-trans s t u g h = record {
  added = g.added ++ h.added;
  log = h.log ∙ ap (λ l. l ++ h.added) g.log ∙ append_assoc s.raft.commit_log g.added h.added;
  handed =
      h.handed ∙ ap (λ l. l ++ h.added) g.handed ∙ append_assoc (written s.effects) g.added h.added;
  full = All-append _ g.added h.added g.full h.full;
}

module _ (w : Platform) where
  written-begin_round :
      (r : Raft) (term : ℤ) (ladr : String) (n : ℕ) → written (begin_round w r term ladr n).1 ≡ []
  unfolding begin_round written send_reply_object_commited send_fetch_object_at_index
  written-begin_round r term ladr zero = refl
  written-begin_round r term ladr (suc n) = refl

  begin_fetches-Grown : (s : Fetching) (call : AppendEntry) → Grown s (begin_fetches w s call)
  unfolding begin_fetches
  begin_fetches-Grown s call =
      let ladr = (get_leader_addr s.raft.peers).0 in
      let n = pos_part (wrap_int (call.log_index -ℤ get_length_log s.raft)) in
      record {
        added = [];
        log = sym (append-nil s.raft.commit_log);
        handed =
            written-append s.effects (begin_round w s.raft s.raft.term ladr n).1
            ∙ ap (λ l. written s.effects ++ l) (written-begin_round s.raft s.raft.term ladr n);
        full = tt;
      }

  end_round-Grown :
      (s : Fetching) (f : Fetch) (others : List Fetch) (answer : Answer)
      → Grown s (end_round w s f others answer)
  unfolding end_round add_commit written
  end_round-Grown s f others send_failed = Grown-left s others
  end_round-Grown s f others no_answer = Grown-left s others
  end_round-Grown s f others (packet p) =
      let found = (decode_payload w.fetches p).0 in
      let c = found.new_object in
      let loop = begin_round w (add_commit s.raft c).0 f.term f.ladr f.more in
      elim (Bool-cases (is_no_cmd c || not (eq_ℤ found.log_index f.fetch_index))) [
        | inl b ↦ rw (end_round, b) (Grown-left s others)
        | inr b ↦
            rw (end_round, b)
              (record {
                added = c ∷ [];
                log = commit_log-add_commit s.raft c;
                handed =
                    written-append s.effects (to_cluster c ∷ loop.1)
                    ∙ ap (λ l. written s.effects ++ c ∷ l)
                        (written-begin_round (add_commit s.raft c).0 f.term f.ladr f.more);
                full = (ground (arith, b), tt);
              })
      ]

  Step-Grown : {s t : Fetching} → Step w s t → Grown s t
  Step-Grown {s} (begins call h) = begin_fetches-Grown s call
  Step-Grown {s} (ends before after f answer e) = end_round-Grown s f (before ++ after) answer

  -- However the fetch loops of a node's requests overlap, the log only grows at its end, by exactly the
  -- commands that are handed to the cluster meanwhile, in order, and none of these is the empty command.
  pub Reach-Grown : {s t : Fetching} → Reach w s t → Grown s t
  Reach-Grown {s} here = Grown-left s s.fetches
  Reach-Grown {s} {t = u} (next {t} r st) = Grown-trans s t u (Reach-Grown r) (Step-Grown st)
