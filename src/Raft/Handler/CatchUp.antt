-- ===== src/Raft/Handler/CatchUp.antt =====
-- raft/raft.go: how a node fetches the entries that its log lacks.
use k8_p2p_failover_poc.Prelude.{
  ℕ, suc, ◌+◌, ◌<◌, ◌≡◌, refl, sym, ℤ, pos, ◌+ℤ◌, ◌-ℤ◌, -ℤ_parts, ◌<ℤ◌, ◌≤ℤ◌, ◌&&◌, ◌^◌, IsInt,
  wrap_int, pos_part, wrap_int-of_IsInt, true, false, some, List, [], ◌∷◌, ◌++◌, length, arith,
  append-nil, append_assoc, String, eq_ℤ, false, subst, if◌then◌else◌,
}
use k8_p2p_failover_poc.Kube.Resources.{KubeCmd, is_no_cmd}
use k8_p2p_failover_poc.Raft.Routing.{get_leader_addr}
use k8_p2p_failover_poc.Raft.Rpc.{Platform, AppendEntry, decode_payload}
use k8_p2p_failover_poc.Raft.State.{Effect, Raft, add_commit, count_entries, get_length_log}
use k8_p2p_failover_poc.Raft.State.Log.{commit_log-add_commit, count_entries-append}
use k8_p2p_failover_poc.Raft.Commit.{Answer, send_failed, no_answer, packet, Env}
use k8_p2p_failover_poc.Raft.Replies.{send_reply_object_commited}
use k8_p2p_failover_poc.Raft.Handler.{Handled, returned, handle_entry, catch_up, fetch_rounds}

-- The answers hold these entries, from the index behind `n` on, and none is empty.
abbrev pub Serves : Platform → ℕ → List KubeCmd → List Answer → Type 0
Serves w n [] answers = Unit
Serves w n (c ∷ cs) (packet p ∷ answers) =
    ((decode_payload w.fetches p).0.log_index ≡ pos (suc n))
    × ((decode_payload w.fetches p).0.new_object ≡ c)
    × (is_no_cmd c ≡ false)
    × Serves w (suc n) cs answers
Serves w n (c ∷ cs) _ = ⊥

count-add_commit :
    (r : Raft) (c : KubeCmd) (n : ℕ)
    → is_no_cmd c ≡ false
    → count_entries r.commit_log ≡ n
    → count_entries (add_commit r c).0.commit_log ≡ suc n
count-add_commit r c n h e =
    rw (commit_log-add_commit r c, count_entries-append r.commit_log c, h) (omega arith)

pub next_index :
    (r : Raft) (n : ℕ) → count_entries r.commit_log ≡ n → get_length_log r +ℤ pos 1 ≡ pos (suc n)
unfolding get_length_log ◌+ℤ◌
next_index r n e = ground arith

fetch_rounds-Serves :
    (w : Platform) (term : ℤ) (ladr : String) (r : Raft) (n : ℕ) (cs : List KubeCmd)
    (answers : List Answer)
    → count_entries r.commit_log ≡ n
    → Serves w n cs answers
    → ((fetch_rounds w term ladr r (length cs) answers).0.commit_log ≡ r.commit_log ++ cs)
      × ((fetch_rounds w term ladr r (length cs) answers).2 ≡ some true)
unfolding fetch_rounds
fetch_rounds-Serves w term ladr r n [] answers e s = (sym (append-nil r.commit_log), refl)
fetch_rounds-Serves w term ladr r n (c ∷ cs) (packet p ∷ answers) e s = ground (
  arith,
  next_index r n e,
  commit_log-add_commit r c,
  append_assoc r.commit_log (c ∷ []) cs,
  fetch_rounds-Serves w term ladr (add_commit r c).0 (suc n) cs answers
      (count-add_commit r c n s.2 e) s.3,
)
fetch_rounds-Serves w term ladr r n (c ∷ cs) [] e s = elim s [ ]
fetch_rounds-Serves w term ladr r n (c ∷ cs) (send_failed ∷ answers) e s = elim s [ ]
fetch_rounds-Serves w term ladr r n (c ∷ cs) (no_answer ∷ answers) e s = elim s [ ]

pub missing_rounds :
    (r : Raft) (i : ℤ) (n k : ℕ)
    → count_entries r.commit_log ≡ n
    → i ≡ pos (n + k)
    → k < 2 ^ 63
    → pos_part (wrap_int (i -ℤ get_length_log r)) ≡ k
unfolding get_length_log
missing_rounds r i n k e h l =
    rw (h, e)
      (ground (arith, -ℤ_parts (pos (n + k)) (pos n), wrap_int-of_IsInt (pos (n + k) -ℤ pos n)))

-- The last effect is an answer that confirms the call.
abbrev pub IsConfirmed : Platform → Handled → Type 0
IsConfirmed w h =
    (es : List Effect) × (h.effects ≡ es ++ send_reply_object_commited w h.raft true ∷ [])

-- The log ends with the entries, and the call is confirmed.
abbrev pub Caught : Platform → Raft → List KubeCmd → Handled → Type 0
Caught w r cs h = (h.raft.commit_log ≡ r.commit_log ++ cs) × (h.ending ≡ returned) × IsConfirmed w h

catch_up-Serves :
    (w : Platform) (env : Env) (r : Raft) (call : AppendEntry) (n : ℕ) (cs : List KubeCmd)
    → count_entries r.commit_log ≡ n
    → call.log_index ≡ pos (n + length cs)
    → length cs < 2 ^ 63
    → Serves w n cs env.fetch_answers
    → Caught w r cs (catch_up w env r call)
unfolding catch_up
catch_up-Serves w env r call n cs e i l s =
    let ladr = (get_leader_addr r.peers).0 in
    let rounds = pos_part (wrap_int (call.log_index -ℤ get_length_log r)) in
    let out = fetch_rounds w r.term ladr r rounds env.fetch_answers in
    let (log, ended) =
      subst
        (λ x.
          let o = fetch_rounds w r.term ladr r x env.fetch_answers in
          (o.0.commit_log ≡ r.commit_log ++ cs) × (o.2 ≡ some true))
        (sym (missing_rounds r call.log_index n (length cs) e i l))
        (fetch_rounds-Serves w r.term ladr r n cs env.fetch_answers e s) in
    let left : catch_up w env r call ≡ record {
      raft = out.0;
      effects = out.1 ++ send_reply_object_commited w out.0 true ∷ [];
      ending = returned;
    } =
      rw (catch_up, ended) refl in
    subst (Caught w r cs) (sym left) (log, refl, (out.1, refl))

-- A node that hears of a longer log fetches what it lacks: if the leader answers each request with the
-- entry that is asked for, the log ends with these entries in order, and the call is confirmed.
pub handle_entry-Serves :
    (w : Platform) (env : Env) (r : Raft) (call : AppendEntry) (n : ℕ) (cs : List KubeCmd)
    → count_entries r.commit_log ≡ n
    → call.log_index ≡ pos (n + length cs)
    → 0 < length cs
    → length cs < 2 ^ 63
    → Serves w n cs env.fetch_answers
    → Caught w r cs (handle_entry w env r call)
unfolding handle_entry get_length_log
handle_entry-Serves w env r call n cs e i p l s =
    let longer : eq_ℤ (get_length_log r) call.log_index ≡ false = ground (arith, e, i, p) in
    let fetches : handle_entry w env r call ≡ catch_up w env r call =
      rw (handle_entry, longer) refl in
    subst (Caught w r cs) (sym fetches) (catch_up-Serves w env r call n cs e i l s)

catch_up_ahead :
    (w : Platform) (env : Env) (r : Raft) (call : AppendEntry)
    → call.log_index <ℤ get_length_log r
    → IsInt (call.log_index -ℤ get_length_log r)
    → catch_up w env r call
      ≡ record { raft = r; effects = send_reply_object_commited w r true ∷ []; ending = returned }
unfolding catch_up fetch_rounds
catch_up_ahead w env r call h k =
    let zero_rounds : pos_part (wrap_int (call.log_index -ℤ get_length_log r)) ≡ 0 =
      rw (wrap_int-of_IsInt (call.log_index -ℤ get_length_log r) k)
        (ground (arith, -ℤ_parts call.log_index (get_length_log r))) in
    ground (arith, zero_rounds)

-- A log that is at least as long as the sender's is kept.
pub handle_entry-le_length :
    (w : Platform) (env : Env) (r : Raft) (call : AppendEntry)
    → call.log_index ≤ℤ get_length_log r
    → IsInt (call.log_index -ℤ get_length_log r)
    → handle_entry w env r call ≡ record {
      raft = r;
      effects =
          if eq_ℤ (get_length_log r) call.log_index && is_no_cmd call.new_object
          then []
          else send_reply_object_commited w r true ∷ [];
      ending = returned;
    }
unfolding handle_entry
handle_entry-le_length w env r call h k = ground (arith, catch_up_ahead w env r call)
