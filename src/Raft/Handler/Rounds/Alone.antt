-- ===== src/Raft/Handler/Rounds/Alone.antt =====
-- raft/raft.go: a fetch loop that no other overlaps.
use k8_p2p_failover_poc.Prelude.{
  ℕ, zero, suc, ◌≡◌, ◌≢◌, refl, sym, ap, ◌∙◌, subst, ℤ, pos, ◌+ℤ◌, ◌-ℤ◌, eq_ℤ, wrap_int, pos_part,
  String, Bool, true, false, not, ◌||◌, Option, none, some, List, [], ◌∷◌, ◌++◌, append-nil,
  append_assoc, arith, Bool-cases, Option-cases, inl, inr,
}
use k8_p2p_failover_poc.Kube.Resources.{is_no_cmd}
use k8_p2p_failover_poc.Raft.Routing.{get_leader_addr}
use k8_p2p_failover_poc.Raft.Rpc.{Platform, AppendEntry, decode_payload}
use k8_p2p_failover_poc.Raft.State.{Raft, Effect, add_commit, get_length_log}
use k8_p2p_failover_poc.Raft.Replies.{send_reply_object_commited, send_fetch_object_at_index}
use k8_p2p_failover_poc.Raft.Commit.{Env, Answer, send_failed, no_answer, packet}
use k8_p2p_failover_poc.Raft.Handler.{
  Handled, fetch_rounds, catch_up, handle_entry, handle_append_entry, waiting, returned,
}
use k8_p2p_failover_poc.Raft.Handler.Rounds.{
  Fetch, Fetching, begin_round, begin_fetches, end_round, reaches_loop, begins, ends, Reach, here,
  next, quiet,
}

-- The confirmation behind the last round.
abbrev confirmation : Platform → Raft → Option Bool → List Effect
confirmation w r (some true) = send_reply_object_commited w r true ∷ []
confirmation w r _ = []

module _ (w : Platform) (term : ℤ) (ladr : String) where
  -- The loop as it begins at `r`, with these effects behind it.
  abbrev starting : List Effect → Raft → ℕ → Fetching
  starting es r n =
      let (loop, fs) = begin_round w r term ladr n in
      record { raft = r; fetches = loop; effects = es ++ fs }

  -- The loop has come to an end, with this result.
  abbrev finished : List Effect → Raft × List Effect × Option Bool → Fetching
  finished es out = record {
    raft = out.0;
    fetches = [];
    effects = es ++ (out.1 ++ confirmation w out.0 out.2);
  }

  regroup :
      (es fs gs hs : List Effect) (e : Effect)
      → ((es ++ e ∷ []) ++ fs) ++ (gs ++ hs) ≡ es ++ ((e ∷ (fs ++ gs)) ++ hs)
  regroup es fs gs hs e = simp append_assoc

  rounds-Reach :
      (s : Fetching) (es : List Effect) (r : Raft) (n : ℕ) (answers : List Answer)
      → Reach w s (starting es r n)
      → (fetch_rounds w term ladr r n answers).2 ≢ none
      → Reach w s (finished es (fetch_rounds w term ladr r n answers))
  unfolding fetch_rounds begin_round end_round
  rounds-Reach s es r zero answers h e = h
  rounds-Reach s es r (suc n) [] h e = absurd (e refl)
  rounds-Reach s es r (suc n) (send_failed ∷ answers) h e = next h (ends [] [] _ send_failed refl)
  rounds-Reach s es r (suc n) (no_answer ∷ answers) h e = next h (ends [] [] _ no_answer refl)
  rounds-Reach s es r (suc n) (packet p ∷ answers) h e =
      let fetch_index = get_length_log r +ℤ pos 1 in
      let call = send_fetch_object_at_index w term fetch_index ladr in
      let found = (decode_payload w.fetches p).0 in
      let (added, fs) = add_commit r found.new_object in
      let rest = fetch_rounds w term ladr added n answers in
      let f : Fetch = record { term = term; ladr = ladr; fetch_index = fetch_index; more = n } in
      let step = next h (ends [] [] f (packet p) refl) in
      elim (Bool-cases (is_no_cmd found.new_object || not (eq_ℤ found.log_index fetch_index))) [
        | inl b ↦
            let out : fetch_rounds w term ladr r (suc n) (packet p ∷ answers)
                ≡ (r, call ∷ [], some false) =
              rw (fetch_rounds, b) refl in
            let to : end_round w (starting es r (suc n)) f [] (packet p)
                ≡ finished es (r, call ∷ [], some false) =
              rw (end_round, b) refl in
            subst (λ x. Reach w s (finished es x)) (sym out) (subst (Reach w s) to step)
        | inr b ↦
            let out : fetch_rounds w term ladr r (suc n) (packet p ∷ answers)
                ≡ (rest.0, call ∷ (fs ++ rest.1), rest.2) =
              rw (fetch_rounds, b) refl in
            let to : end_round w (starting es r (suc n)) f [] (packet p)
                ≡ starting ((es ++ call ∷ []) ++ fs) added n =
              rw (end_round, b)
                (ap
                  (λ x. record {
                    raft = added;
                    fetches = (begin_round w added term ladr n).0;
                    effects = x;
                  })
                  (sym (append_assoc (es ++ call ∷ []) fs (begin_round w added term ladr n).1))) in
            let after =
              rounds-Reach s ((es ++ call ∷ []) ++ fs) added n answers (subst (Reach w s) to step)
                (λ x. e (ap (λ (y : Raft × List Effect × Option Bool). y.2) out ∙ x)) in
            subst (λ x. Reach w s (finished es x)) (sym out)
              (subst (λ x. Reach w s (record { raft = rest.0; fetches = []; effects = x }))
                (regroup es fs rest.1 (confirmation w rest.0 rest.2) call) after)
      ]

-- What a handler leaves when no loop waits.
abbrev pub left_by : Handled → Fetching
left_by h = record { raft = h.raft; fetches = []; effects = h.effects }

-- A request whose case of `handleRpc` is the loop, which no other overlaps: once the handler has ended,
-- the node and what has been done to the outside are as the loops that may overlap can leave them.
pub catch_up-Reach :
    (w : Platform) (env : Env) (r : Raft) (call : AppendEntry)
    → reaches_loop r call ≡ true
    → (catch_up w env r call).ending ≢ waiting
    → Reach w (quiet r) (left_by (catch_up w env r call))
unfolding catch_up begin_fetches
catch_up-Reach w env r call h e =
    let ladr = (get_leader_addr r.peers).0 in
    let n = pos_part (wrap_int (call.log_index -ℤ get_length_log r)) in
    let out = fetch_rounds w r.term ladr r n env.fetch_answers in
    let ends_at =
      rounds-Reach w r.term ladr (quiet r) [] r n env.fetch_answers (next here (begins call h)) in
    elim (Option-cases out.2) [
      | inl q ↦ absurd (e (rw (catch_up, q) refl))
      | inr (true, q) ↦
          let left : catch_up w env r call ≡ record {
            raft = out.0;
            effects = out.1 ++ send_reply_object_commited w out.0 true ∷ [];
            ending = returned;
          } =
            rw (catch_up, q) refl in
          subst (λ x. Reach w (quiet r) (left_by x)) (sym left)
            (subst
              (λ x.
                Reach w (quiet r) (record {
                  raft = out.0;
                  fetches = [];
                  effects = out.1 ++ confirmation w out.0 x;
                }))
              q (ends_at (ground (arith, q))))
      | inr (false, q) ↦
          let left : catch_up w env r call
              ≡ record { raft = out.0; effects = out.1 ++ []; ending = returned } =
            rw (catch_up, q, append-nil out.1) refl in
          subst (λ x. Reach w (quiet r) (left_by x)) (sym left)
            (subst
              (λ x.
                Reach w (quiet r) (record {
                  raft = out.0;
                  fetches = [];
                  effects = out.1 ++ confirmation w out.0 x;
                }))
              q (ends_at (ground (arith, q))))
    ]

handle_append_entry-loop :
    (w : Platform) (env : Env) (r : Raft) (call : AppendEntry)
    → reaches_loop r call ≡ true
    → handle_append_entry w env r call ≡ catch_up w env r call
unfolding handle_append_entry handle_entry reaches_loop
handle_append_entry-loop w env r call h = ground arith

-- What the case of `handleRpc` leaves, when it is the loop.
pub handle_append_entry-Reach :
    (w : Platform) (env : Env) (r : Raft) (call : AppendEntry)
    → reaches_loop r call ≡ true
    → (handle_append_entry w env r call).ending ≢ waiting
    → Reach w (quiet r) (left_by (handle_append_entry w env r call))
handle_append_entry-Reach w env r call h =
    subst (λ x. x.ending ≢ waiting → Reach w (quiet r) (left_by x))
      (sym (handle_append_entry-loop w env r call h)) (catch_up-Reach w env r call h)
