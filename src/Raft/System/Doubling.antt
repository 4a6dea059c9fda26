-- ===== src/Raft/System/Doubling.antt =====
-- raft/raft.go: two requests that find the same entry missing while its fetch is under way.
use k8_p2p_failover_poc.Prelude.{
  ℕ, suc, ◌+◌, ◌≡◌, refl, sym, ap, ◌∙◌, subst, pos, ◌≤ℤ◌, true, false, some, List, [], ◌∷◌, ◌++◌,
  length, length-append, arith, get_elem?, get_elem?-append_length, All-append,
}
use k8_p2p_failover_poc.Kube.Resources.{KubeCmd, is_no_cmd}
use k8_p2p_failover_poc.Network.Packet.{TcpAddr}
use k8_p2p_failover_poc.Raft.Peer.{leader, member}
use k8_p2p_failover_poc.Raft.Routing.{get_leader_addr, is_peer}
use k8_p2p_failover_poc.Raft.Rpc.{Platform, AppendEntry, decode_payload, encode_payload}
use k8_p2p_failover_poc.Raft.State.{
  Raft, Effect, to_cluster, is_role, add_commit, get_length_log, count_entries,
}
use k8_p2p_failover_poc.Raft.State.Effects.{written}
use k8_p2p_failover_poc.Raft.State.Log.{IsFull, commit_log-add_commit, count_entries-full}
use k8_p2p_failover_poc.Raft.Replies.{send_reply_object_commited, send_fetch_object_at_index}
use k8_p2p_failover_poc.Raft.Commit.{Env, Answer, packet}
use k8_p2p_failover_poc.Raft.Handler.CatchUp.{missing_rounds, next_index}
use k8_p2p_failover_poc.Raft.Handler.Rounds.{
  Fetch, Fetching, begin_round, begin_fetches, end_round, reaches_loop, begins, ends, Reach, here,
  next, quiet,
}
use k8_p2p_failover_poc.Raft.System.Exchange.{
  served, Arrives, Arrives-payload, served-fetch, asked, given,
}

-- The loop of a request that finds one entry missing behind `n`.
abbrev pub one_round : Raft → ℕ → Fetch
one_round r n = record {
  term = r.term;
  ladr = (get_leader_addr r.peers).0;
  fetch_index = pos (suc n);
  more = 0;
}

abbrev pub both_begin : Platform → Raft → AppendEntry → AppendEntry → Fetching
both_begin w r call again = begin_fetches w (begin_fetches w (quiet r) call) again

-- Both loops get the same answer, one after the other.
abbrev pub both_end : Platform → Fetching → Fetch → Answer → Fetching
both_end w s loop answer = end_round w (end_round w s loop (loop ∷ []) answer) loop [] answer

module _ (w : Platform) (r : Raft) (n : ℕ) (short : count_entries r.commit_log ≡ n) where
  abbrev asks_next : Effect
  asks_next = send_fetch_object_at_index w r.term (pos (suc n)) (get_leader_addr r.peers).0

  begin_fetches-one :
      (fs : List Fetch) (es : List Effect) (call : AppendEntry)
      → call.log_index ≡ pos (suc n)
      → begin_fetches w (record { raft = r; fetches = fs; effects = es }) call
        ≡ record { raft = r; fetches = fs ++ one_round r n ∷ []; effects = es ++ asks_next ∷ [] }
  unfolding begin_fetches begin_round
  begin_fetches-one fs es call i =
      let behind : call.log_index ≡ pos (n + 1) = i ∙ ap pos (omega arith) in
      rw (missing_rounds r call.log_index n 1 short behind (omega arith), next_index r n short) refl

  end_round-one :
      (s : Fetching) (others : List Fetch) (p : List ℕ) (c : KubeCmd)
      → (decode_payload w.fetches p).0.log_index ≡ pos (suc n)
      → (decode_payload w.fetches p).0.new_object ≡ c
      → is_no_cmd c ≡ false
      → end_round w s (one_round r n) others (packet p) ≡ record {
        raft = (add_commit s.raft c).0;
        fetches = others ++ [];
        effects =
            s.effects
            ++ to_cluster c ∷ send_reply_object_commited w (add_commit s.raft c).0 true ∷ [];
      }
  unfolding end_round begin_round add_commit
  end_round-one s others p c i o m = ground (arith, i, o, m)

  both_begin-one :
      (call again : AppendEntry)
      → call.log_index ≡ pos (suc n)
      → again.log_index ≡ pos (suc n)
      → both_begin w r call again ≡ record {
        raft = r;
        fetches = one_round r n ∷ one_round r n ∷ [];
        effects = asks_next ∷ asks_next ∷ [];
      }
  both_begin-one call again i j =
      ap (λ s. begin_fetches w s again) (begin_fetches-one [] [] call i)
      ∙ begin_fetches-one (one_round r n ∷ []) (asks_next ∷ []) again j

  -- The entry is appended by both loops.
  both_end-one :
      (s : Fetching) (p : List ℕ) (c : KubeCmd)
      → s ≡ record {
        raft = r;
        fetches = one_round r n ∷ one_round r n ∷ [];
        effects = asks_next ∷ asks_next ∷ [];
      }
      → (decode_payload w.fetches p).0.log_index ≡ pos (suc n)
      → (decode_payload w.fetches p).0.new_object ≡ c
      → is_no_cmd c ≡ false
      → let once = (add_commit r c).0 in
        let twice = (add_commit once c).0 in
        both_end w s (one_round r n) (packet p) ≡ record {
          raft = twice;
          fetches = [];
          effects =
              asks_next
              ∷ asks_next
              ∷ to_cluster c
              ∷ send_reply_object_commited w once true
              ∷ to_cluster c
              ∷ send_reply_object_commited w twice true
              ∷ [];
        }
  both_end-one s p c e d o m =
      let loop = one_round r n in
      ap (λ x. both_end w x loop (packet p)) e
      ∙ ap (λ x. end_round w x loop [] (packet p)) (end_round-one _ (loop ∷ []) p c d o m)
      ∙ end_round-one _ [] p c d o m

  -- A member, in no earlier term, gets to its loop.
  begins-member :
      (call : AppendEntry)
      → call.log_index ≡ pos (suc n)
      → r.role ≡ member
      → call.term ≤ℤ r.term
      → reaches_loop r call ≡ true
  unfolding reaches_loop get_length_log is_role
  begins-member call i q t = ground (arith, short)

  -- Both requests begin their loops, and both loops end.
  both_end-Reach :
      (call again : AppendEntry) (p : List ℕ) (c : KubeCmd)
      → call.log_index ≡ pos (suc n)
      → again.log_index ≡ pos (suc n)
      → r.role ≡ member
      → call.term ≤ℤ r.term
      → again.term ≤ℤ r.term
      → (decode_payload w.fetches p).0.log_index ≡ pos (suc n)
      → (decode_payload w.fetches p).0.new_object ≡ c
      → is_no_cmd c ≡ false
      → Reach w (quiet r) (both_end w (both_begin w r call again) (one_round r n) (packet p))
  unfolding get_length_log begin_fetches
  both_end-Reach call again p c i j q tc ta d o m =
      let loop = one_round r n in
      let waiting = both_begin-one call again i j in
      let once =
        ap (λ s. end_round w s loop (loop ∷ []) (packet p)) waiting
        ∙ end_round-one _ (loop ∷ []) p c d o m in
      let first = next here (begins call (begins-member call i q tc)) in
      let second = next first (begins again (begins-member again j q ta)) in
      let third = next second (ends [] (loop ∷ []) loop (packet p) (ap (λ s. s.fetches) waiting)) in
      next third (ends [] [] loop (packet p) (ap (λ s. s.fetches) once))

-- Two requests of a leader, whose log has one entry more than the node's, come while the node's loops
-- wait: the node is a member, in no earlier term than either request; no entry is the empty command, the
-- leader's term is not less than the node's, it knows the node as a peer, and both fetches are answered
-- by its handler with messages that fit the buffers. Then two loops wait for
-- the same entry. When both have ended, in a state that the overlapping loops reach, the entry stands
-- twice behind the node's old log, which is then longer than the leader's, and it has been handed to the
-- cluster twice.
pub catch_ups_overlap :
    (w : Platform) (env : Env) (f l : Raft) (caller : TcpAddr) (call again : AppendEntry)
    (c : KubeCmd)
    → IsFull f
    → is_no_cmd c ≡ false
    → l.commit_log ≡ f.commit_log ++ c ∷ []
    → f.role ≡ member
    → call.term ≤ℤ f.term
    → again.term ≤ℤ f.term
    → l.role ≡ leader
    → f.term ≤ℤ l.term
    → is_peer l.peers caller.ip ≡ true
    → call.log_index ≡ get_length_log l
    → again.log_index ≡ get_length_log l
    → let ladr = (get_leader_addr f.peers).0 in
      let n = length f.commit_log in
      let loop = one_round f n in
      let started = both_begin w f call again in
      let answer = served w env l caller (send_fetch_object_at_index w f.term (pos (suc n)) ladr) in
      let ended = both_end w started loop answer in
      Arrives w caller (asked w f.term ladr (suc n))
      → Arrives w (record { ip = w.parse_ip ladr; port = l.raft_port }) (given w (suc n) c)
      → (started.fetches ≡ loop ∷ loop ∷ [])
        × Reach w (quiet f) ended
        × (ended.fetches ≡ [])
        × (ended.raft.commit_log ≡ l.commit_log ++ c ∷ [])
        × (written ended.effects ≡ c ∷ c ∷ [])
unfolding written get_length_log send_fetch_object_at_index send_reply_object_commited
catch_ups_overlap w env f l caller call again c full m e q tc ta r t p i j asks gives =
    let n = length f.commit_log in
    let short : count_entries f.commit_log ≡ n = count_entries-full f.commit_log full in
    let total : count_entries l.commit_log ≡ suc n = rw e (
      count_entries-full (f.commit_log ++ c ∷ []) (All-append _ f.commit_log (c ∷ []) full (m, tt))
      ∙ (length-append f.commit_log (c ∷ []) ∙ omega arith)) in
    let at : get_elem? l.commit_log n ≡ some c = rw e (get_elem?-append_length f.commit_log [] c) in
    let m' = given w (suc n) c in
    let decoded =
      Arrives-payload w (record { ip = w.parse_ip (get_leader_addr f.peers).0; port = l.raft_port })
        m' gives in
    let answered =
      served-fetch w env l caller f.term (get_leader_addr f.peers).0 n c p r t
        (omega (arith, total)) at asks gives in
    let i' = i ∙ ap pos total in
    let j' = j ∙ ap pos total in
    let bytes = (encode_payload w.fetches m').0 in
    let index = ap (λ d. d.log_index) decoded in
    let object = ap (λ d. d.new_object) decoded in
    let begun = both_begin-one w f n short call again i' j' in
    let over = both_end-one w f n short _ bytes c begun index object m in
    let logs : (add_commit (add_commit f c).0 c).0.commit_log ≡ l.commit_log ++ c ∷ [] =
      rw (commit_log-add_commit (add_commit f c).0 c, commit_log-add_commit f c, e) refl in
    subst
      (λ (a : Answer).
        let ended = both_end w (both_begin w f call again) (one_round f n) a in
        ((both_begin w f call again).fetches ≡ one_round f n ∷ one_round f n ∷ [])
        × Reach w (quiet f) ended
        × (ended.fetches ≡ [])
        × (ended.raft.commit_log ≡ l.commit_log ++ c ∷ [])
        × (written ended.effects ≡ c ∷ c ∷ []))
      (sym answered)
      (
        ap (λ s. s.fetches) begun,
        both_end-Reach w f n short call again bytes c i' j' q tc ta index object m,
        ap (λ s. s.fetches) over,
        ap (λ s. s.raft.commit_log) over ∙ logs,
        ap (λ s. written s.effects) over,
      )
