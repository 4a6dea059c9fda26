-- ===== src/Raft/Handler/Rounds.antt =====
-- raft/raft.go: the fetch loops of `handleRpc` as they overlap. A loop asks for the entry behind the log,
-- waits, and appends to the log as it has become; each request that finds the log too short runs its own.
pub mod Alone
pub mod Grows
use k8_p2p_failover_poc.Prelude.{
  ℕ, zero, suc, ◌≡◌, ℤ, pos, ◌+ℤ◌, ◌-ℤ◌, eq_ℤ, leb_ℤ, ltb_ℤ, ◌&&◌, wrap_int, pos_part, String, Bool,
  true, false, not, ◌||◌, Option, none, some, List, [], ◌∷◌, ◌++◌, if◌then◌else◌,
}
use k8_p2p_failover_poc.Kube.Resources.{is_no_cmd}
use k8_p2p_failover_poc.Raft.Peer.{leader, candidate}
use k8_p2p_failover_poc.Raft.Routing.{get_leader_addr}
use k8_p2p_failover_poc.Raft.Rpc.{Platform, AppendEntry, decode_payload}
use k8_p2p_failover_poc.Raft.State.{Raft, Effect, is_role, add_commit, get_length_log}
use k8_p2p_failover_poc.Raft.Replies.{send_reply_object_commited, send_fetch_object_at_index}
use k8_p2p_failover_poc.Raft.Commit.{Answer, send_failed, no_answer, packet}

-- A loop that waits: its variables, and how many rounds it has left behind this one.
pub record Fetch : Type 0 where
  pub term : ℤ
  pub ladr : String
  pub fetch_index : ℤ
  pub more : ℕ

-- The node, the loops that wait, and what all of them have done to the outside.
pub record Fetching : Type 0 where
  pub raft : Raft
  pub fetches : List Fetch
  pub effects : List Effect

-- A request of the leader gets to the loop: no case of `handleRpc` before it is taken.
unfoldable pub reaches_loop : Raft → AppendEntry → Bool
reaches_loop r call =
    not (leb_ℤ r.term call.term && (ltb_ℤ (get_length_log r) call.log_index && is_role r candidate))
    && (not (ltb_ℤ r.term call.term)
        && (not (is_role r leader && not (is_no_cmd call.new_object))
            && not (eq_ℤ (get_length_log r) call.log_index)))

module _ (w : Platform) where
  -- From the head of the loop to its wait, or to the confirmation behind its last round.
  unfoldable pub begin_round : Raft → ℤ → String → ℕ → List Fetch × List Effect
  begin_round r term ladr zero = ([], send_reply_object_commited w r true ∷ [])
  begin_round r term ladr (suc n) =
      let fetch_index = get_length_log r +ℤ pos 1 in
      (
        record { term = term; ladr = ladr; fetch_index = fetch_index; more = n } ∷ [],
        send_fetch_object_at_index w term fetch_index ladr ∷ [],
      )

  -- Such a request begins its loop.
  unfoldable pub begin_fetches : Fetching → AppendEntry → Fetching
  unfolding begin_round
  begin_fetches s call =
      let latest_logs_to_fetch = wrap_int (call.log_index -ℤ get_length_log s.raft) in
      let ladr = (get_leader_addr s.raft.peers).0 in
      let (waiting, es) = begin_round s.raft s.raft.term ladr (pos_part latest_logs_to_fetch) in
      record s { fetches = s.fetches ++ waiting; effects = s.effects ++ es }

  -- The `select` of a loop: what it waits for has come, while the others wait. That a request could not be
  -- sent counts as what comes.
  unfoldable pub end_round : Fetching → Fetch → List Fetch → Answer → Fetching
  unfolding begin_round decode_payload
  end_round s f others send_failed = record s { fetches = others }
  end_round s f others no_answer = record s { fetches = others }
  end_round s f others (packet p) =
      let found = (decode_payload w.fetches p).0 in
      let (r, es) = add_commit s.raft found.new_object in
      let (waiting, fs) = begin_round r f.term f.ladr f.more in
      if is_no_cmd found.new_object || not (eq_ℤ found.log_index f.fetch_index)
      then record s { fetches = others }
      else record { raft = r; fetches = others ++ waiting; effects = s.effects ++ (es ++ fs) }

  pub data Step (s : Fetching) : Fetching → Type 0 where
    begins : (call : AppendEntry) → reaches_loop s.raft call ≡ true → Step s (begin_fetches s call)
    ends :
        (before after : List Fetch) (f : Fetch) (answer : Answer)
        → s.fetches ≡ before ++ f ∷ after
        → Step s (end_round s f (before ++ after) answer)

  pub data Reach (s : Fetching) : Fetching → Type 0 where
    here : Reach s s
    next : {t u : Fetching} → Reach s t → Step t u → Reach s u

abbrev pub quiet : Raft → Fetching
quiet r = record { raft = r; fetches = []; effects = [] }
