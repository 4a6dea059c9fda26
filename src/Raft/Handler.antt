-- ===== src/Raft/Handler.antt =====
-- raft/raft.go: `handleRpc`, one function for each case of its switch. A call runs from one wait to
-- the next without other goroutines in between. The effects are in order; those behind a send on
-- `newLeaderCh` come only when an election has received it.
pub mod Log
pub mod Votes
pub mod Races
pub mod Terms
pub mod CatchUp
pub mod Entries
pub mod Fetch
pub mod Rounds
pub mod Answering
use k8_p2p_failover_poc.Prelude.{
  ℕ, zero, suc, ℤ, pos, ◌+ℤ◌, ◌-ℤ◌, wrap_int, pos_part, ltb_ℤ, leb_ℤ, eq_ℤ, String, Bool, true,
  false, not, ◌&&◌, ◌||◌, Option, none, some, List, [], ◌∷◌, ◌++◌, if◌then◌else◌,
}
use k8_p2p_failover_poc.Kube.Resources.{KubeCmd, no_cmd, is_no_cmd}
use k8_p2p_failover_poc.Network.Packet.{
  TcpAddr, Packet, DataType, request_vote, append_entry, fetch_missing_entries, unknown_type,
  new_packet, encode_packet,
}
use k8_p2p_failover_poc.Raft.Peer.{leader, candidate, member}
use k8_p2p_failover_poc.Raft.Routing.{
  PeerRouting, get_leader_addr, is_peer, update_ttl, wipe_leader, make_leader,
}
use k8_p2p_failover_poc.Raft.Rpc.{
  Platform, RequestVote, AppendEntry, FetchMissingEntries, encode_payload, decode_payload,
}
use k8_p2p_failover_poc.Raft.State.{
  Channel, nil_channel, unbuffered, Raft, Effect, reply, close_done, send_new_term, send_new_leader,
  request, change_role, is_role, update_term, add_commit, get_log_item, get_length_log,
}
use k8_p2p_failover_poc.Raft.Replies.{
  send_reply_object_commited, send_reply_leader_vote, respond_fetch_missing_entries,
  send_fetch_object_at_index,
}
use k8_p2p_failover_poc.Raft.Commit.{Answer, send_failed, no_answer, packet, Env, commit_object}

-- How a goroutine ends: it returns, blocks on a nil channel for ever, waits for what the arguments
-- do not hold yet, or panics.
pub data Ending : Type 0 where
  returned blocked waiting panicked : Ending

pub record Handled : Type 0 where
  pub raft : Raft
  pub effects : List Effect
  pub ending : Ending

abbrev done : Raft → List Effect → Handled
done r effects = record { raft = r; effects = effects; ending = returned }

-- A send on a channel after some effects, with more effects behind it. On a channel that is made the send
-- waits for a receive, and what is behind it is done only then; on nil it waits for ever.
abbrev send_then : Raft → List Effect → Channel → Effect → List Effect → Handled
send_then r before nil_channel e after = record { raft = r; effects = before; ending = blocked }
send_then r before unbuffered e after = done r (before ++ e ∷ after)

abbrev pub with_peers : Raft → PeerRouting → Raft
with_peers r peers = record r { peers = peers }

-- The node once `UpdateTTL` has noted a packet of this peer.
abbrev pub hears : Env → Raft → TcpAddr → Raft
hears env r caller = with_peers r (update_ttl env.now r.peers caller.ip).0

module _ (w : Platform) where
  -- case network.REQUEST_VOTE
  unfoldable pub handle_request_vote : Raft → RequestVote → Handled
  handle_request_vote r call =
      if ltb_ℤ r.term call.term
      then (let r1 = change_role (update_term r call.term) member in
          if ltb_ℤ call.log_index (get_length_log r1)
          then send_then (with_peers r1 (wipe_leader r1.peers)) (close_done ∷ []) r.new_term
              send_new_term []
          else (let r2 = with_peers r1 (make_leader r1.peers call.candidate_addr).0 in
              send_then r2 (send_reply_leader_vote w r2 ∷ []) r.new_term send_new_term []))
      else if eq_ℤ call.term r.term
      then (if ltb_ℤ (get_length_log r) call.log_index
          then (let r2 = with_peers r (make_leader r.peers call.candidate_addr).0 in
              if is_role r candidate
              then send_then r2 [] r.new_leader_ch (send_new_leader call.candidate_addr)
                  (send_reply_leader_vote w r2 ∷ [])
              else done r2 (send_reply_leader_vote w r2 ∷ []))
          else done r [])
      else done r []

  -- The loop that fetches what the log lacks: the rounds left, and the answer of each request. It
  -- ends with `some true` after its last round, with `some false` on a failure.
  unfoldable pub fetch_rounds :
      ℤ → String → Raft → ℕ → List Answer → Raft × List Effect × Option Bool
  unfolding decode_payload
  fetch_rounds term ladr r zero answers = (r, [], some true)
  fetch_rounds term ladr r (suc n) [] =
      (r, send_fetch_object_at_index w term (get_length_log r +ℤ pos 1) ladr ∷ [], none)
  fetch_rounds term ladr r (suc n) (send_failed ∷ answers) =
      (r, send_fetch_object_at_index w term (get_length_log r +ℤ pos 1) ladr ∷ [], some false)
  fetch_rounds term ladr r (suc n) (no_answer ∷ answers) =
      (r, send_fetch_object_at_index w term (get_length_log r +ℤ pos 1) ladr ∷ [], some false)
  fetch_rounds term ladr r (suc n) (packet p ∷ answers) =
      let fetch_index = get_length_log r +ℤ pos 1 in
      let call = send_fetch_object_at_index w term fetch_index ladr in
      let found = (decode_payload w.fetches p).0 in
      let added = add_commit r found.new_object in
      let rest = fetch_rounds term ladr added.0 n answers in
      if is_no_cmd found.new_object || not (eq_ℤ found.log_index fetch_index)
      then (r, call ∷ [], some false)
      else (rest.0, call ∷ (added.1 ++ rest.1), rest.2)

  -- The branch of a leader that is asked to commit an object.
  unfoldable pub handle_commit_request : Env → Raft → AppendEntry → Handled
  handle_commit_request env r call =
      if eq_ℤ call.log_index (get_length_log r)
      then (let (r', effects, added) = commit_object w env r call.new_object in
          elim added [
            | none ↦ record { raft = r'; effects = effects; ending = waiting }
            | some true ↦ done r' (effects ++ send_reply_object_commited w r' true ∷ [])
            | some false ↦ done r' effects
          ])
      else done r (send_reply_object_commited w r false ∷ [])

  -- The branch that first fetches as many entries as the log lacks.
  unfoldable pub catch_up : Env → Raft → AppendEntry → Handled
  catch_up env r call =
      let latest_logs_to_fetch = wrap_int (call.log_index -ℤ get_length_log r) in
      let ladr = (get_leader_addr r.peers).0 in
      let (r', effects, result) =
        fetch_rounds r.term ladr r (pos_part latest_logs_to_fetch) env.fetch_answers in
      elim result [
        | none ↦ record { raft = r'; effects = effects; ending = waiting }
        | some false ↦ done r' effects
        | some true ↦ done r' (effects ++ send_reply_object_commited w r' true ∷ [])
      ]

  -- The branch of a node that is asked to accept an object, or gets a heartbeat.
  unfoldable pub handle_entry : Env → Raft → AppendEntry → Handled
  handle_entry env r call =
      if eq_ℤ (get_length_log r) call.log_index && is_no_cmd call.new_object
      then done r []
      else if eq_ℤ (get_length_log r) call.log_index
      then done r (send_reply_object_commited w r true ∷ [])
      else catch_up env r call

  -- case network.APPEND_ENTRY
  unfoldable pub handle_append_entry : Env → Raft → AppendEntry → Handled
  handle_append_entry env r call =
      if leb_ℤ r.term call.term && (ltb_ℤ (get_length_log r) call.log_index && is_role r candidate)
      then (let r1 = update_term r call.term in
          send_then (with_peers r1 (make_leader r1.peers call.leader_addr).0) [] r.new_leader_ch
            (send_new_leader call.leader_addr) [])
      else if ltb_ℤ r.term call.term
      then send_then (update_term r call.term) [] r.new_term send_new_term []
      else if is_role r leader && not (is_no_cmd call.new_object)
      then handle_commit_request env r call
      else handle_entry env r call

  -- case network.FETCH_MISSING_ENTRIES
  unfoldable pub handle_fetch : Raft → FetchMissingEntries → Handled
  handle_fetch r call =
      if ltb_ℤ r.term call.term
      then done r []
      else if is_role r leader
          && (leb_ℤ call.term r.term && leb_ℤ call.log_index (get_length_log r))
      then elim (get_log_item r call.log_index) [
        | none ↦ record { raft = r; effects = []; ending = panicked }
        | some obj ↦
            done r (respond_fetch_missing_entries w r obj call.log_index call.leader_addr ∷ [])
      ]
      else done r []

  -- The switch of `handleRpc`.
  unfoldable pub dispatch : Env → Raft → Packet → DataType → Handled
  unfolding decode_payload
  dispatch env r rp request_vote = handle_request_vote r (decode_payload w.votes rp.payload).0
  dispatch env r rp append_entry = handle_append_entry env r (decode_payload w.entries rp.payload).0
  dispatch env r rp fetch_missing_entries = handle_fetch r (decode_payload w.fetches rp.payload).0
  dispatch env r rp (unknown_type t) = done r []

  -- `handleRpc`: a packet with no caller is a nil dereference.
  unfoldable pub handle_rpc : Env → Raft → Packet → Handled
  handle_rpc env r rp = elim rp.caller [
    | none ↦ record { raft = r; effects = []; ending = panicked }
    | some caller ↦
        if not (is_peer r.peers caller.ip)
        then done r []
        else dispatch env (hears env r caller) rp rp.packet_type
  ]
