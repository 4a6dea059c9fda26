-- ===== src/Raft/Commit.antt =====
-- raft/raft.go: `commitObject` and the requests that it sends. What arrives from the network, and the
-- time, are arguments. A call runs from one wait to the next without other goroutines in between.
pub mod Log
pub mod Overlap
use k8_p2p_failover_poc.Prelude.{
  ℕ, ℤ, String, Bool, true, false, Option, none, some, List, [], ◌∷◌, ◌++◌, map, if◌then◌else◌,
}
use k8_p2p_failover_poc.Kube.Resources.{KubeCmd}
use k8_p2p_failover_poc.Network.Packet.{append_entry}
use k8_p2p_failover_poc.Raft.Peer.{leader, candidate, member}
use k8_p2p_failover_poc.Raft.Routing.{
  get_addr, get_peers_address, get_leader_addr, get_leader_timeout,
}
use k8_p2p_failover_poc.Raft.Routing.Members.{nonempty}
use k8_p2p_failover_poc.Raft.Rpc.{Platform, encode_payload, decode_payload}
use k8_p2p_failover_poc.Raft.State.{Raft, Effect, request, add_commit, get_length_log}
use k8_p2p_failover_poc.Raft.Election.{VoteEvent, count_confirmations}

-- What comes of a request: it cannot be sent, no answer comes in time, or the data of a packet.
pub data Answer : Type 0 where
  send_failed no_answer : Answer
  packet : List ℕ → Answer

pub record Env : Type 0 where
  -- `time.Now()`
  pub now : ℤ
  -- what `requestAddObject` counts
  pub votes : List VoteEvent
  -- what `sendLeaderWrite` returns
  pub leader_answer : Answer
  -- what the calls of `sendFetchObjectAtIndex` return
  pub fetch_answers : List Answer

module _ (w : Platform) where
  -- `sendRequestCommitObj`
  unfoldable pub send_append_entry : String → String → ℤ → ℤ → KubeCmd → Effect
  unfolding encode_payload
  send_append_entry leader_addr target term log_index obj =
      request target
        (encode_payload w.entries (record {
          term = term;
          leader_addr = leader_addr;
          log_index = log_index;
          new_object = obj;
          confirmed = false;
        })).0
        append_entry

  -- `sendLeaderWrite` fills in the same message, with the leader's address for its own.
  abbrev pub send_leader_write : ℤ → ℤ → String → KubeCmd → Effect
  send_leader_write term log_index ladr new_entry =
      send_append_entry ladr ladr term log_index new_entry

  -- The requests of `requestAddObject`.
  unfoldable pub request_add_object : Raft → KubeCmd → List Effect
  unfolding send_append_entry
  request_add_object r obj =
      map (λ pr. send_append_entry (get_addr r.peers) pr r.term (get_length_log r) obj)
        (nonempty (get_peers_address r.peers))

  -- The result is `none` while votes are still awaited.
  abbrev Committed : Type 0
  Committed = Raft × List Effect × Option Bool

  unfoldable pub commit_as_leader : Env → Raft → KubeCmd → Committed
  commit_as_leader env r obj =
      let requests = request_add_object r obj in
      elim (count_confirmations w r.quorum 0 env.votes) [
        | none ↦ (r, requests, none)
        | some false ↦ (r, requests, some false)
        | some true ↦ (let (r', effects) = add_commit r obj in (r', requests ++ effects, some true))
      ]

  unfoldable pub commit_as_member : Env → Raft → KubeCmd → Committed
  unfolding decode_payload
  commit_as_member env r obj =
      let (peers, left, err) = get_leader_timeout env.now r.peers in
      let r' = record r { peers = peers } in
      elim err [
        | some e ↦ (r', [], some false)
        | none ↦
            let ladr = (get_leader_addr peers).0 in
            let requests = send_leader_write r.term (get_length_log r') ladr obj ∷ [] in
            elim env.leader_answer [
              | send_failed ↦ (r', requests, some false)
              | no_answer ↦ (r', requests, some false)
              | packet p ↦
                  if (decode_payload w.replies p).0.confirmed
                  then (let (r'', effects) = add_commit r' obj in
                      (r'', requests ++ effects, some true))
                  else (r', requests, some false)
            ]
      ]

  unfoldable pub commit_object : Env → Raft → KubeCmd → Committed
  commit_object env r obj = elim r.role [
    | leader ↦ commit_as_leader env r obj
    | candidate ↦ (r, [], some false)
    | member ↦ commit_as_member env r obj
  ]
