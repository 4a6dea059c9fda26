-- ===== src/Raft/Loop.antt =====
-- raft/raft.go: `Start` and the loop of `startRAFT`, cut at the places where it waits.
use k8_p2p_failover_poc.Prelude.{
  ℤ, pos, ◌+ℤ◌, wrap_int, String, Bool, false, not, none, some, List, [], ◌∷◌, map, if◌then◌else◌,
}
use k8_p2p_failover_poc.Kube.Resources.{no_cmd}
use k8_p2p_failover_poc.Network.Packet.{append_entry}
use k8_p2p_failover_poc.Raft.Peer.{leader, candidate, member}
use k8_p2p_failover_poc.Raft.Routing.{
  PeerRouting, add_peer, lock_routing_table_entries, get_leader_timeout, check_leader_timeout,
  make_leader, get_addr, get_peers_address,
}
use k8_p2p_failover_poc.Raft.Routing.Members.{nonempty}
use k8_p2p_failover_poc.Raft.Rpc.{Platform, encode_payload}
use k8_p2p_failover_poc.Raft.State.{
  Raft, Effect, request, init_raft, change_role, is_role, update_term, get_length_log,
}
use k8_p2p_failover_poc.Raft.Election.{request_leader_votes}
use k8_p2p_failover_poc.Raft.Handler.{with_peers}

-- Where the loop stands: before its switch, or in a `select`.
pub data Phase : Type 0 where
  -- `for { switch r.getRole() …`
  choosing : Phase
  -- in `startLeader`
  leading : Phase
  -- after `requestLeaderVotes`
  electing : Phase
  -- in `awaitLeaderTTL`
  watching : Phase

pub record Node : Type 0 where
  pub raft : Raft
  pub phase : Phase

abbrev at_phase : Raft → Phase → Node
at_phase r phase = record { raft = r; phase = phase }

-- The loop of `Start` over its peers, which drops the errors of `AddPeer`.
unfoldable pub add_peers : PeerRouting → List String → PeerRouting
add_peers p [] = p
add_peers p (peer ∷ peers) = add_peers (add_peer p peer "").0 peers

-- `InitRaft`, the peers of `Start`, and the first line of `startRAFT`.
unfoldable pub start : String → ℤ → List String → Node
unfolding init_raft
start ip port peers =
    let r = init_raft ip port in
    let (table, quorum) = lock_routing_table_entries (add_peers r.peers peers) in
    at_phase (record r { peers = table; quorum = quorum }) choosing

-- case MEMBER: `watchLeader` returns at once or waits; when it has returned, `changeRole(CANDIDATE)`.
unfoldable pub watch_leader : ℤ → Raft → Node
watch_leader now r =
    let (peers, left, err) = get_leader_timeout now r.peers in
    elim err [
      | some e ↦ at_phase (change_role (with_peers r peers) candidate) choosing
      | none ↦ at_phase (with_peers r peers) watching
    ]

module _ (w : Platform) where
  -- `sendLogUpdates`
  unfoldable pub send_log_updates : Raft → List Effect
  send_log_updates r =
      map
        (λ peer.
          request peer
            (encode_payload w.entries (record {
              term = r.term;
              leader_addr = get_addr r.peers;
              log_index = get_length_log r;
              new_object = no_cmd;
              confirmed = false;
            })).0
            append_entry)
        (nonempty (get_peers_address r.peers))

  -- The switch of the loop, up to the next wait.
  unfoldable pub choose : ℤ → Raft → Node × List Effect
  choose now r = elim r.role [
    | leader ↦ (at_phase r leading, [])
    | candidate ↦
        let new_term = wrap_int (r.term +ℤ pos 1) in
        let r' = update_term r new_term in
        (at_phase r' electing, request_leader_votes w r' new_term)
    | member ↦ (watch_leader now r, [])
  ]

  -- `startLeader`, five seconds later.
  unfoldable pub heartbeat : Raft → Node × List Effect
  heartbeat r =
      if not (is_role r leader)
      then (at_phase r choosing, [])
      else (at_phase r leading, send_log_updates r)

-- `startLeader`, on a message of `newTerm`.
unfoldable pub leader_new_term : Raft → Node
leader_new_term r = at_phase (change_role r member) choosing

-- The election has a result.
unfoldable pub finish_election : Bool → Raft → Node
finish_election success r = at_phase (if success then change_role r leader else r) choosing

-- The election is left, on a message of `newLeaderCh`. (The pause that follows is no state.)
unfoldable pub election_new_leader : Raft → Node
election_new_leader r = at_phase (change_role r member) choosing

-- The election is left, on a message of `newTerm`.
unfoldable pub election_new_term : Raft → Node
election_new_term r =
    at_phase (change_role (with_peers r (make_leader r.peers "").0) member) choosing

-- `awaitLeaderTTL`, when its timer fires.
unfoldable pub await_leader_ttl : ℤ → Raft → Node
await_leader_ttl now r =
    let (peers, timeout, left, err) = check_leader_timeout now r.peers in
    elim err [
      | some e ↦ at_phase (change_role (with_peers r peers) candidate) choosing
      | none ↦
          if timeout
          then at_phase (change_role (with_peers r peers) candidate) choosing
          else at_phase (with_peers r peers) watching
    ]

-- `awaitLeaderTTL`, on a message of `newTerm`.
unfoldable pub watch_new_term : Raft → Node
watch_new_term r = at_phase (change_role r candidate) choosing
