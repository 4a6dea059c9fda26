-- ===== src/Raft/Handler/Entries.antt =====
-- raft/raft.go: the case of `handleRpc` for what a leader sends to a node that is not one.
use k8_p2p_failover_poc.Prelude.{
  ◌≡◌, refl, ◌∙◌, ◌-ℤ◌, ◌≤ℤ◌, ◌&&◌, eq_ℤ, IsInt, true, false, some, [], ◌∷◌, arith, if◌then◌else◌,
}
use k8_p2p_failover_poc.Kube.Resources.{is_no_cmd}
use k8_p2p_failover_poc.Network.Packet.{Packet, TcpAddr, append_entry}
use k8_p2p_failover_poc.Raft.Peer.{leader, member}
use k8_p2p_failover_poc.Raft.Routing.{is_peer}
use k8_p2p_failover_poc.Raft.Rpc.{Platform, AppendEntry, decode_payload}
use k8_p2p_failover_poc.Raft.State.{Raft, is_role, get_length_log}
use k8_p2p_failover_poc.Raft.Commit.{Env}
use k8_p2p_failover_poc.Raft.Replies.{send_reply_object_commited}
use k8_p2p_failover_poc.Raft.Handler.{
  hears, returned, handle_rpc, dispatch, handle_append_entry, handle_entry,
}
use k8_p2p_failover_poc.Raft.Handler.CatchUp.{handle_entry-le_length}

-- A packet of a peer that a leader sends.
pub record IsFromPeer (r : Raft) (rp : Packet) (caller : TcpAddr) : Type 0 where
  pub sent_by : rp.caller ≡ some caller
  pub known : is_peer r.peers caller.ip ≡ true
  pub type : rp.packet_type ≡ append_entry

module _ (w : Platform) (env : Env) (r : Raft) (rp : Packet) (caller : TcpAddr)
    (from : IsFromPeer r rp caller) where
  abbrev call : AppendEntry
  call = (decode_payload w.entries rp.payload).0

  handle_rpc-append_entry :
      handle_rpc w env r rp ≡ handle_append_entry w env (hears env r caller) call
  unfolding handle_rpc dispatch
  handle_rpc-append_entry = rw (from.sent_by, from.known, from.type) refl

  -- The call of a member gets to `handle_entry`, unless its term is greater.
  pub handle_rpc-member :
      r.role ≡ member
      → call.term ≤ℤ r.term
      → handle_rpc w env r rp ≡ handle_entry w env (hears env r caller) call
  unfolding handle_append_entry is_role
  handle_rpc-member m t =
      let enters : handle_append_entry w env (hears env r caller) call
          ≡ handle_entry w env (hears env r caller) call =
        ground (arith, m, t) in
      handle_rpc-append_entry ∙ enters

  -- A peer sends a call of the leader, in no later term, to a node that is not a leader and whose log is
  -- at least as long as the one it tells of, with a difference that fits an int. The node keeps its
  -- state, but for having heard of the peer, and returns. It confirms the call unless it is a heartbeat
  -- at exactly the log's length: a longer log is not compared with the object.
  pub handle_rpc-le_length :
      is_role r leader ≡ false
      → call.term ≤ℤ r.term
      → call.log_index ≤ℤ get_length_log r
      → IsInt (call.log_index -ℤ get_length_log r)
      → handle_rpc w env r rp ≡ record {
        raft = hears env r caller;
        effects =
            if eq_ℤ (get_length_log r) call.log_index && is_no_cmd call.new_object
            then []
            else send_reply_object_commited w (hears env r caller) true ∷ [];
        ending = returned;
      }
  unfolding handle_append_entry is_role get_length_log
  handle_rpc-le_length m t h k =
      let enters : handle_append_entry w env (hears env r caller) call
          ≡ handle_entry w env (hears env r caller) call =
        ground (arith, m, t, h) in
      handle_rpc-append_entry
      ∙ (enters ∙ handle_entry-le_length w env (hears env r caller) call h k)
