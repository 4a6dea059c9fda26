-- ===== src/Raft/Cluster/Objects.antt =====
-- raft/raft.go: which objects a node appends to its log and sends, by what it is given.
use k8_p2p_failover_poc.Prelude.{
  ◌≡◌, refl, ◌⊎◌, inl, inr, ℤ, String, true, none, some, List, [], ◌∷◌, map, All, All-append, arith,
  sym, subst,
}
use k8_p2p_failover_poc.Kube.Resources.{KubeCmd, no_cmd, is_no_cmd}
use k8_p2p_failover_poc.Network.Packet.{Packet, append_entry, encode_packet, read_request}
use k8_p2p_failover_poc.Raft.Routing.{
  get_leader_addr, get_addr, get_peers_address, get_leader_timeout,
}
use k8_p2p_failover_poc.Raft.Routing.Members.{nonempty}
use k8_p2p_failover_poc.Raft.Rpc.{
  Platform, AppendEntry, FetchMissingEntries, encode_payload, decode_payload,
}
use k8_p2p_failover_poc.Raft.State.{
  Raft, Effect, to_cluster, reply, close_done, send_new_term, send_new_leader, request, add_commit,
  get_length_log,
}
use k8_p2p_failover_poc.Raft.State.Effects.{written}
use k8_p2p_failover_poc.Raft.Commit.{
  Answer, packet, Env, send_append_entry, request_add_object, commit_as_leader, commit_as_member,
  commit_object,
}

-- What encoding/gob and the buffers make of a message: a decoded object is the one that was sent or the
-- zero value, and a packet is read as it was or with an error and no caller.
pub record Honest (w : Platform) : Type 0 where
  pub entries :
      (m : AppendEntry)
      → ((decode_payload w.entries (encode_payload w.entries m).0).0.new_object ≡ m.new_object)
        ⊎ ((decode_payload w.entries (encode_payload w.entries m).0).0.new_object ≡ no_cmd)
  pub fetches :
      (m : FetchMissingEntries)
      → ((decode_payload w.fetches (encode_payload w.fetches m).0).0.new_object ≡ m.new_object)
        ⊎ ((decode_payload w.fetches (encode_payload w.fetches m).0).0.new_object ≡ no_cmd)
  pub packets :
      (p : Packet)
      → (read_request w.packets (encode_packet w.packets p).0 ≡ (p, none))
        ⊎ (((read_request w.packets (encode_packet w.packets p).0).0.caller ≡ none)
            × (e : String) × ((read_request w.packets (encode_packet w.packets p).0).1 ≡ some e))

module _ (w : Platform) (Typed : KubeCmd → Type 0) where
  abbrev pub Fine : KubeCmd → Type 0
  Fine c = (is_no_cmd c ≡ true) ⊎ Typed c

  -- What is handed to the local cluster was typed, and so was an object that is sent.
  abbrev pub Clean : Effect → Type 0
  Clean (to_cluster c) = Typed c
  Clean (request target payload append_entry) = Fine (decode_payload w.entries payload).0.new_object
  Clean _ = Unit

  abbrev pub FineAnswer : Answer → Type 0
  FineAnswer (packet p) = Fine (decode_payload w.fetches p).0.new_object
  FineAnswer _ = Unit

  -- The object of a packet that asks to append one is empty or was typed.
  abbrev pub FinePacket : Packet → Type 0
  FinePacket rp =
      rp.packet_type ≡ append_entry → Fine (decode_payload w.entries rp.payload).0.new_object

  pub All-written : (es : List Effect) → All Clean es → All Typed (written es)
  unfolding written
  All-written [] h = tt
  All-written (to_cluster c ∷ es) h = (h.0, All-written es h.1)
  All-written (reply b ∷ es) h = All-written es h.1
  All-written (close_done ∷ es) h = All-written es h.1
  All-written (send_new_term ∷ es) h = All-written es h.1
  All-written (send_new_leader a ∷ es) h = All-written es h.1
  All-written (request a b t ∷ es) h = All-written es h.1

  no_cmd-Fine : Fine no_cmd
  unfolding is_no_cmd
  no_cmd-Fine = inl refl

  pub add_commit-Clean : (r : Raft) (c : KubeCmd) → Typed c → All Clean (add_commit r c).1
  unfolding add_commit
  add_commit-Clean r c t = (t, tt)

  pub entry-Fine :
      (m : AppendEntry)
      → Honest w
      → Fine m.new_object
      → Fine (decode_payload w.entries (encode_payload w.entries m).0).0.new_object
  entry-Fine m h f = elim (h.entries m) [
    | inl e ↦ subst Fine (sym e) f
    | inr e ↦ subst Fine (sym e) no_cmd-Fine
  ]

  pub fetch-Fine :
      (m : FetchMissingEntries)
      → Honest w
      → Fine m.new_object
      → Fine (decode_payload w.fetches (encode_payload w.fetches m).0).0.new_object
  fetch-Fine m h f = elim (h.fetches m) [
    | inl e ↦ subst Fine (sym e) f
    | inr e ↦ subst Fine (sym e) no_cmd-Fine
  ]

  send_append_entry-Clean :
      (a b : String) (term i : ℤ) (obj : KubeCmd)
      → Honest w
      → Fine obj
      → Clean (send_append_entry w a b term i obj)
  unfolding send_append_entry
  send_append_entry-Clean a b term i obj h f = entry-Fine _ h f

  request_add_object-Clean :
      (r : Raft) (obj : KubeCmd) → Honest w → Fine obj → All Clean (request_add_object w r obj)
  unfolding request_add_object
  request_add_object-Clean r obj h f = by_list (nonempty (get_peers_address r.peers))
    where
      by_list :
          (l : List String)
          → All Clean (
              map (λ pr. send_append_entry w (get_addr r.peers) pr r.term (get_length_log r) obj) l)
      by_list [] = tt
      by_list (a ∷ l) = (
        send_append_entry-Clean (get_addr r.peers) a r.term (get_length_log r) obj h f,
        by_list l,
      )

  commit_as_leader-Clean :
      (env : Env) (r : Raft) (obj : KubeCmd)
      → Honest w
      → Typed obj
      → All Clean (commit_as_leader w env r obj).1
  unfolding commit_as_leader
  commit_as_leader-Clean env r obj h t = ground (
    arith,
    request_add_object-Clean r obj h (inr t),
    add_commit-Clean r obj t,
    All-append Clean (request_add_object w r obj) (add_commit r obj).1,
  )

  commit_as_member-Clean :
      (env : Env) (r : Raft) (obj : KubeCmd)
      → Honest w
      → Typed obj
      → All Clean (commit_as_member w env r obj).1
  unfolding commit_as_member add_commit
  commit_as_member-Clean env r obj h t =
      let peers = (get_leader_timeout env.now r.peers).0 in
      let r' = record r { peers = peers } in
      let ladr = (get_leader_addr peers).0 in
      ground (arith, send_append_entry-Clean ladr ladr r.term (get_length_log r') obj h (inr t))

  pub commit_object-Clean :
      (env : Env) (r : Raft) (obj : KubeCmd)
      → Honest w
      → Typed obj
      → All Clean (commit_object w env r obj).1
  unfolding commit_object
  commit_object-Clean env r obj h t =
      ground (arith, commit_as_leader-Clean env r obj h t, commit_as_member-Clean env r obj h t)
