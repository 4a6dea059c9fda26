-- ===== src/Tests/Cluster.antt =====
-- raft/raft.go: two nodes, of which one is elected and commits a command.
use k8_p2p_failover_poc.Prelude.{
  ℕ, ◌≡◌, refl, ◌⊎◌, inl, inr, pos, String, Bool, true, false, ◌&&◌, some, none, List, [], ◌∷◌,
  nat_beq, eq_ℤ, eq_ℤ_iff, if◌then◌else◌, arith, All, lookup, insert, ◌==◌, text_keys, eq_iff,
  Bool-cases, Option-cases, sym,
}
use k8_p2p_failover_poc.Kube.Resources.{KubeCmd, create_service, nil_msg, is_no_cmd, no_cmd}
use k8_p2p_failover_poc.Kube.Resources.Empty.{is_no_cmd_iff}
use k8_p2p_failover_poc.Network.Gob.{encode_within}
use k8_p2p_failover_poc.Network.Packet.{
  Packet, TcpAddr, DataType, append_entry, encode_packet, read_request, decode_packet,
}
use k8_p2p_failover_poc.Raft.Rpc.{Platform, encode_payload, decode_payload}
use k8_p2p_failover_poc.Raft.Cluster.Objects.{Honest}
use k8_p2p_failover_poc.Raft.Routing.{
  get_leader_timeout, lock_routing_table_entries, add_peer, table_leader_timeout,
}
use k8_p2p_failover_poc.Raft.State.{Effect, init_raft, change_role, update_term, add_commit}
use k8_p2p_failover_poc.Raft.Election.{answered, count_votes, count_confirmations}
use k8_p2p_failover_poc.Raft.Commit.{Env, commit_object, commit_as_leader}
use k8_p2p_failover_poc.Raft.Loop.{Node, start, add_peers, choose, watch_leader, finish_election}
use k8_p2p_failover_poc.Raft.System.{chooses, elects}
use k8_p2p_failover_poc.Raft.Cluster.{Cluster, moved, Leads, here, next, acts, loops, types}
use k8_p2p_failover_poc.Raft.Cluster.Validity.{started, Leads-Typed}
use k8_p2p_failover_poc.Tests.Data.{
  service_cmd, demo, env_with, entry_of, fetch_of, byte, no_packet,
}

abbrev is_service : KubeCmd → Bool
is_service c = elim c.msg_type [
  | create_service ↦ is_no_cmd (record c { msg_type = nil_msg })
  | _ ↦ false
]

is_service_iff : (c : KubeCmd) → is_service c ≡ true → c ≡ service_cmd
is_service_iff c e = ground (arith, e, is_no_cmd_iff (record c { msg_type = nil_msg }))

abbrev object_byte : KubeCmd → ℕ
object_byte c = if is_service c then 1 else 0

abbrev object_at : List ℕ → KubeCmd
object_at b = if nat_beq (byte b) 1 then service_cmd else no_cmd

abbrev known : Packet
known = record {
  caller = some (record { ip = "10.0.0.1"; port = pos 9996 });
  payload = 1 ∷ [];
  packet_type = append_entry;
}

abbrev is_append : DataType → Bool
is_append append_entry = true
is_append _ = false

abbrev is_one : List ℕ → Bool
is_one (b ∷ []) = nat_beq b 1
is_one _ = false

abbrev is_known : Packet → Bool
is_known p = elim p.caller [
  | none ↦ false
  | some a ↦
      a.ip == "10.0.0.1"
      && (eq_ℤ a.port (pos 9996) && (is_one p.payload && is_append p.packet_type))
]

is_one_iff : (b : List ℕ) → is_one b ≡ true → b ≡ 1 ∷ []
is_one_iff b e = ground (arith, e)

is_append_iff : (d : DataType) → is_append d ≡ true → d ≡ append_entry
is_append_iff d e = ground (arith, e)

is_known_iff : (p : Packet) → is_known p ≡ true → p ≡ known
is_known_iff p e = elim (Option-cases p.caller) [
  | inl n ↦ absurd (ground (arith, n, e))
  | inr (a, n) ↦ ground (
    arith,
    n,
    e,
    eq_iff a.ip "10.0.0.1",
    eq_ℤ_iff a.port (pos 9996),
    is_one_iff p.payload,
    is_append_iff p.packet_type,
  )
]

-- One byte for the object of a message, and for the packet of one request.
abbrev pub frank : Platform
frank = record demo {
  packets = record {
    encode = λ p. if is_known p then some (1 ∷ []) else none;
    decode = λ b. if nat_beq (byte b) 1 then (known, none) else (no_packet, some "EOF");
  };
  entries = record {
    encode = λ m. some (object_byte m.new_object ∷ []);
    decode = λ b. (record (entry_of b) { new_object = object_at b }, none);
  };
  fetches = record {
    encode = λ m. some (object_byte m.new_object ∷ []);
    decode = λ b. (record (fetch_of b) { new_object = object_at b }, none);
  };
}

object_at-byte :
    (c : KubeCmd) → (object_at (object_byte c ∷ []) ≡ c) ⊎ (object_at (object_byte c ∷ []) ≡ no_cmd)
object_at-byte c = elim (Bool-cases (is_service c)) [
  | inl p ↦ inl (rw p (sym (is_service_iff c p)))
  | inr p ↦ inr (rw p refl)
]

frank_sends :
    (p : Packet) (b : Bool)
    → is_known p ≡ b
    → (encode_packet frank.packets p).0 ≡ (if b then 1 ∷ [] else [])
unfolding encode_packet encode_within
frank_sends p true e = ground (arith, e)
frank_sends p false e = ground (arith, e)

reads_known : read_request frank.packets (1 ∷ []) ≡ (known, none)
unfolding read_request decode_packet
reads_known = refl

reads_nothing : read_request frank.packets [] ≡ (no_packet, some "EOF")
unfolding read_request decode_packet
reads_nothing = refl

pub frank-Honest : Honest frank
unfolding encode_payload decode_payload encode_within
frank-Honest = record {
  entries = λ m. object_at-byte m.new_object;
  fetches = λ m. object_at-byte m.new_object;
  packets = λ p. elim (Bool-cases (is_known p)) [
    | inl e ↦ inl (rw (frank_sends p true e, is_known_iff p e) reads_known)
    | inr e ↦ inr (rw (frank_sends p false e, reads_nothing) (refl, "EOF", refl))
  ];
}

abbrev pub home : TcpAddr
home = record { ip = "10.0.0.1"; port = pos 9996 }

abbrev pub two_nodes : List (String × List String)
two_nodes = ("10.0.0.1", "10.0.0.2" ∷ []) ∷ ("10.0.0.2", "10.0.0.1" ∷ []) ∷ []

abbrev pub asking : Node
asking = (choose frank (pos 0) (start "10.0.0.1" (pos 9996) ("10.0.0.2" ∷ [])).raft).0

abbrev pub waiting_votes : Node × List Effect
waiting_votes = choose frank (pos 0) asking.raft

abbrev pub elected : Node
elected = finish_election true waiting_votes.0.raft

abbrev pub votes : Env
votes = env_with (answered (1 ∷ []) ∷ []) []

abbrev pub cluster_elected : Cluster
cluster_elected =
    moved
      (moved (moved (started (pos 9996) two_nodes) home asking []) home waiting_votes.0
        waiting_votes.1)
      home elected []

abbrev pub cluster_committed : KubeCmd → Cluster
cluster_committed obj =
    let r = commit_object frank votes elected.raft obj in
    moved cluster_elected home (record elected { raft = r.0 }) r.1

-- A member without a leader is a candidate, has one vote, is leader, and gets a command.
pub commits :
    (Typed : KubeCmd → Type 0) (obj : KubeCmd)
    → Typed obj
    → is_no_cmd obj ≡ false
    → Leads frank Typed (started (pos 9996) two_nodes) (cluster_committed obj)
unfolding start init_raft choose watch_leader get_leader_timeout add_peers finish_election
    change_role lookup insert count_votes lock_routing_table_entries table_leader_timeout add_peer
    update_term
commits Typed obj t n =
    next
      (next
        (next
          (next here (
            acts home (start "10.0.0.1" (pos 9996) ("10.0.0.2" ∷ [])) asking [] refl
              (loops (chooses (pos 0) refl))))
          (acts home asking waiting_votes.0 waiting_votes.1 refl (loops (chooses (pos 0) refl))))
        (acts home waiting_votes.0 elected [] refl
          (loops (elects (answered (1 ∷ []) ∷ []) true refl refl))))
      (acts home elected (record elected { raft = (commit_object frank votes elected.raft obj).0 })
        (commit_object frank votes elected.raft obj).1 refl (types votes obj t n))

abbrev committed : List KubeCmd
committed = (commit_object frank votes elected.raft service_cmd).0.commit_log

committed_lem : committed ≡ service_cmd ∷ []
unfolding start init_raft choose watch_leader get_leader_timeout add_peers finish_election
    change_role lock_routing_table_entries table_leader_timeout add_peer update_term commit_object
    commit_as_leader count_confirmations decode_payload add_commit lookup insert
committed_lem = refl

Leads-Typed_example : All (λ c. c ≡ service_cmd) committed
unfolding lookup insert is_no_cmd
Leads-Typed_example =
    Leads-Typed frank (λ c. c ≡ service_cmd) (pos 9996) two_nodes (cluster_committed service_cmd)
      "10.0.0.1" (record elected { raft = (commit_object frank votes elected.raft service_cmd).0 })
      frank-Honest (commits (λ c. c ≡ service_cmd) service_cmd refl refl) refl
