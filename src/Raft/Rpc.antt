-- ===== src/Raft/Rpc.antt =====
-- raft/rpc.go: the messages of the protocol. All numbers are `int`s.
use k8_p2p_failover_poc.Prelude.{ℕ, ℤ, String, Bool, Option, List}
use k8_p2p_failover_poc.Kube.Resources.{KubeCmd}
use k8_p2p_failover_poc.Network.Gob.{Gob, encode_within}
use k8_p2p_failover_poc.Network.Packet.{Packet}

pub record RequestVote : Type 0 where
  pub term : ℤ
  pub candidate_addr : String
  pub log_index : ℤ
  pub agreed : Bool

pub record AppendEntry : Type 0 where
  pub term : ℤ
  pub leader_addr : String
  pub log_index : ℤ
  pub new_object : KubeCmd
  pub confirmed : Bool

pub record FetchMissingEntries : Type 0 where
  pub term : ℤ
  pub leader_addr : String
  pub log_index : ℤ
  pub new_object : KubeCmd

pub record AppendEntryResponse : Type 0 where
  pub term : ℤ
  pub leader_addr : String
  pub log_index : ℤ
  pub confirmed : Bool

abbrev pub max_rpc_size : ℕ
max_rpc_size = 2048

module _ {ℓ} {A : Type ℓ} (g : Gob A) where
  unfoldable pub decode_payload : List ℕ → A × Option String
  decode_payload raw = g.decode raw

  unfoldable pub encode_payload : A → List ℕ × Option String
  unfolding encode_within
  encode_payload a = encode_within g max_rpc_size a

-- What the node uses of the standard library: `net.ParseIP` followed by `String`, and gob at each
-- type that is sent.
pub record Platform : Type 0 where
  pub parse_ip : String → String
  pub packets : Gob Packet
  pub votes : Gob RequestVote
  pub entries : Gob AppendEntry
  pub replies : Gob AppendEntryResponse
  pub fetches : Gob FetchMissingEntries
