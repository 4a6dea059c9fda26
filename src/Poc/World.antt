-- ===== src/Poc/World.antt =====
-- poc/client.go: all nodes, each with the raft node, the client and the proxy that `InitPoC` connects, and
-- the requests between their raft nodes.
pub mod Nodes
pub mod Created
use k8_p2p_failover_poc.Prelude.{◌≡◌, String, List, [], ◌∷◌, ◌++◌, some, lookup, insert, text_keys}
use k8_p2p_failover_poc.Kube.Resources.{KubeCmd}
use k8_p2p_failover_poc.Kube.Client.{ClusterService}
use k8_p2p_failover_poc.Network.Packet.{TcpAddr}
use k8_p2p_failover_poc.Raft.Rpc.{Platform}
use k8_p2p_failover_poc.Raft.State.{Effect}
use k8_p2p_failover_poc.Raft.Loop.{Node}
use k8_p2p_failover_poc.Raft.Cluster.{Mail, Cluster, mails, Act}
use k8_p2p_failover_poc.Poc.System.{Poc, raft_moves, Aside}

pub record World : Type 0 where
  pub nodes : List (String × Poc)
  pub sent : List Mail

abbrev pub raft_nodes : List (String × Poc) → List (String × Node)
raft_nodes [] = []
raft_nodes ((a, p) ∷ nodes) = (a, p.raft) ∷ raft_nodes nodes

-- The raft nodes, and what they have sent.
abbrev pub raft_of : World → Cluster
raft_of v = record { nodes = raft_nodes v.nodes; sent = v.sent }

abbrev pub after_act : World → TcpAddr → Poc → Node → List Effect → World
after_act v a p m es = record {
  nodes = insert a.ip (raft_moves p m es) v.nodes;
  sent = v.sent ++ mails a es;
}

abbrev pub after_aside : World → String → Poc → World
after_aside v a q = record v { nodes = insert a q v.nodes }

-- One part of one node moves. `Was` is which services the cluster of a node has had, and `Typed` what may
-- be typed at a command line.
pub data Step (w : Platform) (Was : String → List ClusterService → Type 0)
    (Typed : KubeCmd → Type 0) (v : World) : World → Type 0 where
  acts :
      (a : TcpAddr) (p : Poc) (m : Node) (es : List Effect)
      → lookup a.ip v.nodes ≡ some p
      → Act w Typed (raft_of v) a p.raft m es
      → Step w Was Typed v (after_act v a p m es)
  asides :
      (a : String) (p q : Poc)
      → lookup a v.nodes ≡ some p
      → Aside (Was a) p q
      → Step w Was Typed v (after_aside v a q)

pub data Reach (w : Platform) (Was : String → List ClusterService → Type 0)
    (Typed : KubeCmd → Type 0) (v : World) : World → Type 0 where
  here : Reach w Was Typed v v
  next : {u x : World} → Reach w Was Typed v u → Step w Was Typed u x → Reach w Was Typed v x
