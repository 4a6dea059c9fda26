-- ===== src/Poc/System.antt =====
-- poc/client.go: the parts of one node as `InitPoC` connects them and `StartPoc` runs them: the raft node,
-- the client of its cluster and its proxy. A goroutine that waits to send on a channel is what it sends.
pub mod Applied
pub mod Listening
pub mod Deploying
use k8_p2p_failover_poc.Prelude.{ℤ, ◌≡◌, String, Bool, Option, none, some, List, [], ◌∷◌, ◌++◌}
use k8_p2p_failover_poc.Kube.Resources.{KubeCmd}
use k8_p2p_failover_poc.Kube.Client.{ClusterService, Request}
use k8_p2p_failover_poc.Kube.Client.Start.{
  new_object, announce_timer, announce_cluster_ports, handle_event,
}
use k8_p2p_failover_poc.Network.Packet.{Packet}
use k8_p2p_failover_poc.Proxy.System.{Proxy, selecting, starting, init_proxy}
use k8_p2p_failover_poc.Raft.Rpc.{Platform}
use k8_p2p_failover_poc.Raft.State.{Effect}
use k8_p2p_failover_poc.Raft.State.Effects.{written}
use k8_p2p_failover_poc.Raft.Commit.{Env, commit_object}
use k8_p2p_failover_poc.Raft.Handler.{handle_rpc}
use k8_p2p_failover_poc.Raft.Loop.{Node, start}
use k8_p2p_failover_poc.Raft.System.{Run}

pub record Poc : Type 0 where
  pub raft : Node
  -- the goroutines of `addCommit` that wait to send on `toCluster`
  pub handed : List KubeCmd
  -- what the client has received, and the requests that it has made
  pub applied : List KubeCmd
  pub requests : List Request
  -- the goroutines of `announceClusterPorts` that wait to send on `portChan`
  pub announced : List (List ℤ)
  pub proxy : Proxy

-- `InitPoC`, and `StartPoc` up to its loop, where the client has announced its first list; `none` if it
-- panics.
unfoldable pub start_poc : String → ℤ → List String → Option (List ClusterService) → Option Poc
start_poc ip port peers services = elim (announce_cluster_ports services) [
  | none ↦ none
  | some ports ↦ some (record {
    raft = start ip port peers;
    handed = [];
    applied = [];
    requests = [];
    announced = ports ∷ [];
    proxy = init_proxy;
  })
]

-- The node moves to `m`, with these effects.
unfoldable pub raft_moves : Poc → Node → List Effect → Poc
raft_moves p m es = record p { raft = m; handed = p.handed ++ written es }

abbrev pub after_rpc : Platform → Poc → Env → Packet → Poc
after_rpc w p env rp =
    let h = handle_rpc w env p.raft.raft rp in
    raft_moves p (record p.raft { raft = h.raft }) h.effects

abbrev pub after_commit : Platform → Poc → Env → KubeCmd → Poc
after_commit w p env obj =
    let r = commit_object w env p.raft.raft obj in raft_moves p (record p.raft { raft = r.0 }) r.1

-- The client has made these requests, and announces these lists.
unfoldable pub client_moves : Poc → List Request → List (List ℤ) → Poc
client_moves p requests lists = record p {
  requests = p.requests ++ requests;
  announced = p.announced ++ lists;
}

-- The client takes a command, with what `p` does then.
unfoldable pub client_takes : Poc → KubeCmd → List KubeCmd → Poc
client_takes p c others = record p { handed = others; applied = p.applied ++ c ∷ [] }

unfoldable pub proxy_takes : Poc → List ℤ → List (List ℤ) → Poc
proxy_takes p prts others = record p {
  announced = others;
  proxy = record p.proxy { phase = starting prts prts };
}

-- What the cluster returns is an error or services that it has had.
abbrev pub Returns : (List ClusterService → Type 0) → Option (List ClusterService) → Type 0
Returns Was none = Unit
Returns Was (some items) = Was items

-- The client or the proxy moves. `Was` is which services the cluster has had.
pub data Aside (Was : List ClusterService → Type 0) (p : Poc) : Poc → Type 0 where
  applies :
      (before after : List KubeCmd) (c : KubeCmd) (accepts : Request → Bool)
      (services : Option (List ClusterService)) (requests : List Request) (lists : List (List ℤ))
      → p.handed ≡ before ++ c ∷ after
      → Returns Was services
      → handle_event (new_object c accepts services) ≡ some (requests, lists)
      → Aside Was p (client_moves (client_takes p c (before ++ after)) requests lists)
  announces :
      (services : Option (List ClusterService)) (requests : List Request) (lists : List (List ℤ))
      → Returns Was services
      → handle_event (announce_timer services) ≡ some (requests, lists)
      → Aside Was p (client_moves p requests lists)
  gets_ports :
      (before after : List (List ℤ)) (prts : List ℤ)
      → p.announced ≡ before ++ prts ∷ after
      → p.proxy.phase ≡ selecting
      → Aside Was p (proxy_takes p prts (before ++ after))
  proxy_moves :
      {q : Proxy}
      → k8_p2p_failover_poc.Proxy.System.Step (λ prts. ⊥) p.proxy q
      → Aside Was p (record p { proxy = q })

-- One part moves.
pub data Step (w : Platform) (Was : List ClusterService → Type 0) (p : Poc) : Poc → Type 0 where
  loops : {m : Node} {es : List Effect} → Run w p.raft m es → Step w Was p (raft_moves p m es)
  serves : (env : Env) (rp : Packet) → Step w Was p (after_rpc w p env rp)
  commits : (env : Env) (obj : KubeCmd) → Step w Was p (after_commit w p env obj)
  aside : {q : Poc} → Aside Was p q → Step w Was p q

pub data Reach (w : Platform) (Was : List ClusterService → Type 0) (p : Poc) : Poc → Type 0 where
  here : Reach w Was p p
  next : {q r : Poc} → Reach w Was p q → Step w Was q r → Reach w Was p r
