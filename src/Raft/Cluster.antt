-- ===== src/Raft/Cluster.antt =====
-- raft/raft.go and network/network.go: several nodes and the requests that they have sent. A request may
-- be lost, be delivered more than once and in any order.
pub mod Objects
pub mod Handlers
pub mod Requests
pub mod Validity
use k8_p2p_failover_poc.Prelude.{
  ℕ, ◌≡◌, ℤ, String, Bool, false, Option, some, List, [], ◌∷◌, ◌++◌, All, text_keys, lookup, insert,
  get_elem?, length,
}
use k8_p2p_failover_poc.Kube.Resources.{KubeCmd, is_no_cmd}
use k8_p2p_failover_poc.Network.Packet.{
  TcpAddr, DataType, Packet, new_packet, encode_packet, read_request,
}
use k8_p2p_failover_poc.Raft.Rpc.{Platform, FetchMissingEntries}
use k8_p2p_failover_poc.Raft.State.{
  Effect, to_cluster, reply, close_done, send_new_term, send_new_leader, request,
}
use k8_p2p_failover_poc.Raft.Commit.{Env, Answer, send_failed, no_answer, commit_object}
use k8_p2p_failover_poc.Raft.Handler.{Handled, handle_rpc, handle_fetch}
use k8_p2p_failover_poc.Raft.Loop.{Node}
use k8_p2p_failover_poc.Raft.System.{Run}
use k8_p2p_failover_poc.Raft.System.Exchange.{answer_of}

-- A request on its way: its sender, the address of its target, and what `NewPacket` is made of.
pub record Mail : Type 0 where
  pub sender : TcpAddr
  pub target : String
  pub payload : List ℕ
  pub data_type : DataType

pub record Cluster : Type 0 where
  pub nodes : List (String × Node)
  pub sent : List Mail

-- The requests among the effects of a node.
unfoldable pub mails : TcpAddr → List Effect → List Mail
mails a [] = []
mails a (request target payload dt ∷ es) =
    record { sender = a; target = target; payload = payload; data_type = dt } ∷ mails a es
mails a (to_cluster c ∷ es) = mails a es
mails a (reply bytes ∷ es) = mails a es
mails a (close_done ∷ es) = mails a es
mails a (send_new_term ∷ es) = mails a es
mails a (send_new_leader addr ∷ es) = mails a es

-- The node at an address has become `m`, with these effects.
abbrev pub moved : Cluster → TcpAddr → Node → List Effect → Cluster
moved c a m es = record { nodes = insert a.ip m c.nodes; sent = c.sent ++ mails a es }

module _ (w : Platform) where
  -- What a request is read as where it arrives.
  abbrev pub arrival : Mail → Packet
  arrival m =
      (read_request w.packets
        (encode_packet w.packets (new_packet m.sender m.payload m.data_type)).0).0

  -- What a fetch gives: nothing, or what the handler of some node answers to some fetch.
  pub data Fetched (nodes : List (String × Node)) : Answer → Type 0 where
    unsent : Fetched nodes send_failed
    silent : Fetched nodes no_answer
    answered :
        (a : String) (l : Node) (call : FetchMissingEntries)
        → lookup a nodes ≡ some l
        → Fetched nodes (answer_of w (handle_fetch w l.raft call).effects)

  -- What the node `n` at an address does, given what has been sent and how the others are. `Typed` is what
  -- may be typed at a command line.
  pub data Act (Typed : KubeCmd → Type 0) (c : Cluster) (a : TcpAddr) (n : Node)
      : Node → List Effect → Type 0 where
    loops : {m : Node} {es : List Effect} → Run w n m es → Act Typed c a n m es
    delivers :
        (i : ℕ) (m : Mail) (env : Env)
        → get_elem? c.sent i ≡ some m
        → w.parse_ip m.target ≡ w.parse_ip a.ip
        → All (Fetched c.nodes) env.fetch_answers
        → Act Typed c a n
            (record n { raft = (handle_rpc w env n.raft (arrival m)).raft })
            (handle_rpc w env n.raft (arrival m)).effects
    types :
        (env : Env) (obj : KubeCmd)
        → Typed obj
        → is_no_cmd obj ≡ false
        → Act Typed c a n
            (record n { raft = (commit_object w env n.raft obj).0 })
            (commit_object w env n.raft obj).1

  -- One node moves.
  pub data Move (Typed : KubeCmd → Type 0) (c : Cluster) : Cluster → Type 0 where
    acts :
        (a : TcpAddr) (n m : Node) (es : List Effect)
        → lookup a.ip c.nodes ≡ some n
        → Act Typed c a n m es
        → Move Typed c (moved c a m es)

  pub data Leads (Typed : KubeCmd → Type 0) (c : Cluster) : Cluster → Type 0 where
    here : Leads Typed c c
    next : {d e : Cluster} → Leads Typed c d → Move Typed d e → Leads Typed c e
