-- ===== src/Raft/Cluster/Validity.antt =====
-- raft/raft.go: where the entries of the logs come from, over all nodes.
use k8_p2p_failover_poc.Prelude.{
  ◌≡◌, ◌⊎◌, sym, subst, ℤ, String, none, some, List, [], ◌∷◌, ◌++◌, inl, inr, All, All-append,
  All-get, arith, Option, Bool-cases, text_keys, ◌==◌, lookup, lookup-insert,
}
use k8_p2p_failover_poc.Kube.Resources.{KubeCmd}
use k8_p2p_failover_poc.Network.Packet.{
  TcpAddr, Packet, request_vote, append_entry, fetch_missing_entries, unknown_type, new_packet,
}
use k8_p2p_failover_poc.Raft.Rpc.{Platform}
use k8_p2p_failover_poc.Raft.State.{
  Effect, to_cluster, reply, close_done, send_new_term, send_new_leader, request, init_raft,
}
use k8_p2p_failover_poc.Raft.State.Effects.{written}
use k8_p2p_failover_poc.Raft.Commit.{Answer, commit_object}
use k8_p2p_failover_poc.Raft.Commit.Log.{commit_object-Outcome}
use k8_p2p_failover_poc.Raft.Handler.{handle_rpc}
use k8_p2p_failover_poc.Raft.Handler.Log.{handle_rpc-commit_log}
use k8_p2p_failover_poc.Raft.Loop.{Node, start}
use k8_p2p_failover_poc.Raft.System.Safety.{Run-commit_log}
use k8_p2p_failover_poc.Raft.Cluster.{
  Mail, Cluster, mails, moved, arrival, Fetched, unsent, silent, answered, Act, Move, acts, loops,
  delivers, types, Leads, here, next,
}
use k8_p2p_failover_poc.Raft.Cluster.Objects.{
  Honest, Clean, FineAnswer, FinePacket, All-written, commit_object-Clean,
}
use k8_p2p_failover_poc.Raft.Cluster.Handlers.{handle_rpc-Clean}
use k8_p2p_failover_poc.Raft.Cluster.Requests.{Run-Clean, handle_fetch-FineAnswer}

module _ (w : Platform) (Typed : KubeCmd → Type 0) (h : Honest w) where
  -- Every entry of a log was typed, and every object on its way is empty or was typed.
  pub record Sound (c : Cluster) : Type 0 where
    pub logs : (a : String) (n : Node) → lookup a c.nodes ≡ some n → All Typed n.raft.commit_log
    pub mail :
        All (λ (m : Mail). FinePacket w Typed (new_packet m.sender m.payload m.data_type)) c.sent

  mails-Fine :
      (a : TcpAddr) (es : List Effect)
      → All (Clean w Typed) es
      → All
          (λ (m : Mail). FinePacket w Typed (new_packet m.sender m.payload m.data_type))
          (mails a es)
  unfolding mails new_packet
  mails-Fine a [] k = tt
  mails-Fine a (request target payload request_vote ∷ es) k = (λ e. absurd cc, mails-Fine a es k.1)
  mails-Fine a (request target payload append_entry ∷ es) k = (λ e. k.0, mails-Fine a es k.1)
  mails-Fine a (request target payload fetch_missing_entries ∷ es) k =
      (λ e. absurd cc, mails-Fine a es k.1)
  mails-Fine a (request target payload (unknown_type t) ∷ es) k =
      (λ e. absurd cc, mails-Fine a es k.1)
  mails-Fine a (to_cluster c ∷ es) k = mails-Fine a es k.1
  mails-Fine a (reply bytes ∷ es) k = mails-Fine a es k.1
  mails-Fine a (close_done ∷ es) k = mails-Fine a es k.1
  mails-Fine a (send_new_term ∷ es) k = mails-Fine a es k.1
  mails-Fine a (send_new_leader addr ∷ es) k = mails-Fine a es k.1

  pub moved-Sound :
      (c : Cluster) (a : TcpAddr) (m : Node) (es : List Effect)
      → Sound c
      → All Typed m.raft.commit_log
      → All (Clean w Typed) es
      → Sound (moved c a m es)
  moved-Sound c a m es s l k = record {
    logs = λ b n e. elim (Bool-cases (a.ip == b)) [
      | inl p ↦
          let q : m ≡ n = ground (arith, p, e, lookup-insert a.ip b m c.nodes) in
          subst (λ (x : Node). All Typed x.raft.commit_log) q l
      | inr p ↦ s.logs b n (ground (arith, p, e, lookup-insert a.ip b m c.nodes))
    ];
    mail = All-append _ c.sent (mails a es) s.mail (mails-Fine a es k);
  }

  Fetched-FineAnswer :
      (c : Cluster) (x : Answer) → Sound c → Fetched w c.nodes x → FineAnswer w Typed x
  Fetched-FineAnswer c x s unsent = tt
  Fetched-FineAnswer c x s silent = tt
  Fetched-FineAnswer c x s (answered a l call e) =
      handle_fetch-FineAnswer w Typed h l.raft call (s.logs a l e)

  All-Fetched :
      (c : Cluster) (xs : List Answer)
      → Sound c
      → All (Fetched w c.nodes) xs
      → All (FineAnswer w Typed) xs
  All-Fetched c [] s k = tt
  All-Fetched c (x ∷ xs) s k = (Fetched-FineAnswer c x s k.0, All-Fetched c xs s k.1)

  arrival-FinePacket :
      (m : Mail)
      → FinePacket w Typed (new_packet m.sender m.payload m.data_type)
      → (arrival w m).caller ≡ none ⊎ FinePacket w Typed (arrival w m)
  arrival-FinePacket m f = elim (h.packets (new_packet m.sender m.payload m.data_type)) [
    | inl e ↦ inr (subst (λ (x : Packet × Option String). FinePacket w Typed x.0) (sym e) f)
    | inr (e, x, d) ↦ inl e
  ]

  grown :
      (n m : Node) (es : List Effect)
      → All Typed n.raft.commit_log
      → m.raft.commit_log ≡ n.raft.commit_log ++ written es
      → All (Clean w Typed) es
      → All Typed m.raft.commit_log
  grown n m es l e k =
      subst (All Typed) (sym e)
        (All-append Typed n.raft.commit_log (written es) l (All-written w Typed es k))

  -- What a node does leaves its log valid and sends nothing else.
  pub Act-Sound :
      {c : Cluster} (a : TcpAddr) (n m : Node) (es : List Effect)
      → Act w Typed c a n m es
      → lookup a.ip c.nodes ≡ some n
      → Sound c
      → All Typed m.raft.commit_log × All (Clean w Typed) es
  Act-Sound a n m es (loops run) e s =
      (subst (All Typed) (sym (Run-commit_log run)) (s.logs a.ip n e), Run-Clean w Typed h run)
  Act-Sound {c} a n m es (delivers i mail env g t f) e s =
      let r = handle_rpc w env n.raft (arrival w mail) in
      let k =
        handle_rpc-Clean w Typed env n.raft (arrival w mail) h
          (arrival-FinePacket mail (All-get _ c.sent i mail s.mail g))
          (All-Fetched c env.fetch_answers s f) in
      let added = (handle_rpc-commit_log w env n.raft (arrival w mail)).0 in
      (grown n (record n { raft = r.raft }) r.effects (s.logs a.ip n e) added k, k)
  Act-Sound a n m es (types env obj t f) e s =
      let r = commit_object w env n.raft obj in
      let k = commit_object-Clean w Typed env n.raft obj h t in
      let added = (commit_object-Outcome w env n.raft obj).0 in
      (grown n (record n { raft = r.0 }) r.1 (s.logs a.ip n e) added k, k)

  Move-Sound : {c d : Cluster} → Move w Typed c d → Sound c → Sound d
  Move-Sound {c} (acts a n m es e act) s =
      let (log, sent) = Act-Sound a n m es act e s in moved-Sound c a m es s log sent

  pub Leads-Sound : {c d : Cluster} → Leads w Typed c d → Sound c → Sound d
  Leads-Sound here s = s
  Leads-Sound (next r move) s = Move-Sound move (Leads-Sound r s)

abbrev start_nodes : ℤ → List (String × List String) → List (String × Node)
start_nodes port [] = []
start_nodes port ((a, ps) ∷ peers) = (a, start a port ps) ∷ start_nodes port peers

start-log :
    (Typed : KubeCmd → Type 0) (a : String) (port : ℤ) (ps : List String)
    → All Typed (start a port ps).raft.commit_log
unfolding start init_raft
start-log Typed a port ps = tt

start_nodes-log :
    (Typed : KubeCmd → Type 0) (port : ℤ) (peers : List (String × List String)) (a : String)
    (n : Node)
    → lookup a (start_nodes port peers) ≡ some n
    → All Typed n.raft.commit_log
unfolding lookup
start_nodes-log Typed port [] a n e = absurd cc
start_nodes-log Typed port ((b, ps) ∷ peers) a n e = elim (Bool-cases (b == a)) [
  | inl p ↦
      let q : start b port ps ≡ n = ground (arith, p, e) in
      subst (λ (x : Node). All Typed x.raft.commit_log) q (start-log Typed b port ps)
  | inr p ↦ start_nodes-log Typed port peers a n (ground (arith, p, e))
]

-- The nodes as they are started, at these addresses and with these peers, and nothing sent.
abbrev pub started : ℤ → List (String × List String) → Cluster
started port peers = record { nodes = start_nodes port peers; sent = [] }

pub started-Sound :
    (w : Platform) (Typed : KubeCmd → Type 0) (h : Honest w) (port : ℤ)
    (peers : List (String × List String))
    → Sound w Typed h (started port peers)
started-Sound w Typed h port peers = record { logs = start_nodes-log Typed port peers; mail = tt }

-- If gob decodes an object as it was sent or not at all, then in every state that a cluster gets to
-- from its start, whatever is lost, repeated or reordered, each entry of each log is a command that was
-- typed at some node.
pub Leads-Typed :
    (w : Platform) (Typed : KubeCmd → Type 0) (port : ℤ) (peers : List (String × List String))
    (d : Cluster) (a : String) (n : Node)
    → Honest w
    → Leads w Typed (started port peers) d
    → lookup a d.nodes ≡ some n
    → All Typed n.raft.commit_log
Leads-Typed w Typed port peers d a n h r e =
    (Leads-Sound w Typed h r (started-Sound w Typed h port peers)).logs a n e
