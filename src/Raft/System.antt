-- ===== src/Raft/System.antt =====
-- raft/raft.go: one node as its goroutines interleave. A step is a run of the loop of `startRAFT`, of a
-- `handleRpc` or of a `commitObject`, with no other goroutine of the node in between; what the network,
-- the clock and the command line deliver is left open. The program takes its locks for each access alone,
-- so that its runs may also overlap: Raft/Handler/Races.antt has the vote requests that do. A receive needs
-- a channel that is made, but not the goroutine that sends.
pub mod Safety
pub mod Quiet
pub mod Elections
pub mod Exchange
pub mod Replication
pub mod Doubling
pub mod Winning
pub mod Committing
pub mod Divergence
pub mod Ballots
pub mod Peers
use k8_p2p_failover_poc.Prelude.{ℕ, ◌≡◌, ℤ, String, Bool, false, Option, some, List, []}
use k8_p2p_failover_poc.Kube.Resources.{KubeCmd, is_no_cmd}
use k8_p2p_failover_poc.Network.Packet.{Packet}
use k8_p2p_failover_poc.Raft.Rpc.{Platform}
use k8_p2p_failover_poc.Raft.State.{Effect, unbuffered}
use k8_p2p_failover_poc.Raft.Election.{VoteEvent, count_votes}
use k8_p2p_failover_poc.Raft.Commit.{Env, commit_object}
use k8_p2p_failover_poc.Raft.Handler.{handle_rpc}
use k8_p2p_failover_poc.Raft.Loop.{
  Node, Phase, choosing, leading, electing, watching, start, choose, heartbeat, leader_new_term,
  finish_election, election_new_leader, election_new_term, await_leader_ttl, watch_new_term,
}

-- A run of the loop, with what it does to the outside.
pub data Run (w : Platform) (n : Node) : Node → List Effect → Type 0 where
  chooses : (now : ℤ) → n.phase ≡ choosing → Run w n (choose w now n.raft).0 (choose w now n.raft).1
  beats : n.phase ≡ leading → Run w n (heartbeat w n.raft).0 (heartbeat w n.raft).1
  leader_told_term :
      n.phase ≡ leading → n.raft.new_term ≡ unbuffered → Run w n (leader_new_term n.raft) []
  -- The result that the counting goroutine sends, and what it has read.
  elects :
      (events : List VoteEvent) (success : Bool)
      → n.phase ≡ electing
      → count_votes n.raft.quorum 0 events ≡ some success
      → Run w n (finish_election success n.raft) []
  told_leader :
      n.phase ≡ electing
      → n.raft.new_leader_ch ≡ unbuffered
      → Run w n (election_new_leader n.raft) []
  told_term :
      n.phase ≡ electing → n.raft.new_term ≡ unbuffered → Run w n (election_new_term n.raft) []
  expires : (now : ℤ) → n.phase ≡ watching → Run w n (await_leader_ttl now n.raft) []
  watcher_told_term :
      n.phase ≡ watching → n.raft.new_term ≡ unbuffered → Run w n (watch_new_term n.raft) []

pub data Step (w : Platform) (n : Node) : Node → Type 0 where
  runs : {m : Node} {es : List Effect} → Run w n m es → Step w n m
  serves :
      (env : Env) (rp : Packet) → Step w n (record n { raft = (handle_rpc w env n.raft rp).raft })
  -- a command of the command line, which is never empty
  commits :
      (env : Env) (obj : KubeCmd)
      → is_no_cmd obj ≡ false
      → Step w n (record n { raft = (commit_object w env n.raft obj).0 })

-- What a run has read of the answers to its vote requests.
abbrev pub votes_read :
    {w : Platform} {n m : Node} {es : List Effect} → Run w n m es → List VoteEvent
votes_read (elects events success ph v) = events
votes_read _ = []

-- The states that a state leads to.
pub data Reach (w : Platform) (n : Node) : Node → Type 0 where
  here : Reach w n n
  next : {m k : Node} → Reach w n m → Step w m k → Reach w n k
