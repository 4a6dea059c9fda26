-- ===== src/Raft.antt =====
-- raft/: the replicated log of one node: its routing table, messages, elections and handlers.
pub mod Peer
pub mod Routing
pub mod Rpc
pub mod State
pub mod Printing
pub mod Election
pub mod Commit
pub mod Replies
pub mod Handler
pub mod Loop
pub mod System
pub mod Cluster
