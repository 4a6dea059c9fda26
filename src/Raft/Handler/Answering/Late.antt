-- ===== src/Raft/Handler/Answering/Late.antt =====
-- network/network.go and raft/raft.go: an answer that comes after the timeout of `handleRequest`.
use k8_p2p_failover_poc.Prelude.{◌≡◌, List, ◌++◌, ℕ}
use k8_p2p_failover_poc.Raft.State.{Effect}
use k8_p2p_failover_poc.Raft.Handler.Answering.{Socket, wrote, Exchange, answers_of}

-- As long as nothing is written to the socket, the answers that wait are those that are done.
abbrev Kept : Socket → List (List ℕ) → List Effect → Type 0
Kept (wrote b) waiting es = Unit
Kept _ waiting es = waiting ≡ answers_of es

-- The effects of the handler are done in order, and none of its answers is lost.
record Settled (es : List Effect) (t : Exchange) : Type 0 where
  whole : t.done ++ t.left ≡ es
  kept : Kept t.socket t.waiting t.done
