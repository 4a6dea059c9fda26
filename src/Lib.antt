-- ===== src/Lib.antt =====
-- Failover of Kubernetes clusters between peers: a node beside each cluster replicates the
-- commands that create objects, and proxies requests to a peer's cluster when its own does not
-- answer.
--
-- The program's parts, and the files that model them:
--
-- - kube/kube_resources.go, in Kube/Resources.antt: the commands (`KubeCmd`), the constructors of
--   their objects, and the objects of the Kubernetes API that `CreateNodePort` and
--   `CreateDeployment` fill in; their texts in Kube/Printing.antt.
-- - kube/kube_client.go, in Kube/Client.antt: `getClusterNodePorts`, `getClusterNodeAddresses`,
--   `checkPodStatus`, `checkNodeStatus`, `startHealthChecks` and `updateCluster`, over the lists
--   that the cluster's API returns; the loop of `Start` in Kube/Client/Start.antt.
-- - network/packet.go and the buffer of `handleRequest`, in Network/Packet.antt. encoding/gob is a
--   parameter, Network/Gob.antt: an encoder and a decoder for each type, with the value's round
--   trip as a hypothesis (`Transmits`) of the theorems that need it.
-- - network/network.go, in Network/Connection.antt: `Listen`, `handleRequest`, `SendRequest` and
--   `SendRequestAwaitResponse`, for each way that a connection can go; in
--   Raft/Handler/Answering.antt the `select` of `handleRequest`, its handler and the goroutines that
--   send its answers as they interleave.
-- - raft/peer.go and raft/routing.go, in Raft/Peer.antt and Raft/Routing.antt, a function for each
--   method. A map is an association list whose order is the order of `range`, so that a theorem
--   about every list holds of every order. `time.Now()` is an argument; times are in nanoseconds.
-- - raft/rpc.go, in Raft/Rpc.antt, and raft/raft.go: the state and its methods in Raft/State.antt,
--   the counting of votes in Raft/Election.antt, `commitObject` in Raft/Commit.antt, `handleRpc`
--   in Raft/Handler.antt and its replies in Raft/Replies.antt, the loop of `startRAFT` in
--   Raft/Loop.antt, and the interleaving of a node's goroutines as a step relation in
--   Raft/System.antt. Raft/System/Exchange.antt and Raft/System/Replication.antt put two nodes
--   together for the fetches of one catch-up, Raft/System/Doubling.antt a leader and two fetch loops
--   of one node, Raft/System/Winning.antt a candidate and its voters, Raft/System/Committing.antt a
--   leader and the members that confirm, and Raft/System/Divergence.antt two leaders and the members
--   that confirm to both.
--   Raft/System/Ballots.antt has the history of what one node votes for, and Raft/Routing/View.antt
--   the table of peers as what is known at each address, without an order, as its specification.
--   Raft/Cluster.antt has all nodes and the requests that they have sent as one state.
--   Raft/Printing.antt has the lines that a node logs about itself.
-- - proxy/proxy.go and proxy/packet.go: `checkNewPorts` in Proxy/Ports.antt, the loop of `Start`
--   and the goroutines that open ports as a step relation in Proxy/System.antt, the forwarding of
--   requests in Proxy/Forward.antt, with the accept loops in Proxy/Forward/Accept.antt and, in
--   Proxy/Forward/Attempt.antt, the goroutine and the `select` of one round of `forwardToCluster`.
-- - scripts/sim_traffic.go, in Traffic.antt: the requests of `startNSTest`, `stopTestData`, the
--   parsing of an answer, in Traffic/Listing.antt the table of `getAllRequestsCompact`, and in
--   Traffic/Report.antt the other tables and what `main` prints; scripts/make_plot.py, in Plots.antt:
--   what `get_values` reads of it. A text is the list of its code points. A number is printed in one
--   step more than its value, and it has no more digits than that.
-- - poc/client.go and cmd.go, in Poc.antt: the commands that are typed, and what `main` starts
--   with. Poc/Logs.antt joins the command lines to the cluster. Poc/System.antt is the whole node as
--   `InitPoC` connects its raft node, its client and its proxy and `StartPoc` runs them; a goroutine
--   that waits to send on a channel is kept as what it sends. Poc/World.antt has all nodes, each with
--   its client and its proxy, and the requests between them as one state.
--
-- The parts meet in these places: a command that is committed is handed to the client of the local
-- cluster (the effect `to_cluster`, `update_cluster`); the client announces ports and nodes, from
-- which the proxy opens its ports; a handler of a node changes the state that the loop of
-- `startRAFT` reads.
--
-- A method that changes an object returns the new one. What a goroutine does to the outside is a
-- list of effects in the order of the program; how it ends (it returns, blocks on a nil channel,
-- waits, or panics) is a value. What arrives from the network, a random number, and an answer of
-- the cluster are arguments. An `int` is an integer; arithmetic that could leave 64 bits is
-- wrapped (`wrap_int`). The length of a slice is far below that bound.
--
-- A run of the loop, of a handler or of a commit is one step, with no other goroutine of the node in
-- between, although the program takes its locks for each access alone: what is stated of the steps of
-- a node is stated of runs that do not overlap. Raft/Handler/Races.antt has the vote requests that
-- overlap between the test of the term and its update, Raft/Commit/Overlap.antt the calls of
-- `commitObject` at a leader that overlap, and Raft/Handler/Rounds.antt the fetch loops that overlap;
-- elsewhere the waits inside `commitObject` and inside the fetch loop of `handleRpc` take what arrives
-- from their arguments. The effects of a handler behind its send on `newLeaderCh` are done only once an
-- election receives that, which no step waits for; a receive in the loop that needs a sender is left
-- open where its channel is made, and in this the step relation allows more than the program does.
-- But for the printing of a number, no function needs fuel: the loops run over the lists of what
-- arrives, and a list that ends while a loop still waits gives a result that says so.
--
-- In a cluster every step is a run of one node, the delivery of a request that was sent at some
-- time, or a command typed at a node. A request may be delivered late, more than once or never.
-- The answers to the fetches of one run come from handlers of nodes as they are when the run
-- begins.
--
-- Not modelled: sockets, timers but for the events that they cause, logging but for the status of a
-- node, client-go, the flags that the program starts with, and of the plotting script the average and
-- the drawing. In one whole node the connections of the proxy and the requests of other nodes are
-- arguments.
pub mod Prelude
pub mod Kube
pub mod Network
pub mod Raft
pub mod Proxy
pub mod Poc
pub mod Traffic
pub mod Plots
mod Tests
