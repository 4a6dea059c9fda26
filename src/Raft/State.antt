-- ===== src/Raft/State.antt =====
-- raft/raft.go: the state of a node and the methods that read and write it under their mutexes.
-- A panic of the Go runtime is `none`.
pub mod Effects
pub mod Log
use k8_p2p_failover_poc.Prelude.{
  ℕ, zero, suc, ◌+◌, ◌-◌, ℤ, pos, negsuc, ◌+ℤ◌, ltb_ℤ, leb_ℤ, eq_ℤ, String, Bool, true, false, not,
  ◌&&◌, ◌||◌, Option, none, some, List, [], ◌∷◌, ◌++◌, ◌==◌, text_keys, leb, if◌then◌else◌, length,
  get_elem?, drop,
}
use k8_p2p_failover_poc.Kube.Resources.{KubeCmd, no_cmd, is_no_cmd}
use k8_p2p_failover_poc.Network.Packet.{DataType}
use k8_p2p_failover_poc.Raft.Peer.{RaftStatus, leader, candidate, member, status_eq}
use k8_p2p_failover_poc.Raft.Routing.{PeerRouting, init_peer_routing}

-- A channel field: nil, on which a send and a receive block for ever, or made with no buffer.
pub data Channel : Type 0 where
  nil_channel unbuffered : Channel

pub record Raft : Type 0 where
  pub role : RaftStatus
  pub new_term : Channel
  pub term : ℤ
  pub peers : PeerRouting
  pub quorum : ℕ
  pub supporting_candidate : String
  pub new_leader_ch : Channel
  pub commit_log : List KubeCmd
  pub raft_port : ℤ

-- What a goroutine does to the world outside the state, in the order of the program.
pub data Effect : Type 0 where
  -- `go func() { r.toCluster <- cmd }()`
  to_cluster : KubeCmd → Effect
  -- `go func() { ch <- encPacket }()` on the channel of the request
  reply : List ℕ → Effect
  close_done : Effect
  -- `r.newTerm <- true`
  send_new_term : Effect
  -- `r.newLeaderCh <- addr`
  send_new_leader : String → Effect
  -- a request to a peer's address, its payload and its type
  request : String → List ℕ → DataType → Effect

-- `InitRaft` (the field `newTerm` is not set).
unfoldable pub init_raft : String → ℤ → Raft
unfolding init_peer_routing
init_raft ip port = record {
  role = member;
  new_term = nil_channel;
  term = pos 0;
  peers = init_peer_routing ip;
  quorum = 0;
  supporting_candidate = "";
  new_leader_ch = unbuffered;
  commit_log = [];
  raft_port = port;
}

unfoldable pub is_supporting_candidate : Raft → Bool
is_supporting_candidate r = not (r.supporting_candidate == "")

unfoldable pub support_candidate : Raft → String → Raft
support_candidate r addr = record r { supporting_candidate = addr }

unfoldable pub stop_support : Raft → Raft × Bool
stop_support r = (record r { supporting_candidate = "" }, not (r.supporting_candidate == ""))

-- `changeRole`, and `updateRole`, which is the same.
unfoldable pub change_role : Raft → RaftStatus → Raft
change_role r new_role = record r { role = new_role }

unfoldable pub is_role : Raft → RaftStatus → Bool
is_role r compare_role = status_eq r.role compare_role

unfoldable pub update_term : Raft → ℤ → Raft
update_term r new_term = record r { term = new_term }

-- Both branches of `addCommit` append, the first to an empty log.
unfoldable pub add_commit : Raft → KubeCmd → Raft × List Effect
add_commit r commit_confirmed = (
  record r {
    commit_log = elim r.commit_log [
      | [] ↦ commit_confirmed ∷ []
      | c ∷ cs ↦ (c ∷ cs) ++ commit_confirmed ∷ []
    ];
  },
  to_cluster commit_confirmed ∷ [],
)

-- `r.commitLog[lastEntry:]`
unfoldable pub get_slice_log : Raft → ℤ → Option (List KubeCmd)
get_slice_log r (pos n) = if leb n (length r.commit_log) then some (drop n r.commit_log) else none
get_slice_log r (negsuc n) = none

-- Index 0 is the empty command; index n is the n-th entry.
unfoldable pub get_log_item : Raft → ℤ → Option KubeCmd
get_log_item r (pos zero) = some no_cmd
get_log_item r (pos (suc n)) = get_elem? r.commit_log n
get_log_item r (negsuc n) = none

-- The entries that are not the empty command.
unfoldable pub count_entries : List KubeCmd → ℕ
count_entries [] = 0
count_entries (c ∷ cs) = (if is_no_cmd c then 0 else 1) + count_entries cs

-- The length of a slice in memory is far below 2^63, so the count does not wrap.
unfoldable pub get_length_log : Raft → ℤ
get_length_log r = pos (count_entries r.commit_log)

-- The items that the loop of `printLog` fetches, from index `n`, for `rounds` rounds.
print_items : Raft → ℕ → ℕ → Option (List KubeCmd)
unfolding get_log_item
print_items r n zero = some []
print_items r n (suc rounds) = elim (get_log_item r (pos n)) [
  | none ↦ none
  | some item ↦ elim (print_items r (suc n) rounds) [ none ↦ none | some rest ↦ some (item ∷ rest) ]
]

unfoldable pub print_log : Raft → ℤ → Option (List KubeCmd)
unfolding print_items
print_log r items =
    if eq_ℤ items (pos 0) then some [] else print_items r 0 (suc (length r.commit_log))
