-- ===== src/Raft/Handler/Fetch.antt =====
-- raft/raft.go: how a leader serves the entries that a peer lacks.
use k8_p2p_failover_poc.Prelude.{
  ◌≡◌, ◌≢◌, refl, ◌↔◌, ℤ, pos, negsuc, ◌≤ℤ◌, ◌<ℤ◌, none, some, [], ◌∷◌, arith,
}
use k8_p2p_failover_poc.Kube.Resources.{KubeCmd}
use k8_p2p_failover_poc.Raft.Peer.{leader}
use k8_p2p_failover_poc.Raft.Rpc.{Platform, FetchMissingEntries}
use k8_p2p_failover_poc.Raft.State.{Raft, get_log_item, get_length_log, is_role}
use k8_p2p_failover_poc.Raft.State.Log.{get_log_item-total}
use k8_p2p_failover_poc.Raft.Replies.{respond_fetch_missing_entries}
use k8_p2p_failover_poc.Raft.Handler.{handle_fetch, returned, panicked}

-- A leader answers a fetch of its term or an earlier one, at an index from 0 to its log's length, with
-- that item, and its state is kept.
handle_fetch-get_log_item :
    (w : Platform) (r : Raft) (call : FetchMissingEntries)
    → r.role ≡ leader
    → call.term ≤ℤ r.term
    → pos 0 ≤ℤ call.log_index
    → call.log_index ≤ℤ get_length_log r
    → (c : KubeCmd) × (get_log_item r call.log_index ≡ some c)
      × (handle_fetch w r call ≡ record {
        raft = r;
        effects = respond_fetch_missing_entries w r c call.log_index call.leader_addr ∷ [];
        ending = returned;
      })
unfolding handle_fetch is_role
handle_fetch-get_log_item w r call l t h k =
    let (c, e) = get_log_item-total r call.log_index h k in (c, e, ground arith)

item_negative : (r : Raft) (i : ℤ) → i <ℤ pos 0 → get_log_item r i ≡ none
unfolding get_log_item
item_negative r (pos n) h = absurd (omega arith)
item_negative r (negsuc n) h = refl

item_present : (r : Raft) (i : ℤ) → pos 0 ≤ℤ i → i ≤ℤ get_length_log r → get_log_item r i ≢ none
item_present r i h k e = let (c, p) = get_log_item-total r i h k in cc

length_nonneg : (r : Raft) → pos 0 ≤ℤ get_length_log r
unfolding get_length_log
length_nonneg r = omega arith

-- A fetch makes the node panic exactly when the node is leader, the term is not newer than its own and
-- the index is negative.
handle_fetch-panicked :
    (w : Platform) (r : Raft) (call : FetchMissingEntries)
    → ((handle_fetch w r call).ending ≡ panicked)
      ↔ ((r.role ≡ leader) × (call.term ≤ℤ r.term) × (call.log_index <ℤ pos 0))
unfolding handle_fetch is_role
handle_fetch-panicked w r call =
    ground (arith, length_nonneg r, item_negative r call.log_index, item_present r call.log_index)
