-- ===== src/Raft/Election/Tally.antt =====
-- raft/raft.go: what the counts of votes and confirmations mean.
use k8_p2p_failover_poc.Prelude.{
  ℕ, ◌+◌, ◌≤◌, ◌<◌, ◌≡◌, ◌↔◌, true, some, List, [], ◌∷◌, if◌then◌else◌, arith, length, ◌++◌, leb,
}
use k8_p2p_failover_poc.Raft.Rpc.{Platform, decode_payload}
use k8_p2p_failover_poc.Raft.Election.{
  VoteEvent, answered, timed_out, count_votes, count_confirmations,
}

-- The answers that arrive before the first silence of five seconds.
abbrev pub in_time : List VoteEvent → List VoteEvent
in_time [] = []
in_time (timed_out ∷ events) = []
in_time (answered packet ∷ events) = answered packet ∷ in_time events

-- How many of these answers confirm.
abbrev pub confirming : Platform → List VoteEvent → ℕ
confirming w [] = 0
confirming w (timed_out ∷ events) = confirming w events
confirming w (answered packet ∷ events) =
    (if (decode_payload w.replies packet).0.confirmed then 1 else 0) + confirming w events

-- An election with a positive quorum is won exactly when a quorum of answers arrives in time. What
-- the answers say is not read.
pub count_votes-quorum :
    (quorum n : ℕ) (events : List VoteEvent)
    → n < quorum
    → (count_votes quorum n events ≡ some true) ↔ (quorum ≤ n + length (in_time events))
unfolding count_votes
count_votes-quorum quorum n [] h = ground arith
count_votes-quorum quorum n (timed_out ∷ events) h = ground arith
count_votes-quorum quorum n (answered packet ∷ events) h =
    ground (arith, count_votes-quorum quorum (n + 1) events)

-- With a positive quorum an object is accepted exactly when a quorum of confirmations arrives in
-- time.
pub count_confirmations-quorum :
    (w : Platform) (quorum n : ℕ) (events : List VoteEvent)
    → n < quorum
    → (count_confirmations w quorum n events ≡ some true)
      ↔ (quorum ≤ n + confirming w (in_time events))
unfolding count_confirmations
count_confirmations-quorum w quorum n [] h = ground arith
count_confirmations-quorum w quorum n (timed_out ∷ events) h = ground arith
count_confirmations-quorum w quorum n (answered packet ∷ events) h = ground (
  arith,
  count_confirmations-quorum w quorum n events,
  count_confirmations-quorum w quorum (n + 1) events,
)

-- While fewer than a quorum are counted, both counts have a result once a silence of five seconds is
-- seen, whatever follows it. The votes are won exactly when those counted and the answers before the
-- first silence make a quorum, whatever the answers say; an object is accepted exactly when those
-- counted and the answers before the first silence that confirm do.
pub count_votes-total :
    (w : Platform) (quorum n m : ℕ) (events rest : List VoteEvent)
    → n < quorum
    → m < quorum
    → let seen = events ++ timed_out ∷ rest in
      (count_votes quorum n seen ≡ some (leb quorum (n + length (in_time events))))
      × (count_confirmations w quorum m seen
          ≡ some (leb quorum (m + confirming w (in_time events))))
unfolding count_votes count_confirmations
count_votes-total w quorum n m [] rest h k = ground arith
count_votes-total w quorum n m (timed_out ∷ events) rest h k = ground arith
count_votes-total w quorum n m (answered packet ∷ events) rest h k = ground (
  arith,
  count_votes-total w quorum n m events rest,
  count_votes-total w quorum (n + 1) m events rest,
  count_votes-total w quorum n (m + 1) events rest,
  count_votes-total w quorum (n + 1) (m + 1) events rest,
)
