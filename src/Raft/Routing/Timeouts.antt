-- ===== src/Raft/Routing/Timeouts.antt =====
-- raft/routing.go: how long a leader is trusted.
use k8_p2p_failover_poc.Prelude.{
  ◌≡◌, ℤ, pos, ◌+ℤ◌, ◌-ℤ◌, ◌≤ℤ◌, ◌<ℤ◌, ltb_ℤ, -ℤ_parts, +ℤ_parts, String, true, Option, none, some,
  List, [], ◌∷◌, text_keys, if◌then◌else◌, lookup, insert, arith, eq_iff, ◌^◌, ◌-◌, Bool-cases, inl,
  inr,
}
use k8_p2p_failover_poc.Raft.Peer.{Peer, is_leader, sub_time, deactivate_peer, get_time_remaining}
use k8_p2p_failover_poc.Raft.Routing.{
  PeerRouting, find_peer, update_ttl, get_leader_timeout, table_leader_timeout,
  leader_heartbeat_timeout,
}

-- The result of a peer's remaining time in `GetLeaderTimeout`.
abbrev verdict : ℤ → ℤ × Option String
verdict left = (
  if ltb_ℤ left (pos 0) then pos 0 else left,
  if ltb_ℤ left (pos 0) then some "LEADER TIMEOUT" else none,
)

-- The loop stops at the first leader, whose entry alone can change.
table_leader_timeout-insert :
    (now : ℤ) (a : String) (v w : Peer) (m : List (String × Peer))
    → find_peer is_leader m ≡ some a
    → lookup a m ≡ some v
    → is_leader w ≡ true
    → table_leader_timeout now (insert a w m) ≡ (
      insert a (get_time_remaining now w).1 m,
      (verdict (get_time_remaining now w).0).0,
      (verdict (get_time_remaining now w).0).1,
    )
unfolding table_leader_timeout find_peer lookup insert
table_leader_timeout-insert now a v w [] h l k = cc
table_leader_timeout-insert now a v w ((b, u) ∷ m) h l k =
    ground (arith, eq_iff b a, table_leader_timeout-insert now a v w m)

-- Within the bounds of a `time.Duration` the difference is exact, and its sign always is.
sub_time-exact : (t u : ℤ) → u ≤ℤ t → t ≤ℤ u +ℤ pos (2 ^ 63 - 1) → sub_time t u ≡ t -ℤ u
unfolding sub_time
sub_time-exact t u h k = ground (arith, -ℤ_parts t u, +ℤ_parts u (pos (2 ^ 63 - 1)))

sub_time-negative : (t u : ℤ) → ltb_ℤ (sub_time t u) (pos 0) ≡ ltb_ℤ t u
unfolding sub_time
sub_time-negative t u = ground (arith, -ℤ_parts t u)

module _ (p : PeerRouting) (a : String) (v : Peer) (heard now : ℤ)
    (first : find_peer is_leader p.table ≡ some a) (entry : lookup a p.table ≡ some v)
    (leads : is_leader v ≡ true) where
  abbrev refreshed : Peer
  refreshed = record v { ttl = heard +ℤ leader_heartbeat_timeout; active = true }

  refreshed_timeout : table_leader_timeout now (insert a refreshed p.table) ≡ (
    insert a (get_time_remaining now refreshed).1 p.table,
    (verdict (get_time_remaining now refreshed).0).0,
    (verdict (get_time_remaining now refreshed).0).1,
  )
  refreshed_timeout =
      table_leader_timeout-insert now a v refreshed p.table first entry (unfold is_leader in leads)

  update_ttl-entry : (update_ttl heard p a).0 ≡ record p { table = insert a refreshed p.table }
  unfolding update_ttl
  update_ttl-entry = ground arith

  refreshed_result : get_leader_timeout now (update_ttl heard p a).0 ≡ (
    record p { table = insert a (get_time_remaining now refreshed).1 p.table },
    (verdict (get_time_remaining now refreshed).0).0,
    (verdict (get_time_remaining now refreshed).0).1,
  )
  unfolding get_leader_timeout
  refreshed_result = rw update_ttl-entry (ground (arith, refreshed_timeout))

  in_time :
      heard ≤ℤ now
      → now ≤ℤ heard +ℤ leader_heartbeat_timeout
      → get_time_remaining now refreshed ≡ ((heard +ℤ leader_heartbeat_timeout) -ℤ now, refreshed)
  unfolding get_time_remaining
  in_time h k = ground (
    arith,
    sub_time-exact (heard +ℤ leader_heartbeat_timeout) now,
    sub_time-negative (heard +ℤ leader_heartbeat_timeout) now,
    +ℤ_parts heard leader_heartbeat_timeout,
    +ℤ_parts now (pos (2 ^ 63 - 1)),
  )

  late :
      heard +ℤ leader_heartbeat_timeout <ℤ now
      → ((get_time_remaining now refreshed).1 ≡ deactivate_peer refreshed)
        × (ltb_ℤ (get_time_remaining now refreshed).0 (pos 0) ≡ true)
  unfolding get_time_remaining
  late h = ground (arith, sub_time-negative (heard +ℤ leader_heartbeat_timeout) now)

  -- Once `UpdateTTL` has been called for the leader, `GetLeaderTimeout` trusts it for twenty seconds:
  -- in that time the remaining time is returned and nothing is changed; later an error is returned
  -- and the leader's entry is demoted.
  pub get_leader_timeout-update_ttl :
      heard ≤ℤ now
      → get_leader_timeout now (update_ttl heard p a).0 ≡ (
          if ltb_ℤ (heard +ℤ leader_heartbeat_timeout) now
          then (
            record p { table = insert a (deactivate_peer refreshed) p.table },
            pos 0,
            some "LEADER TIMEOUT",
          )
          else ((update_ttl heard p a).0, (heard +ℤ leader_heartbeat_timeout) -ℤ now, none))
  get_leader_timeout-update_ttl h =
      elim (Bool-cases (ltb_ℤ (heard +ℤ leader_heartbeat_timeout) now)) [
        | inl e ↦ rw (refreshed_result, e) (ground (arith, late (ground arith)))
        | inr e ↦
            rw (refreshed_result, update_ttl-entry, e)
              (ground
                (arith, in_time h (ground arith), -ℤ_parts (heard +ℤ leader_heartbeat_timeout) now))
      ]
