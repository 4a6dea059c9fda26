-- ===== src/Raft/Routing.antt =====
-- raft/routing.go: the routing table of one node. A Go `error` is an `Option` of its message.
pub mod Members
pub mod Quorum
pub mod Leaders
pub mod Timeouts
pub mod View
pub mod Kept
pub mod Known
use k8_p2p_failover_poc.Prelude.{
  ℕ, ◌+◌, ◌/◌, ◌*◌, ◌^◌, ℤ, pos, ◌+ℤ◌, ltb_ℤ, String, Bool, true, false, not, ◌&&◌, ◌||◌, Option,
  none, some, List, [], ◌∷◌, ◌++◌, ◌==◌, text_keys, if◌then◌else◌, length, replicate, keys,
  map_values, lookup, insert,
}
use k8_p2p_failover_poc.Raft.Peer.{
  RaftStatus, leader, candidate, member, Peer, init_peer, get_time_remaining, is_leader,
  is_candidate, is_member, raise_term, lower_term,
}

pub record PeerRouting : Type 0 where
  pub self : Peer
  pub table : List (String × Peer)
  pub active : Bool

abbrev pub Error : Type 0
Error = Option String

unfoldable pub init_peer_routing : String → PeerRouting
unfolding init_peer
init_peer_routing host_address = record {
  self = init_peer host_address "SELF";
  table = [];
  active = false;
}

unfoldable pub get_addr : PeerRouting → String
get_addr p = p.self.addr

unfoldable pub is_peer : PeerRouting → String → Bool
is_peer p addr = elim (lookup addr p.table) [ none ↦ false | some _ ↦ true ]

-- `GetPeersAddress` makes a slice of `len(p.table)` empty texts and appends the keys to it.
unfoldable pub get_peers_address : PeerRouting → List String
get_peers_address p = replicate (length p.table) "" ++ keys p.table

-- `LockRoutingTableEntries` returns the quorum.
unfoldable pub lock_routing_table_entries : PeerRouting → PeerRouting × ℕ
lock_routing_table_entries p = (record p { active = true }, (length p.table + 1) / 2)

unfoldable pub add_peer : PeerRouting → String → String → PeerRouting × Error
unfolding is_peer init_peer
add_peer p addr contact =
    if p.active
    then (p, some "CANNOT ADD ENTRIES AFTER PROTOCOL INITIATION")
    else if is_peer p addr
    then (p, some "ENTRY EXISTS")
    else (record p { table = insert addr (init_peer addr contact) p.table }, none)

-- The first entry that passes a test.
unfoldable pub find_peer : (Peer → Bool) → List (String × Peer) → Option String
find_peer test [] = none
find_peer test ((addr, peer) ∷ table) = if test peer then some addr else find_peer test table

abbrev or_error : Option String → String → String × Error
or_error (some addr) msg = (addr, none)
or_error none msg = ("", some msg)

unfoldable pub get_leader_addr : PeerRouting → String × Error
unfolding is_leader get_addr
get_leader_addr p =
    if is_leader p.self
    then (get_addr p, none)
    else or_error (find_peer is_leader p.table) "NO ENTRY"

-- The loop of `GetLeaderTimeout`: the first leader decides, and is deactivated if it is late.
unfoldable pub table_leader_timeout : ℤ → List (String × Peer) → List (String × Peer) × ℤ × Error
unfolding is_leader
table_leader_timeout now [] = ([], pos 0, some "NO LEADER ELECTED")
table_leader_timeout now ((addr, peer) ∷ table) =
    let rest = table_leader_timeout now table in
    if is_leader peer
    then (let (left, peer') = get_time_remaining now peer in
        (
          (addr, peer') ∷ table,
          if ltb_ℤ left (pos 0) then pos 0 else left,
          if ltb_ℤ left (pos 0) then some "LEADER TIMEOUT" else none,
        ))
    else ((addr, peer) ∷ rest.0, rest.1, rest.2)

unfoldable pub get_leader_timeout : ℤ → PeerRouting → PeerRouting × ℤ × Error
get_leader_timeout now p =
    let (table, left, err) = table_leader_timeout now p.table in
    (record p { table = table }, left, err)

unfoldable pub get_candidate_address : PeerRouting → String × Error
unfolding is_candidate
get_candidate_address p = or_error (find_peer is_candidate p.table) "NO ASSIGNED CANDIDATE"

-- `GetRandomMember`: a node that is no leader steps down. (The peer is given by its address.)
unfoldable pub get_random_member : PeerRouting → PeerRouting × String × Error
unfolding is_leader is_member
get_random_member p =
    if not (is_leader p.self)
    then (
      record p { self = record p.self { role = member } },
      "",
      some "CANNOT ASSIGN CANDIDATE AS NON LEADER",
    )
    else (let (addr, err) = or_error (find_peer is_member p.table) "NO PEER ENTRY" in
        (p, addr, err))

-- `TIME_RANGE_HEARTBEAT`, a number of nanoseconds where it is compared.
abbrev pub time_range_heartbeat : ℤ
time_range_heartbeat = pos 1

unfoldable pub check_leader_timeout : ℤ → PeerRouting → PeerRouting × Bool × ℤ × Error
unfolding get_leader_timeout
check_leader_timeout now p =
    let (p', time_next_heartbeat, err) = get_leader_timeout now p in
    elim err [
      | some e ↦ (p', true, pos 0, some e)
      | none ↦
          if ltb_ℤ time_next_heartbeat time_range_heartbeat
          then (p', true, pos 0, none)
          else (p', false, time_next_heartbeat, none)
    ]

-- `SEC_TIME_TIMEOUT_LEADER_HB`, in nanoseconds.
abbrev pub leader_heartbeat_timeout : ℤ
leader_heartbeat_timeout = pos (20 * 10 ^ 9)

unfoldable pub update_ttl : ℤ → PeerRouting → String → PeerRouting × Error
update_ttl now p addr = elim (lookup addr p.table) [
  | none ↦ (p, some "NO ENTRY")
  | some pr ↦ (
    record p {
      table =
          insert addr (record pr { ttl = now +ℤ leader_heartbeat_timeout; active = true }) p.table;
    },
    none,
  )
]

unfoldable pub raise_self_term : PeerRouting → ℤ → PeerRouting
unfolding raise_term
raise_self_term p increase =
    if ltb_ℤ (pos 0) increase then record p { self = raise_term p.self increase } else p

unfoldable pub lower_self_term : PeerRouting → ℤ → PeerRouting
unfolding lower_term
lower_self_term p decrease =
    if ltb_ℤ (pos 0) decrease then record p { self = lower_term p.self decrease } else p

unfoldable pub become_member : PeerRouting → ℤ → PeerRouting × Bool
unfolding is_member
become_member p new_term =
    let self = record p.self { term = new_term } in
    if not (is_member self)
    then (record p { self = record self { role = member } }, true)
    else (record p { self = self }, false)

unfoldable pub become_candidate : PeerRouting → PeerRouting × Bool
unfolding is_member
become_candidate p = (record p { self = record p.self { role = candidate } }, is_member p.self)

abbrev pub with_role : RaftStatus → Peer → Peer
with_role r peer = record peer { role = r }

-- One round of the loop of `MakeCandidate`.
abbrev pub candidate_round : String → String → Peer → Peer
candidate_round addr paddr peer =
    let peer' = if is_candidate peer && not (paddr == addr) then with_role member peer else peer in
    if paddr == addr then with_role candidate peer' else peer'

unfoldable pub make_candidate : PeerRouting → String → PeerRouting × Bool
unfolding is_candidate is_peer get_addr
make_candidate p addr =
    let assigned = is_peer p addr in
    let p' = record p { table = map_values (candidate_round addr) p.table } in
    if get_addr p == addr && not (is_candidate p.self)
    then (record p' { self = with_role candidate p.self }, true)
    else if is_candidate p.self && assigned
    then (record p' { self = with_role member p.self }, assigned)
    else (p', assigned)

unfoldable pub become_leader : PeerRouting → PeerRouting
become_leader p = record p {
  self = with_role leader p.self;
  table = map_values (λ _ peer. with_role member peer) p.table;
}

unfoldable pub wipe_leader : PeerRouting → PeerRouting
wipe_leader p = record p {
  self = with_role member p.self;
  table = map_values (λ _ peer. with_role member peer) p.table;
}

unfoldable pub make_leader : PeerRouting → String → PeerRouting × Bool
unfolding get_addr
make_leader p addr = elim (lookup addr p.table) [
  | some peer ↦ (record p { table = insert addr (with_role leader peer) p.table }, true)
  | none ↦
      if get_addr p == addr then (record p { self = with_role leader p.self }, true) else (p, false)
]
