-- ===== src/Raft/Peer.antt =====
-- raft/peer.go, and the type `RaftStatus` of raft/raft.go.
-- A point in time is its distance in nanoseconds from the Unix epoch; `time.Now()` is an argument.
use k8_p2p_failover_poc.Prelude.{
  ℤ, pos, negsuc, ◌+ℤ◌, ◌-ℤ◌, ltb_ℤ, wrap_int, ◌^◌, ◌*◌, ◌-◌, String, Bool, true, false,
  if◌then◌else◌,
}

pub data RaftStatus : Type 0 where
  leader candidate member : RaftStatus

abbrev pub status_eq : RaftStatus → RaftStatus → Bool
status_eq leader leader = true
status_eq candidate candidate = true
status_eq member member = true
status_eq _ _ = false

pub record Peer : Type 0 where
  pub ttl : ℤ
  pub host : String
  pub active : Bool
  pub addr : String
  pub role : RaftStatus
  pub term : ℤ

-- The zero `time.Time` is the start of year 1.
abbrev pub zero_time : ℤ
zero_time = negsuc (62135596800 * 10 ^ 9 - 1)

abbrev min_duration : ℤ
min_duration = negsuc (2 ^ 63 - 1)

abbrev max_duration : ℤ
max_duration = pos (2 ^ 63 - 1)

-- `t.Sub(u)`, which saturates at the ends of `time.Duration`.
unfoldable pub sub_time : ℤ → ℤ → ℤ
sub_time t u =
    let d = t -ℤ u in
    if ltb_ℤ max_duration d then max_duration else if ltb_ℤ d min_duration then min_duration else d

unfoldable pub init_peer : String → String → Peer
init_peer addr hostname = record {
  ttl = zero_time;
  host = hostname;
  active = false;
  addr = addr;
  role = member;
  term = pos 0;
}

unfoldable pub deactivate_peer : Peer → Peer
deactivate_peer p = record p { active = false; role = member }

-- `GetTimeRemaining`: a peer whose time has run out is deactivated.
unfoldable pub get_time_remaining : ℤ → Peer → ℤ × Peer
get_time_remaining now p =
    let ttl_time = sub_time p.ttl now in
    (ttl_time, if ltb_ℤ ttl_time (pos 0) then deactivate_peer p else p)

unfoldable pub is_leader : Peer → Bool
is_leader p = status_eq p.role leader

unfoldable pub is_candidate : Peer → Bool
is_candidate p = status_eq p.role candidate

unfoldable pub is_member : Peer → Bool
is_member p = status_eq p.role member

unfoldable pub deactivate_leader : Peer → Peer × Bool
deactivate_leader p = (record p { role = member }, true)

unfoldable pub raise_term : Peer → ℤ → Peer
raise_term p increase = record p { term = wrap_int (p.term +ℤ increase) }

unfoldable pub lower_term : Peer → ℤ → Peer
lower_term p decrease = record p { term = wrap_int (p.term -ℤ decrease) }
