-- ===== src/Raft/Printing.antt =====
-- raft/raft.go: the lines that a node logs about itself, without the time that package log puts in front.
use k8_p2p_failover_poc.Prelude.{
  ℕ, zero, suc, ℤ, pos, Option, none, some, List, [], ◌∷◌, ◌++◌, eq_ℤ, length, if◌then◌else◌, ◌≡◌,
  refl, sym, ap, ◌∙◌, ◌+◌, arith, append_assoc, length-append, get_elem?, get_elem?-append_length,
  Bool-cases, inl, inr,
}
use k8_p2p_failover_poc.Kube.Resources.{KubeCmd, no_cmd}
use k8_p2p_failover_poc.Kube.Printing.{cmd_to_string}
use k8_p2p_failover_poc.Traffic.{Text, text}
use k8_p2p_failover_poc.Traffic.Listing.{decimal}
use k8_p2p_failover_poc.Raft.Peer.{RaftStatus, leader, candidate, member, Peer, get_time_remaining}
use k8_p2p_failover_poc.Raft.Routing.{PeerRouting}
use k8_p2p_failover_poc.Raft.State.{Raft, get_log_item, get_length_log}

-- Only the three roles of the constants are ever assigned.
unfoldable pub role_string : RaftStatus → Text
role_string leader = text "LEADER"
role_string candidate = text "CANDIDATE"
role_string member = text "MEMBER"

unfoldable pub get_role_string : PeerRouting → Text
unfolding role_string
get_role_string p = role_string p.self.role

-- `ToString` of a peer, which deactivates a leader whose time has run out: the text, and the peer. Its
-- format is the host, and what was meant for the format is the first of the values. `fmt.Sprintf` and how
-- seconds are written are arguments.
unfoldable pub peer_to_string : (Text → List Text → Text) → (ℤ → Text) → ℤ → Peer → Text × Peer
unfolding role_string
peer_to_string sprintf show_seconds now p =
    let (left, p') = get_time_remaining now p in
    let values =
      λ (ttl : Text). text "[HOST: %s, ROLE: %s, TTL: %s]" ∷ role_string p.role ∷ ttl ∷ [] in
    elim p.role [
      | leader ↦ (sprintf (text p.host) (values (show_seconds left)), p')
      | candidate ↦ (sprintf (text p.host) (values (text "NA")), p)
      | member ↦ (sprintf (text p.host) (values (text "NA")), p)
    ]

unfoldable pub role_log : Raft → Text → Text
unfolding role_string
role_log r msg = b'[' ∷ (role_string r.role ++ b':' ∷ (decimal r.term ++ b']' ∷ b' ' ∷ msg))

abbrev item_line : ℤ → ℕ → KubeCmd → Text
item_line items n item =
    text "AT INDEX: ["
    ++ (decimal (pos n) ++ b'/' ∷ (decimal items ++ b']' ∷ b' ' ∷ cmd_to_string item))

-- The lines of `printLog` from index `n`, for `rounds` rounds; `none` is the panic.
unfoldable pub log_lines : Raft → ℤ → ℕ → ℕ → Option (List Text)
log_lines r items n zero = some []
log_lines r items n (suc rounds) = elim (get_log_item r (pos n)) [
  | none ↦ none
  | some item ↦ elim (log_lines r items (suc n) rounds) [
    | none ↦ none
    | some rest ↦ some (item_line items n item ∷ rest)
  ]
]

unfoldable pub print_lines : Raft → ℤ → Option (List Text)
unfolding log_lines
print_lines r items =
    if eq_ℤ items (pos 0)
    then some (text "EMPTY COMMIT LOG" ∷ [])
    else log_lines r items 0 (suc (length r.commit_log))

-- `stats`
unfoldable pub stats : Raft → Option (List Text)
unfolding print_lines role_log
stats r = elim (print_lines r (get_length_log r)) [
  | none ↦ none
  | some lines ↦ some (
      text "RAFT STATUS UPDATE:"
      ∷ role_log r (text "COMMIT INDEX: " ++ decimal (get_length_log r))
      ∷ lines)
]

log_lines-total :
    (r : Raft) (items : ℤ) (n : ℕ) (cs ds : List KubeCmd)
    → r.commit_log ≡ cs ++ ds
    → n ≡ length cs
    → (ls : List Text) × (log_lines r items (suc n) (length ds) ≡ some ls) × (length ls ≡ length ds)
unfolding log_lines get_log_item
log_lines-total r items n cs [] e h = ([], refl, refl)
log_lines-total r items n cs (d ∷ ds) e h =
    let at : get_elem? r.commit_log n ≡ some d = rw (e, h) (get_elem?-append_length cs ds d) in
    let (ls, f, k) =
      log_lines-total r items (suc n) (cs ++ d ∷ []) ds (e ∙ sym (append_assoc cs (d ∷ []) ds))
        (omega (arith, h, length-append cs (d ∷ []))) in
    (item_line items (suc n) d ∷ ls, rw (log_lines, at, f) refl, ap suc k)

-- A status update never panics. It has one line for index zero and one for each entry of the log, behind
-- two lines of heading, unless no entry counts, when one line says that the log is empty.
stats-total :
    (r : Raft)
    → (lines : List Text) × (stats r ≡ some lines)
      × (length lines ≡ (if eq_ℤ (get_length_log r) (pos 0) then 3 else 3 + length r.commit_log))
unfolding stats print_lines log_lines get_log_item
stats-total r =
    let items = get_length_log r in
    let (ls, f, k) = log_lines-total r items 0 [] r.commit_log refl refl in
    let heading = role_log r (text "COMMIT INDEX: " ++ decimal items) in
    let title = text "RAFT STATUS UPDATE:" in
    elim (Bool-cases (eq_ℤ items (pos 0))) [
      | inl e ↦ (
        title ∷ heading ∷ text "EMPTY COMMIT LOG" ∷ [],
        rw (stats, print_lines, e) refl,
        rw e refl,
      )
      | inr e ↦ (
        title ∷ heading ∷ item_line items 0 no_cmd ∷ ls,
        rw (stats, print_lines, e, log_lines, f) refl,
        rw e (omega (arith, k)),
      )
    ]
