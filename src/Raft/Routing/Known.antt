-- ===== src/Raft/Routing/Known.antt =====
-- raft/routing.go: a table as a list of addresses makes it.
use k8_p2p_failover_poc.Prelude.{
  ◌≡◌, ◌↔◌, refl, sym, ap, ◌∙◌, subst, String, false, ◌||◌, none, some, List, [], ◌∷◌, ◌==◌,
  text_keys, elem, lookup, insert, IsMap, IsMap-insert, All, arith, eq_iff, Option, Bool-cases,
  Option-cases, inl, inr,
}
use k8_p2p_failover_poc.Raft.Peer.{Peer, init_peer}
use k8_p2p_failover_poc.Raft.Routing.{
  PeerRouting, is_peer, add_peer, init_peer_routing, lock_routing_table_entries,
}
use k8_p2p_failover_poc.Raft.Routing.Kept.{addrs, Kept}
use k8_p2p_failover_poc.Raft.Routing.Members.{is_peer-add_peer}
use k8_p2p_failover_poc.Raft.Loop.{add_peers}

-- The peers are those of a list, each once, and each holds the address at which it stands.
pub record IsTable (peers : List String) (p : PeerRouting) : Type 0 where
  pub once : IsMap p.table
  pub own : All (λ (e : String × Peer). e.1.addr ≡ e.0) p.table
  pub known : (a : String) → is_peer p a ≡ elem a peers

abbrev addr_of : Option Peer → Option String
addr_of none = none
addr_of (some v) = some v.addr

lookup-addrs : (a : String) (m : List (String × Peer)) → lookup a (addrs m) ≡ addr_of (lookup a m)
unfolding addrs lookup
lookup-addrs a [] = refl
lookup-addrs a ((b, v) ∷ m) = elim (Bool-cases (b == a)) [
  | inl e ↦ rw e refl
  | inr e ↦ rw e (lookup-addrs a m)
]

lookup-addrs-none :
    (a : String) (m : List (String × Peer)) → (lookup a (addrs m) ≡ none) ↔ (lookup a m ≡ none)
lookup-addrs-none a m = elim (Option-cases (lookup a m)) [
  | inl e ↦ ground (arith, lookup-addrs a m, e)
  | inr (v, e) ↦ ground (arith, lookup-addrs a m, e)
]

IsMap-addrs : (m : List (String × Peer)) → IsMap m ↔ IsMap (addrs m)
unfolding addrs
IsMap-addrs [] = (λ h. h, λ h. h)
IsMap-addrs ((a, v) ∷ m) = (
  λ h. ((lookup-addrs-none a m).1 h.0, (IsMap-addrs m).0 h.1),
  λ h. ((lookup-addrs-none a m).0 h.0, (IsMap-addrs m).1 h.1),
)

-- Each peer holds the address at which it stands.
abbrev IsOwn : List (String × Peer) → Type 0
IsOwn m = All (λ (e : String × Peer). e.1.addr ≡ e.0) m

IsOwn-addrs :
    (m : List (String × Peer)) → IsOwn m ↔ All (λ (e : String × String). e.1 ≡ e.0) (addrs m)
unfolding addrs
IsOwn-addrs [] = (λ h. h, λ h. h)
IsOwn-addrs ((a, v) ∷ m) = (λ h. (h.0, (IsOwn-addrs m).0 h.1), λ h. (h.0, (IsOwn-addrs m).1 h.1))

is_peer-addrs :
    (p q : PeerRouting) (a : String) → addrs q.table ≡ addrs p.table → is_peer q a ≡ is_peer p a
unfolding is_peer
is_peer-addrs p q a e = elim (Option-cases (lookup a p.table)) [
  | inl n ↦
      let gone =
        (lookup-addrs-none a q.table).0
          (ap (λ m. lookup a m) e ∙ (lookup-addrs-none a p.table).1 n) in
      rw (is_peer, n, gone) refl
  | inr (v, n) ↦ elim (Option-cases (lookup a q.table)) [
    | inl gone ↦
        let none_of =
          (lookup-addrs-none a p.table).0
            (ap (λ m. lookup a m) (sym e) ∙ (lookup-addrs-none a q.table).1 gone) in
        absurd (ground (arith, n, none_of))
    | inr (u, o) ↦ rw (is_peer, n, o) refl
  ]
]

-- What is kept is enough.
pub IsTable-Kept :
    (peers : List String) (p q : PeerRouting) → Kept p q → IsTable peers p → IsTable peers q
IsTable-Kept peers p q k t = record {
  once = (IsMap-addrs q.table).1 (subst IsMap (sym k.0) ((IsMap-addrs p.table).0 t.once));
  own =
      (IsOwn-addrs q.table).1 (
        subst (All (λ (e : String × String). e.1 ≡ e.0)) (sym k.0) ((IsOwn-addrs p.table).0 t.own));
  known = λ a. is_peer-addrs p q a k.0 ∙ t.known a;
}

IsOwn-insert :
    (a : String) (v : Peer) (m : List (String × Peer)) → v.addr ≡ a → IsOwn m → IsOwn (insert a v m)
unfolding insert
IsOwn-insert a v [] e h = (e, tt)
IsOwn-insert a v ((b, u) ∷ m) e h = elim (Bool-cases (b == a)) [
  | inl s ↦ rw s (e, h.1)
  | inr s ↦ rw s (h.0, IsOwn-insert a v m e h.1)
]

-- While the table is open.
add_peer-open :
    (p : PeerRouting) (a c : String)
    → p.active ≡ false
    → IsMap p.table
    → IsOwn p.table
    → let q = (add_peer p a c).0 in (q.active ≡ false) × IsMap q.table × IsOwn q.table
unfolding add_peer init_peer
add_peer-open p a c o m w = elim (Bool-cases (is_peer p a)) [
  | inl e ↦ rw (add_peer, o, e) (refl, m, w)
  | inr e ↦
      rw (add_peer, o, e)
        (
          refl,
          IsMap-insert a (init_peer a c) p.table m,
          IsOwn-insert a (init_peer a c) p.table refl w,
        )
]

add_peers-open :
    (p : PeerRouting) (peers : List String)
    → p.active ≡ false
    → IsMap p.table
    → IsOwn p.table
    → let q = add_peers p peers in
      IsMap q.table × IsOwn q.table × ((a : String) → is_peer q a ≡ (is_peer p a || elem a peers))
unfolding add_peers
add_peers-open p [] o m w = (m, w, λ a. ground arith)
add_peers-open p (b ∷ peers) o m w =
    let q = (add_peer p b "").0 in
    let (o', m', w') = add_peer-open p b "" o m w in
    let (m'', w'', k) = add_peers-open q peers o' m' w' in
    (m'', w'', λ a. k a ∙ ground (arith, o, (is_peer-add_peer p b "" a).1, eq_iff a b, eq_iff b a))

-- The table that `Start` makes and locks.
pub add_peers-IsTable :
    (ip : String) (peers : List String)
    → IsTable peers (lock_routing_table_entries (add_peers (init_peer_routing ip) peers)).0
unfolding init_peer_routing lock_routing_table_entries is_peer lookup
add_peers-IsTable ip peers =
    let (m, w, k) = add_peers-open (init_peer_routing ip) peers refl tt tt in
    record { once = m; own = w; known = k }
