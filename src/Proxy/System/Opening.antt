-- ===== src/Proxy/System/Opening.antt =====
-- proxy/proxy.go: from a list of ports to the listener of one of them.
use k8_p2p_failover_poc.Prelude.{
  ℤ, pos, Bool, true, false, ◌≡◌, refl, sym, ap, ◌∙◌, subst, List, [], ◌∷◌, ◌++◌, arith, Bool-cases,
  inl, inr,
}
use k8_p2p_failover_poc.Proxy.Ports.{Ports, port_eq, exist, listen_port, remove_ports}
use k8_p2p_failover_poc.Proxy.Ports.Laws.{
  port_eq_iff, shift, unshift, unshift-shift, remove_ports-announced,
}
use k8_p2p_failover_poc.Proxy.System.{
  selecting, starting, Proxy, start_port, end_check, open_port, starts, ends, opens, Reach, next,
}

exist-split :
    (k : ℤ) (l : List ℤ) → exist k l ≡ true → (before after : List ℤ) × (l ≡ before ++ k ∷ after)
unfolding exist
exist-split k [] e = absurd (ground (arith, e))
exist-split k (c ∷ l) e = elim (Bool-cases (port_eq k c)) [
  | inl b ↦ ([], l, ap (λ x. x ∷ l) (sym ((port_eq_iff k c).0 b)))
  | inr b ↦
      let (before, after, f) = exist-split k l (ground (arith, e, b)) in
      (c ∷ before, after, ap (λ x. c ∷ x) f)
]

module _ (Announced : List ℤ → Type 0) (port : ℤ) (used : port_eq port (pos 0) ≡ false) where
  start_port-opening :
      (p : Proxy) (q : ℤ) (left prts : List ℤ)
      → exist (shift port) p.ports.active ≡ false
      → (exist (shift port) p.opening ≡ true
          → exist (shift port) (start_port p q left prts).opening ≡ true)
        × (port ≡ q → exist (shift port) (start_port p q left prts).opening ≡ true)
  unfolding start_port exist
  start_port-opening p q left prts h = (
    λ e. ground (arith, e),
    λ e.
        subst (λ x. exist (shift port) (start_port p x left prts).opening ≡ true) e
          (ground (arith, used, h, port_eq_iff (shift port) (shift port))),
  )

  -- The first loop of `checkNewPorts`, to its end.
  starts-all :
      (s p : Proxy) (left prts : List ℤ)
      → Reach Announced s p
      → p.phase ≡ starting left prts
      → exist (shift port) p.ports.active ≡ false
      → (o : List ℤ) × Reach Announced s (record p { phase = starting [] prts; opening = o })
        × (exist (shift port) p.opening ≡ true → exist (shift port) o ≡ true)
        × (exist port left ≡ true → exist (shift port) o ≡ true)
  unfolding exist start_port
  starts-all s p [] prts r e h = (
    p.opening,
    subst (λ x. Reach Announced s (record p { phase = x })) e r,
    λ f. f,
    λ f. absurd (ground (arith, f)),
  )
  starts-all s p (q ∷ left) prts r e h =
      let (o, reached, keeps, finds) =
        starts-all s (start_port p q left prts) left prts (next r (starts q left prts e)) refl h in
      let (old, new) = start_port-opening p q left prts h in
      (
        o,
        reached,
        λ f. keeps (old f),
        λ f. elim (Bool-cases (port_eq port q)) [
          | inl b ↦ keeps (new ((port_eq_iff port q).0 b))
          | inr b ↦ finds (ground (arith, f, b))
        ],
      )

  listen_port-exist :
      (can_listen : ℤ → Bool) (p : Ports) (k : ℤ)
      → can_listen k ≡ true
      → exist k (listen_port can_listen p k).bound ≡ true
  unfolding listen_port exist
  listen_port-exist can_listen p k h = ground (arith, h, port_eq_iff k k)

  -- A list with a port that is not zero, whose shifted number is no key of the map and can be listened
  -- on, leads to a listener at that number, and the loop waits again.
  pub starts-bound :
      (p : Proxy) (prts : List ℤ) (can_listen : ℤ → Bool)
      → p.phase ≡ starting prts prts
      → exist port prts ≡ true
      → exist (shift port) p.ports.active ≡ false
      → can_listen (shift port) ≡ true
      → (q : Proxy) × Reach Announced p q
        × (q.phase ≡ selecting)
        × (exist (shift port) q.ports.bound ≡ true)
  unfolding open_port end_check
  starts-bound p prts can_listen e h free can =
      let k = shift port in
      let (o, started, keeps, finds) = starts-all p p prts prts Reach.here e free in
      let (before, after, split) = exist-split k o (finds h) in
      let opened = next started (opens can_listen before after k split) in
      let bound = listen_port-exist can_listen p.ports k can in
      let announced : exist (unshift k) prts ≡ true =
        ap (λ x. exist x prts) (unshift-shift port) ∙ h in
      let ports = listen_port can_listen p.ports k in
      (
        record p {
          ports = remove_ports prts ports ports.active;
          phase = selecting;
          opening = before ++ after;
        },
        next opened (ends prts refl),
        refl,
        remove_ports-announced prts ports ports.active k announced ∙ bound,
      )
