-- ===== src/Proxy/Ports/Laws.antt =====
-- proxy/proxy.go: which ports stay open, which are opened, and which are lost.
use k8_p2p_failover_poc.Prelude.{
  ◌≡◌, refl, ◌↔◌, ℤ, pos, ◌+ℤ◌, ◌-ℤ◌, +ℤ_parts, -ℤ_parts, eq_of_parts, eq_ℤ_iff, int_keys, true,
  false, not, ◌&&◌, List, [], ◌∷◌, arith, ap, sym, ◌∙◌,
}
use k8_p2p_failover_poc.Proxy.Ports.{
  Ports, port_eq, exist, delete, new_ports, remove_port, visit_port, remove_ports, check_new_ports,
  local_dev_port_proxy_shift,
}

pub port_eq_iff : (a b : ℤ) → (port_eq a b ≡ true) ↔ (a ≡ b)
unfolding port_eq
port_eq_iff a b = eq_ℤ_iff a b

abbrev pub shift : ℤ → ℤ
shift port = port +ℤ local_dev_port_proxy_shift

abbrev pub unshift : ℤ → ℤ
unshift port = port -ℤ local_dev_port_proxy_shift

pub unshift-shift : (a : ℤ) → unshift (shift a) ≡ a
unshift-shift a = eq_of_parts (unshift (shift a)) a (
    omega
      (arith, +ℤ_parts a local_dev_port_proxy_shift, -ℤ_parts (shift a) local_dev_port_proxy_shift))

shift-injective : (a b : ℤ) → shift a ≡ shift b → a ≡ b
shift-injective a b e = sym (unshift-shift a) ∙ ap unshift e ∙ unshift-shift b

pub exist-delete : (a k : ℤ) (l : List ℤ) → exist a (delete k l) ≡ (exist a l && not (port_eq k a))
unfolding exist delete
exist-delete a k [] = refl
exist-delete a k (c ∷ l) =
    ground (arith, port_eq_iff a c, port_eq_iff k c, port_eq_iff k a, exist-delete a k l)

-- The ports for which `checkNewPorts` starts a listener: exactly the announced ones that are not zero,
-- shifted by 100, whose shifted number is no key of the map.
pub exist-new_ports :
    (p : Ports) (prts : List ℤ) (port : ℤ)
    → exist (port +ℤ local_dev_port_proxy_shift) (new_ports p prts) ≡ (
        exist port prts
        && (not (port_eq port (pos 0))
            && not (exist (port +ℤ local_dev_port_proxy_shift) p.active)))
unfolding exist new_ports
exist-new_ports p [] port = refl
exist-new_ports p (q ∷ prts) port = ground (
  arith,
  port_eq_iff port q,
  port_eq_iff (shift port) (shift q),
  λ (e : shift port ≡ shift q). shift-injective port q e,
  exist-new_ports p prts port,
)

visit_port-announced :
    (prts : List ℤ) (p : Ports) (q k : ℤ)
    → exist (unshift k) prts ≡ true
    → exist k (visit_port prts p q).bound ≡ exist k p.bound
unfolding visit_port remove_port
visit_port-announced prts p q k h = ground (arith, exist-delete k q p.bound, port_eq_iff q k)

pub remove_ports-announced :
    (prts : List ℤ) (p : Ports) (ports : List ℤ) (k : ℤ)
    → exist (unshift k) prts ≡ true
    → exist k (remove_ports prts p ports).bound ≡ exist k p.bound
unfolding remove_ports
remove_ports-announced prts p [] k h = refl
remove_ports-announced prts p (q ∷ ports) k h =
    remove_ports-announced prts (visit_port prts p q) ports k h ∙ visit_port-announced prts p q k h

-- `checkNewPorts` does not close the listener of a port that is still announced.
check_new_ports-announced :
    (p : Ports) (prts : List ℤ) (k : ℤ)
    → exist (k -ℤ local_dev_port_proxy_shift) prts ≡ true
    → exist k (check_new_ports p prts).0.bound ≡ exist k p.bound
unfolding check_new_ports
check_new_ports-announced p prts k h = remove_ports-announced prts p p.active k h

-- A key that is to be closed, while the key lower by 100 is absent.
pub record Withdrawn (prts : List ℤ) (p : Ports) (k : ℤ) : Type 0 where
  pub present : exist k p.active ≡ true
  pub no_lower : exist (unshift k) p.active ≡ false
  pub gone : exist (unshift k) prts ≡ false

pub lower_key : (q k : ℤ) → shift q ≡ k → q ≡ unshift k
lower_key q k e = sym (unshift-shift q) ∙ ap unshift e

visit_port-Withdrawn :
    (prts : List ℤ) (p : Ports) (q k : ℤ)
    → Withdrawn prts p k
    → Withdrawn prts (visit_port prts p q) k
      × (exist k (visit_port prts p q).bound ≡ (exist k p.bound && not (port_eq k q)))
unfolding visit_port remove_port
visit_port-Withdrawn prts p q k d = ground (
  arith,
  exist-delete k q p.bound,
  exist-delete k (shift q) p.active,
  exist-delete (unshift k) (shift q) p.active,
  port_eq_iff q k,
  port_eq_iff k q,
  port_eq_iff (shift q) k,
  λ (e : shift q ≡ k). lower_key q k e,
)

pub remove_ports-Withdrawn :
    (prts : List ℤ) (p : Ports) (ports : List ℤ) (k : ℤ)
    → Withdrawn prts p k
    → Withdrawn prts (remove_ports prts p ports) k
      × (exist k (remove_ports prts p ports).bound ≡ (exist k p.bound && not (exist k ports)))
unfolding remove_ports exist
remove_ports-Withdrawn prts p [] k d = (d, ground arith)
remove_ports-Withdrawn prts p (q ∷ ports) k d =
    let v = visit_port-Withdrawn prts p q k d in
    let r = remove_ports-Withdrawn prts (visit_port prts p q) ports k v.0 in
    (r.0, ground (arith, v.1, r.1))
