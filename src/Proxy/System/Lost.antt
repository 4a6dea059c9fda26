-- ===== src/Proxy/System/Lost.antt =====
-- proxy/proxy.go: what becomes of a port whose service is gone for a while.
use k8_p2p_failover_poc.Prelude.{
  ℤ, ◌-ℤ◌, true, false, ◌≡◌, ◌≢◌, sym, ap, ◌∙◌, subst, List, [], ◌∷◌, ◌++◌, arith,
}
use k8_p2p_failover_poc.Proxy.Ports.{
  Ports, exist, listen_port, visit_port, remove_port, remove_ports, local_dev_port_proxy_shift,
}
use k8_p2p_failover_poc.Proxy.Ports.Laws.{
  port_eq_iff, exist-delete, unshift, shift, unshift-shift, lower_key, remove_ports-Withdrawn,
}
use k8_p2p_failover_poc.Proxy.System.{
  starting, Proxy, start_port, end_check, open_port, Step, gets_ports, gets_nodes, starts, ends,
  opens, Reach, here, next,
}
use k8_p2p_failover_poc.Proxy.System.Listeners.{Expected, Step-Expected, exist-append}

-- A list without the port that is lower than the key by 200.
abbrev Spares : ℤ → List ℤ → Type 0
Spares k prts = exist (unshift (unshift k)) prts ≡ false

-- The key stands in the map without a listener, and the key lower by 100 does not.
record IsStuck (p : Ports) (k : ℤ) : Type 0 where
  present : exist k p.active ≡ true
  no_lower : exist (unshift k) p.active ≡ false
  closed : exist k p.bound ≡ false

visit_port-IsStuck :
    (prts : List ℤ) (p : Ports) (q k : ℤ) → IsStuck p k → IsStuck (visit_port prts p q) k
unfolding visit_port remove_port
visit_port-IsStuck prts p q k d = ground (
  arith,
  exist-delete k q p.bound,
  exist-delete k (shift q) p.active,
  exist-delete (unshift k) (shift q) p.active,
  port_eq_iff k (shift q),
  port_eq_iff (shift q) k,
  λ (e : shift q ≡ k). lower_key q k e,
)

remove_ports-IsStuck :
    (prts : List ℤ) (p : Ports) (ports : List ℤ) (k : ℤ)
    → IsStuck p k
    → IsStuck (remove_ports prts p ports) k
unfolding remove_ports
remove_ports-IsStuck prts p [] k d = d
remove_ports-IsStuck prts p (q ∷ ports) k d =
    remove_ports-IsStuck prts (visit_port prts p q) ports k (visit_port-IsStuck prts p q k d)

-- Nothing is on the way that listens at the key, or at the one lower by 100.
record IsLost (k : ℤ) (p : Proxy) : Type 0 where
  ports : IsStuck p.ports k
  none_opens : exist k p.opening ≡ false
  none_lower : exist (unshift k) p.opening ≡ false

module _ (k : ℤ) where
  -- A port that is announced while the list spares the key does not shift to the lower key.
  spared :
      (port : ℤ) (left prts : List ℤ)
      → Spares k prts
      → ((m : ℤ) → exist m (port ∷ left) ≡ true → exist m prts ≡ true)
      → shift port ≢ unshift k
  unfolding exist
  spared port left prts h f e =
      let q : port ≡ unshift (unshift k) = sym (unshift-shift port) ∙ ap unshift e in
      ground (arith, h, f (unshift (unshift k)), q, port_eq_iff (unshift (unshift k)) port)

  start_port-IsLost :
      (p : Proxy) (port : ℤ) (left prts : List ℤ)
      → IsLost k p
      → Expected (Spares k) (starting (port ∷ left) prts)
      → IsLost k (start_port p port left prts)
  unfolding start_port exist
  start_port-IsLost p port left prts l x =
      let other = spared port left prts x.0 x.1 in
      record {
        ports = l.ports;
        none_opens = ground (arith, l.none_opens, l.ports.present, port_eq_iff k (shift port));
        none_lower = ground (arith, l.none_lower, other, port_eq_iff (unshift k) (shift port));
      }

  open_port-IsLost :
      (can_listen : ℤ → _) (p : Proxy) (port : ℤ) (before after : List ℤ)
      → p.opening ≡ before ++ port ∷ after
      → IsLost k p
      → IsLost k (open_port can_listen p port (before ++ after))
  unfolding open_port listen_port exist
  open_port-IsLost can_listen p port before after e l =
      let at = ap (exist k) e ∙ exist-append k before (port ∷ after) in
      let lower = ap (exist (unshift k)) e ∙ exist-append (unshift k) before (port ∷ after) in
      let stuck = l.ports in
      record {
        ports = record {
          present = ground (arith, stuck.present);
          no_lower =
              ground (arith, lower, l.none_lower, stuck.no_lower, port_eq_iff (unshift k) port);
          closed = ground (arith, at, l.none_opens, stuck.closed, port_eq_iff k port);
        };
        none_opens = ground (arith, at, l.none_opens, exist-append k before after);
        none_lower = ground (arith, lower, l.none_lower, exist-append (unshift k) before after);
      }

  Step-IsLost :
      (p q : Proxy) → Step (Spares k) p q → Expected (Spares k) p.phase → IsLost k p → IsLost k q
  unfolding end_check
  Step-IsLost p q (gets_ports prts e a) x l = record {
    ports = l.ports;
    none_opens = l.none_opens;
    none_lower = l.none_lower;
  }
  Step-IsLost p q (gets_nodes nodes e) x l = record {
    ports = l.ports;
    none_opens = l.none_opens;
    none_lower = l.none_lower;
  }
  Step-IsLost p q (starts port left prts e) x l =
      start_port-IsLost p port left prts l (subst (Expected (Spares k)) e x)
  Step-IsLost p q (ends prts e) x l = record {
    ports = remove_ports-IsStuck prts p.ports p.ports.active k l.ports;
    none_opens = l.none_opens;
    none_lower = l.none_lower;
  }
  Step-IsLost p q (opens can_listen before after port e) x l =
      open_port-IsLost can_listen p port before after e l

  Reach-IsLost :
      (p q : Proxy)
      → Reach (Spares k) p q
      → Expected (Spares k) p.phase
      → IsLost k p
      → Expected (Spares k) q.phase × IsLost k q
  Reach-IsLost p q here x l = (x, l)
  Reach-IsLost p q (next {q = m} r s) x l =
      let (y, n) = Reach-IsLost p m r x l in
      (Step-Expected (Spares k) m q s y, Step-IsLost m q s y n)

-- `checkNewPorts` ends on a list without the port of a key of the map, while neither the map nor a
-- goroutine that is still to listen has the key lower by 100, and none is still to listen at the key. Then
-- the key's listener is closed, but the key stays in the map, and however the goroutines interleave,
-- nothing listens at the key again, nor is a goroutine started for it, even when the port is announced
-- again, as long as no list announces the port that is lower than the key by 200.
pub end_check_lost :
    (p q : Proxy) (prts : List ℤ) (k : ℤ)
    → exist k p.ports.active ≡ true
    → exist (k -ℤ local_dev_port_proxy_shift) p.ports.active ≡ false
    → exist (k -ℤ local_dev_port_proxy_shift) prts ≡ false
    → exist k p.opening ≡ false
    → exist (k -ℤ local_dev_port_proxy_shift) p.opening ≡ false
    → Reach
        (λ l. exist (k -ℤ local_dev_port_proxy_shift -ℤ local_dev_port_proxy_shift) l ≡ false)
        (end_check p prts)
        q
    → (exist k q.ports.bound ≡ false)
      × (exist k q.ports.active ≡ true)
      × (exist k q.opening ≡ false)
unfolding end_check
end_check_lost p q prts k a l g o m r =
    let (kept, bound) =
      remove_ports-Withdrawn prts p.ports p.ports.active k
        (record { present = a; no_lower = l; gone = g }) in
    let start : IsLost k (end_check p prts) = record {
      ports = record {
        present = kept.present;
        no_lower = kept.no_lower;
        closed = ground (arith, bound);
      };
      none_opens = o;
      none_lower = m;
    } in
    let (_, lost) = Reach-IsLost k (end_check p prts) q r tt start in
    (lost.ports.closed, lost.ports.present, lost.none_opens)
