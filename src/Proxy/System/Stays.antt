-- ===== src/Proxy/System/Stays.antt =====
-- proxy/proxy.go: what becomes of a port that every list announces.
use k8_p2p_failover_poc.Prelude.{ℤ, ◌-ℤ◌, true, ◌≡◌, sym, ◌∙◌, subst, List, [], arith}
use k8_p2p_failover_poc.Proxy.Ports.{exist, listen_port, local_dev_port_proxy_shift}
use k8_p2p_failover_poc.Proxy.Ports.Laws.{remove_ports-announced}
use k8_p2p_failover_poc.Proxy.System.{
  selecting, starting, Proxy, start_port, end_check, open_port, Step, gets_ports, gets_nodes,
  starts, ends, opens, Reach, here, next,
}
use k8_p2p_failover_poc.Proxy.System.Listeners.{Expected, Step-Expected}

abbrev Announces : ℤ → List ℤ → Type 0
Announces k prts = exist (k -ℤ local_dev_port_proxy_shift) prts ≡ true

Step-bound :
    (p q : Proxy) (k : ℤ)
    → Step (Announces k) p q
    → Expected (Announces k) p.phase
    → exist k p.ports.bound ≡ true
    → exist k q.ports.bound ≡ true
unfolding end_check open_port start_port listen_port exist
Step-bound p q k (ends prts e) x f =
    let y : Expected (Announces k) (starting [] prts) = subst (Expected (Announces k)) e x in
    remove_ports-announced prts p.ports p.ports.active k y.0 ∙ f
Step-bound p q k (opens can_listen before after port e) x f = ground (arith, f)
Step-bound p q k (gets_ports prts e a) x f = f
Step-bound p q k (gets_nodes nodes e) x f = f
Step-bound p q k (starts port left prts e) x f = f

Reach-kept :
    (p : Proxy) (k : ℤ) (q : Proxy)
    → Reach (Announces k) p q
    → p.phase ≡ selecting
    → exist k p.ports.bound ≡ true
    → Expected (Announces k) q.phase × (exist k q.ports.bound ≡ true)
Reach-kept p k q here e f = (subst (Expected (Announces k)) (sym e) tt, f)
Reach-kept p k q (next {q = m} r s) e f =
    let (x, g) = Reach-kept p k m r e f in
    (Step-Expected (Announces k) m q s x, Step-bound m q k s x g)

-- A port on which the proxy listens while its loop waits stays open however its goroutines interleave, as
-- long as every list that arrives announces it.
pub Reach-bound :
    (p q : Proxy) (k : ℤ)
    → Reach (λ prts. exist (k -ℤ local_dev_port_proxy_shift) prts ≡ true) p q
    → p.phase ≡ selecting
    → exist k p.ports.bound ≡ true
    → exist k q.ports.bound ≡ true
Reach-bound p q k r e f = (Reach-kept p k q r e f).1
