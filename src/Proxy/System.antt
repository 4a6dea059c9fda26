-- ===== src/Proxy/System.antt =====
-- proxy/proxy.go: the loop of `Start` and the goroutines that open ports, as they interleave.
pub mod Listeners
pub mod Stays
pub mod Opening
pub mod Lost
use k8_p2p_failover_poc.Prelude.{
  ℤ, pos, ◌+ℤ◌, String, Bool, ◌≡◌, List, [], ◌∷◌, ◌++◌, if◌then◌else◌,
}
use k8_p2p_failover_poc.Proxy.Ports.{
  Ports, port_eq, exist, listen_port, remove_ports, local_dev_port_proxy_shift,
}

-- Where the loop is: at its `select`, or in the first loop of `checkNewPorts`, with the ports that are
-- left of those it has got.
pub data Phase : Type 0 where
  selecting : Phase
  starting : List ℤ → List ℤ → Phase

pub record Proxy : Type 0 where
  pub ports : Ports
  pub active_cluster_nodes : List String
  pub phase : Phase
  -- the goroutines of `listenPort` that have not taken the lock yet
  pub opening : List ℤ

-- `InitProxy`
unfoldable pub init_proxy : Proxy
init_proxy = record {
  ports = record { active = []; bound = [] };
  active_cluster_nodes = [];
  phase = selecting;
  opening = [];
}

-- One round of the first loop.
unfoldable pub start_port : Proxy → ℤ → List ℤ → List ℤ → Proxy
start_port p port left prts = record p {
  phase = starting left prts;
  opening =
      if port_eq port (pos 0)
      then p.opening
      else if exist (port +ℤ local_dev_port_proxy_shift) p.ports.active
      then p.opening
      else (port +ℤ local_dev_port_proxy_shift) ∷ p.opening;
}

-- The second loop, which holds the lock.
unfoldable pub end_check : Proxy → List ℤ → Proxy
end_check p prts = record p { ports = remove_ports prts p.ports p.ports.active; phase = selecting }

unfoldable pub open_port : (ℤ → Bool) → Proxy → ℤ → List ℤ → Proxy
open_port can_listen p port others = record p {
  ports = listen_port can_listen p.ports port;
  opening = others;
}

-- `Announced` is what may arrive on the channel of ports.
pub data Step (Announced : List ℤ → Type 0) (p : Proxy) : Proxy → Type 0 where
  gets_ports :
      (prts : List ℤ)
      → p.phase ≡ selecting
      → Announced prts
      → Step Announced p (record p { phase = starting prts prts })
  gets_nodes :
      (nodes : List String)
      → p.phase ≡ selecting
      → Step Announced p (record p { active_cluster_nodes = nodes })
  starts :
      (port : ℤ) (left prts : List ℤ)
      → p.phase ≡ starting (port ∷ left) prts
      → Step Announced p (start_port p port left prts)
  ends : (prts : List ℤ) → p.phase ≡ starting [] prts → Step Announced p (end_check p prts)
  opens :
      (can_listen : ℤ → Bool) (before after : List ℤ) (port : ℤ)
      → p.opening ≡ before ++ port ∷ after
      → Step Announced p (open_port can_listen p port (before ++ after))

pub data Reach (Announced : List ℤ → Type 0) (p : Proxy) : Proxy → Type 0 where
  here : Reach Announced p p
  next : {q r : Proxy} → Reach Announced p q → Step Announced q r → Reach Announced p r
