-- ===== src/Proxy/Ports.antt =====
-- proxy/proxy.go: `checkNewPorts` and the part of `listenPort` that opens a port.
-- The map `activeClusterPorts` is the list of its keys; the listener of a key is the one at that port.
pub mod Laws
pub mod Announced
use k8_p2p_failover_poc.Prelude.{
  ℤ, pos, ◌+ℤ◌, ◌-ℤ◌, eq_ℤ, Bool, true, false, not, ◌&&◌, ◌||◌, List, [], ◌∷◌, if◌then◌else◌,
}

abbrev pub local_dev_port_proxy_shift : ℤ
local_dev_port_proxy_shift = pos 100

-- `==` on ports.
unfoldable pub port_eq : ℤ → ℤ → Bool
port_eq a b = eq_ℤ a b

pub record Ports : Type 0 where
  -- the keys of `activeClusterPorts`
  pub active : List ℤ
  -- the ports at which a listener of the process is open
  pub bound : List ℤ

-- `exist`
unfoldable pub exist : ℤ → List ℤ → Bool
exist a [] = false
exist a (c ∷ b) = if port_eq a c then true else exist a b

unfoldable pub delete : ℤ → List ℤ → List ℤ
delete a [] = []
delete a (c ∷ b) = if port_eq a c then delete a b else c ∷ delete a b

-- `listenPort`, up to its loop. Listening fails at a bound port, and may fail otherwise.
unfoldable pub listen_port : (ℤ → Bool) → Ports → ℤ → Ports
listen_port can_listen p port =
    if can_listen port && not (exist port p.bound)
    then record {
      active = if exist port p.active then p.active else port ∷ p.active;
      bound = port ∷ p.bound;
    }
    else p

-- The first loop of `checkNewPorts`: the ports for which it starts `listenPort`.
unfoldable pub new_ports : Ports → List ℤ → List ℤ
new_ports p [] = []
new_ports p (port ∷ prts) =
    let rest = new_ports p prts in
    if port_eq port (pos 0)
    then rest
    else if exist (port +ℤ local_dev_port_proxy_shift) p.active
    then rest
    else (port +ℤ local_dev_port_proxy_shift) ∷ rest

-- The body of the second loop: the listener at `port` is closed, the key `port + 100` deleted.
unfoldable pub remove_port : Ports → ℤ → Ports
remove_port p port = record {
  active = delete (port +ℤ local_dev_port_proxy_shift) p.active;
  bound = delete port p.bound;
}

-- One round of the second loop, at a key that is visited unless it has been deleted.
unfoldable pub visit_port : List ℤ → Ports → ℤ → Ports
visit_port prts p port =
    if exist port p.active && not (exist (port -ℤ local_dev_port_proxy_shift) prts)
    then remove_port p port
    else p

-- The second loop, over the keys that are left to visit.
unfoldable pub remove_ports : List ℤ → Ports → List ℤ → Ports
remove_ports prts p [] = p
remove_ports prts p (port ∷ ports) = remove_ports prts (visit_port prts p port) ports

-- `checkNewPorts`: the state after it, and the ports that its goroutines will listen on.
unfoldable pub check_new_ports : Ports → List ℤ → Ports × List ℤ
check_new_ports p prts = (remove_ports prts p p.active, new_ports p prts)
