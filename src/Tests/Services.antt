-- ===== src/Tests/Services.antt =====
-- kube/kube_client.go and proxy/proxy.go: a service that is created, announced and listened for.
use k8_p2p_failover_poc.Prelude.{ℤ, pos, ◌+ℤ◌, ◌-ℤ◌, ◌≡◌, refl, true, none, some, List, [], ◌∷◌}
use k8_p2p_failover_poc.Kube.Client.{ClusterService}
use k8_p2p_failover_poc.Kube.Client.Start.{
  new_object, announce_timer, cluster_unhealthy, Event, start_client,
}
use k8_p2p_failover_poc.Kube.Client.Start.Announces.{services_read, requests_of, start_client-read}
use k8_p2p_failover_poc.Proxy.Ports.{
  exist, port_eq, listen_port, remove_ports, visit_port, remove_port, delete,
}
use k8_p2p_failover_poc.Proxy.System.{
  Proxy, starting, init_proxy, start_port, end_check, open_port, Reach, here, next, gets_ports,
  starts, ends, opens,
}
use k8_p2p_failover_poc.Proxy.System.Stays.{Reach-bound}
use k8_p2p_failover_poc.Tests.Data.{service_cmd}

abbrev services : List ClusterService
services = record { service_type = "NodePort"; node_ports = pos 30010 ∷ [] } ∷ []

abbrev events : List Event
events =
    cluster_unhealthy
    ∷ new_object service_cmd (λ q. true) (some services)
    ∷ announce_timer none
    ∷ []

start_client-read_example :
    start_client (some []) events ≡ elim (services_read (announce_timer (some []) ∷ events)) [
      | none ↦ none
      | some lists ↦ some (requests_of events, lists)
    ]
start_client-read_example = start_client-read (some []) events

abbrev port_list : List ℤ
port_list = pos 0 ∷ pos 30010 ∷ []

abbrev started : Proxy
started =
    start_port
      (start_port (record init_proxy { phase = starting port_list port_list }) (pos 0)
        (pos 30010 ∷ []) port_list)
      (pos 30010) [] port_list

-- The list arrives, its zero is skipped, its port is started and opened, and the check ends.
abbrev listening : Proxy
listening = end_check (open_port (λ port. true) started (pos 30110) []) port_list

listens : (Announced : List ℤ → Type 0) → Announced port_list → Reach Announced init_proxy listening
unfolding init_proxy start_port open_port port_eq exist ◌+ℤ◌
listens Announced a =
    next
      (next
        (next
          (next (next here (gets_ports port_list refl a))
            (starts (pos 0) (pos 30010 ∷ []) port_list refl))
          (starts (pos 30010) [] port_list refl))
        (opens (λ port. true) [] [] (pos 30110) refl))
      (ends port_list refl)

is_open : exist (pos 30110) listening.ports.bound ≡ true
unfolding init_proxy start_port open_port end_check port_eq exist listen_port remove_ports
    visit_port remove_port delete ◌-ℤ◌
is_open = refl

abbrev Was : List ClusterService → Type 0
Was items = items ≡ services

-- The list arrives again.
abbrev later : Proxy
later = record listening { phase = starting port_list port_list }

Reach-bound_example : exist (pos 30110) later.ports.bound ≡ true
unfolding exist end_check port_eq ◌-ℤ◌
Reach-bound_example =
    Reach-bound listening later (pos 30110) (next here (gets_ports port_list refl refl)) refl
      is_open
