-- ===== src/Tests/Clusters.antt =====
-- kube/, network/ and proxy/: the local cluster, packets and ports.
use k8_p2p_failover_poc.Prelude.{
  ℕ, ◌≡◌, refl, pos, ◌-ℤ◌, true, false, Option, none, some, List, [], ◌∷◌, String, text_keys, arith,
}
use k8_p2p_failover_poc.Network.Gob.{Gob}
use k8_p2p_failover_poc.Proxy.Ports.{Ports, port_eq, exist}
use k8_p2p_failover_poc.Proxy.System.{
  Proxy, starting, end_check, start_port, gets_ports, starts, here, next,
}
use k8_p2p_failover_poc.Proxy.System.Lost.{end_check_lost}
use k8_p2p_failover_poc.Proxy.Forward.{ProxyPacket, serve_proxy, serve_client}
use k8_p2p_failover_poc.Proxy.Forward.Failover.{Carries, answer_of, serve_client-failover}

abbrev two_ports : Ports
two_ports = record { active = pos 30110 ∷ pos 30500 ∷ []; bound = pos 30110 ∷ pos 30500 ∷ [] }

abbrev withdrawing : Proxy
withdrawing = record {
  ports = two_ports;
  active_cluster_nodes = [];
  phase = starting [] (pos 30010 ∷ []);
  opening = [];
}

-- The port comes back.
abbrev again : Proxy
again = record (end_check withdrawing (pos 30010 ∷ [])) {
  phase = starting (pos 30400 ∷ []) (pos 30400 ∷ []);
}

abbrev back : Proxy
back = start_port again (pos 30400) [] (pos 30400 ∷ [])

end_check_lost_example :
    (exist (pos 30500) back.ports.bound ≡ false)
    × (exist (pos 30500) back.ports.active ≡ true)
    × (exist (pos 30500) back.opening ≡ false)
unfolding exist port_eq ◌-ℤ◌ end_check
end_check_lost_example =
    end_check_lost withdrawing back (pos 30010 ∷ []) (pos 30500) refl refl refl refl refl (
      next (next here (gets_ports (pos 30400 ∷ []) refl refl))
        (starts (pos 30400) [] (pos 30400 ∷ []) refl))

-- A gob for packets at port 30110 that are told apart by their first byte.
abbrev asked_packet : ProxyPacket
asked_packet = record { failed = false; port = pos 30110; payload = 7 ∷ [] }

abbrev answered_packet : ProxyPacket
answered_packet = record { failed = false; port = pos 30110; payload = 9 ∷ [] }

abbrev decode_demo : List ℕ → ProxyPacket × Option String
decode_demo [] = (asked_packet, some "EOF")
decode_demo (b ∷ bs) = (record asked_packet { payload = b ∷ [] }, none)

abbrev proxy_gob : Gob ProxyPacket
proxy_gob = record { encode = λ p. some p.payload; decode = decode_demo }

carries : (b : ℕ) → Carries proxy_gob (record asked_packet { payload = b ∷ [] })
carries b = record {
  size = 1;
  transmits = record { bytes = b ∷ []; encoded = refl; size = refl; decoded = λ rest. refl };
  fits = omega arith;
}

-- The local cluster is down, and the peer's answers 9.
serve_client-failover_example :
    serve_client proxy_gob
      (λ r p. none)
      (λ peer bytes. serve_proxy proxy_gob (λ r p. some (9 ∷ [])) bytes)
      []
      "10.0.0.2"
      (7 ∷ [])
      (pos 30110)
    ≡ answer_of none (some (9 ∷ [])) []
serve_client-failover_example =
    serve_client-failover proxy_gob (λ r p. none) (λ r p. some (9 ∷ []))
      (λ peer bytes. serve_proxy proxy_gob (λ r p. some (9 ∷ [])) bytes) [] (7 ∷ []) "10.0.0.2"
      (pos 30110) (carries 7) (carries 9) (λ bytes. refl)
