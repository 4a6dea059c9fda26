-- ===== src/Proxy/Forward/Failover.antt =====
-- proxy/proxy.go: a request that the local cluster cannot answer is answered by the peer's cluster.
use k8_p2p_failover_poc.Prelude.{
  ℕ, ◌-◌, ◌≡◌, ◌≤◌, ℤ, String, true, false, Option, none, some, List, [], take, length, replicate,
  arith,
}
use k8_p2p_failover_poc.Network.Gob.{Gob, Transmits, encode_within, decode-encode_within}
use k8_p2p_failover_poc.Proxy.Forward.{
  ProxyPacket, proxy_max_packet_size, encode_proxy_packet, read_proxy_packet, serve_proxy,
  proxy_request, serve_client,
}

-- What the clusters answer, in turn: the local one, then the peer's.
abbrev pub answer_of : Option (List ℕ) → Option (List ℕ) → List ℕ → List ℕ
answer_of (some r) peer failure = r
answer_of none (some r) failure = r
answer_of none none failure = failure

abbrev pub answer_packet : ℤ → Option (List ℕ) → ProxyPacket
answer_packet port none = record { failed = true; port = port; payload = [] }
answer_packet port (some r) = record { failed = false; port = port; payload = r }

module _ (g : Gob ProxyPacket) where
  -- The packet's encoding fits the buffer of a reader, and is decoded.
  pub record Carries (pp : ProxyPacket) : Type 0 where
    pub size : ℕ
    pub transmits : Transmits g pp size
    pub fits : size ≤ proxy_max_packet_size

  read_proxy_packet-encode :
      (pp : ProxyPacket) → Carries pp → read_proxy_packet g (encode_proxy_packet g pp) ≡ (pp, none)
  unfolding read_proxy_packet encode_proxy_packet
  read_proxy_packet-encode pp c =
      decode-encode_within g 2048 proxy_max_packet_size c.size pp c.transmits
        (replicate
          (proxy_max_packet_size - length (take proxy_max_packet_size (encode_within g 2048 pp).0))
          0)
        (omega (arith, c.fits)) c.fits

  -- A client of a port gets the answer of the local cluster; if that fails, the answer of the cluster
  -- behind the peer's proxy to the same request at the same port; if both fail, the failure text. The
  -- packets in between must fit the 1024 bytes that a proxy reads, and the peer be reached.
  pub serve_client-failover :
      (here there : List ℕ → ℤ → Option (List ℕ)) (exchange : String → List ℕ → Option (List ℕ))
      (failure request : List ℕ) (peer : String) (port : ℤ)
      → Carries (record { failed = false; port = port; payload = request })
      → Carries (answer_packet port (there request port))
      → ((bytes : List ℕ) → exchange peer bytes ≡ serve_proxy g there bytes)
      → serve_client g here exchange failure peer request port
        ≡ answer_of (here request port) (there request port) failure
  unfolding serve_client proxy_request serve_proxy
  serve_client-failover here there exchange failure request peer port c d reach =
      let asked : ProxyPacket = record { failed = false; port = port; payload = request } in
      ground (
        arith,
        reach (encode_proxy_packet g asked),
        read_proxy_packet-encode asked c,
        read_proxy_packet-encode (answer_packet port (there request port)) d,
      )
