-- ===== src/Proxy/Forward.antt =====
-- proxy/proxy.go and proxy/packet.go: how a request that arrives at a port is answered. The random
-- numbers, and what comes back over a connection, are arguments.
pub mod Failover
pub mod Shuffle
pub mod Attempt
pub mod Accept
use k8_p2p_failover_poc.Prelude.{
  ℕ, zero, suc, ◌+◌, ◌-◌, ℤ, ◌-ℤ◌, String, Bool, true, false, ◌||◌, Option, none, some, List, [],
  ◌∷◌, ◌++◌, ◌==◌, text_keys, if◌then◌else◌, length, get_elem?, set, take, replicate,
}
use k8_p2p_failover_poc.Network.Gob.{Gob, encode_within}
use k8_p2p_failover_poc.Proxy.Ports.{local_dev_port_proxy_shift}

pub record ProxyPacket : Type 0 where
  pub failed : Bool
  pub port : ℤ
  pub payload : List ℕ

abbrev pub proxy_max_packet_size : ℕ
proxy_max_packet_size = 1024

-- `l[n], l[i] = l[i], l[n]`
unfoldable pub swap {ℓ} : {A : Type ℓ} → List A → ℕ → ℕ → List A
swap l n i = elim (get_elem? l n) [
  | none ↦ l
  | some a ↦ elim (get_elem? l i) [ none ↦ l | some b ↦ set (set l n b) i a ]
]

-- The loop `for n := range l`, from `n` on, with the numbers that `rand.Intn(n+1)` returns.
unfoldable pub shuffle {ℓ} : {A : Type ℓ} → ℕ → List ℕ → List A → List A
unfolding swap
shuffle n [] l = l
shuffle n (i ∷ picks) l = shuffle (suc n) picks (swap l n i)

-- The first address that is not empty.
unfoldable pub first_address : List String → Option String
first_address [] = none
first_address (a ∷ l) = if a == "" then first_address l else some a

-- `getRandomPeerAddr`
unfoldable pub get_random_peer_addr : List ℕ → List String → String
unfolding shuffle first_address
get_random_peer_addr picks peer_nodes = elim (first_address (shuffle 0 picks peer_nodes)) [
  | none ↦ ""
  | some a ↦ a
]

-- `forwardToCluster`: the connection to a node gives an answer or fails, also by taking two seconds.
-- Each case of the `select` returns, so the first node with an address decides.
unfoldable pub forward_to_cluster :
    (String → ℤ → List ℕ → Option (List ℕ)) → List ℕ → List String → List ℕ → ℤ → Option (List ℕ)
unfolding shuffle first_address
forward_to_cluster connect picks active_nodes request kube_port =
    elim (first_address (shuffle 0 picks active_nodes)) [
      | none ↦ none
      | some node ↦ connect node (kube_port -ℤ local_dev_port_proxy_shift) request
    ]

module _ (g : Gob ProxyPacket) where
  -- `encode` (its buffer has 2048 bytes)
  unfoldable pub encode_proxy_packet : ProxyPacket → List ℕ
  encode_proxy_packet pp = (encode_within g 2048 pp).0

  -- `ReadProxyPacket`: one read into a buffer of 1024 bytes.
  unfoldable pub read_proxy_packet : List ℕ → ProxyPacket × Option String
  read_proxy_packet sent =
      let arrived = take proxy_max_packet_size sent in
      g.decode (arrived ++ replicate (proxy_max_packet_size - length arrived) 0)

  -- The goroutine of `listenProxies`: the bytes written back, if the packet can be read.
  unfoldable pub serve_proxy : (List ℕ → ℤ → Option (List ℕ)) → List ℕ → Option (List ℕ)
  serve_proxy forward sent =
      let (pp, err) = read_proxy_packet sent in
      elim err [
        | some e ↦ none
        | none ↦ elim (forward pp.payload pp.port) [
          | none ↦
              some (encode_proxy_packet (record { failed = true; port = pp.port; payload = [] }))
          | some resp ↦
              some (encode_proxy_packet (record { failed = false; port = pp.port; payload = resp }))
        ]
      ]

  -- `proxyRequest`; `exchange` writes bytes to a peer's proxy and gives those that come back.
  unfoldable pub proxy_request :
      (String → List ℕ → Option (List ℕ)) → String → List ℕ → ℤ → Option (List ℕ)
  proxy_request exchange peer request cluster_port =
      elim (exchange peer
        (encode_proxy_packet (record { failed = false; port = cluster_port; payload = request }))) [
          | none ↦ none
          | some bytes ↦
              (let (pp, err) = read_proxy_packet bytes in
                elim err [ some e ↦ none | none ↦ if pp.failed then none else some pp.payload ])
        ]

  -- The goroutine of `listenPort`: what is written back to the client.
  unfoldable pub serve_client :
      (List ℕ → ℤ → Option (List ℕ))
      → (String → List ℕ → Option (List ℕ))
      → List ℕ
      → String
      → List ℕ
      → ℤ
      → List ℕ
  serve_client forward exchange failure peer request cluster_port =
      elim (forward request cluster_port) [
        | some resp ↦ resp
        | none ↦ elim (proxy_request exchange peer request cluster_port) [
          | none ↦ failure
          | some resp ↦ resp
        ]
      ]
