-- ===== src/Network/Connection/Answers.antt =====
-- network/network.go: what a request comes to over a connection between two nodes.
use k8_p2p_failover_poc.Prelude.{
  ℕ, ◌≡◌, ◌≢◌, ◌↔◌, ◌≤◌, refl, true, false, none, some, String, List, [], ◌∷◌, arith, All,
}
use k8_p2p_failover_poc.Network.Gob.{Gob, Transmits}
use k8_p2p_failover_poc.Network.Packet.{
  TcpAddr, Packet, DataType, new_packet, packet_size, encode_packet, read_request, await_response,
  read_request-encode_packet,
}
use k8_p2p_failover_poc.Network.Connection.{
  Settled, late, sent, closed, connected, dial_error, Accepted, connection, accept_failed,
  handle_request, accept_all, listen, send_request_await_response,
}

module _ (g : Gob Packet) where
  -- What the client reads of what the server has written; a connection that is closed gives nothing.
  abbrev pub answer : (Packet → Settled) → List ℕ → List ℕ
  answer node arrived = elim (handle_request g node arrived).1 [ none ↦ [] | some resp ↦ resp ]

  await_response-read :
      (bytes : List ℕ) (p : Packet)
      → read_request g bytes ≡ (p, none)
      → await_response g bytes ≡ some p
  unfolding await_response
  await_response-read bytes p e = ground (arith, e)

  await_response-error :
      (bytes : List ℕ) (e : String)
      → (read_request g bytes).1 ≡ some e
      → await_response g bytes ≡ none
  unfolding await_response
  await_response-error bytes e f = rw (await_response, f) refl

  -- A request that gets through is handed to the other node as it was made. If the node answers within
  -- two seconds, the packet comes back as it was made; if it is late, or closes the channel, no packet
  -- comes back, and the request has no error. The packets have at most 2048 bytes, and reading nothing
  -- is an error.
  pub send_request_await_response-answer :
      (node : Packet → Settled) (addr back : TcpAddr) (payload reply : List ℕ) (dt rt : DataType)
      (n m : ℕ) (e : String)
      → Transmits g (new_packet addr payload dt) n
      → n ≤ packet_size
      → Transmits g (new_packet back reply rt) m
      → m ≤ packet_size
      → (read_request g []).1 ≡ some e
      → let p = new_packet addr payload dt in
        let q = new_packet back reply rt in
        let result = send_request_await_response g addr connected (answer node) payload dt in
        ((handle_request g node (encode_packet g p).0).0 ≡ p)
        × (node p ≡ sent (encode_packet g q).0 → result ≡ (none, some q))
        × (node p ≡ late → result ≡ (none, none))
        × (node p ≡ closed → result ≡ (none, none))
  unfolding send_request_await_response handle_request dial_error
  send_request_await_response-answer node addr back payload reply dt rt n m e t h u k f =
      let there = read_request-encode_packet g addr payload dt n t h in
      let home =
        await_response-read (encode_packet g (new_packet back reply rt)).0
          (new_packet back reply rt) (read_request-encode_packet g back reply rt m u k) in
      let nothing = await_response-error [] e f in
      (
        ground (arith, there),
        λ a. rw (there, a, home) refl,
        λ a. rw (there, a, nothing) refl,
        λ a. rw (there, a, nothing) refl,
      )

  -- A call of `Accept` that gives a connection.
  abbrev IsConnection : Accepted → Type 0
  IsConnection (connection arrived) = Unit
  IsConnection accept_failed = ⊥

  -- The server panics exactly when it cannot bind its address or a call of `Accept` fails; otherwise
  -- each connection is handled.
  listen-total :
      (accepted : List Accepted)
      → (listen g false accepted ≡ none)
        × ((listen g true accepted ≢ none) ↔ All IsConnection accepted)
  unfolding listen accept_all
  listen-total accepted = (refl, by_list accepted)
    where
      by_list :
          (accepted : List Accepted) → (accept_all g accepted ≢ none) ↔ All IsConnection accepted
      by_list [] = ground arith
      by_list (accept_failed ∷ more) = ground arith
      by_list (connection arrived ∷ more) = ground (arith, by_list more)
