-- ===== src/Raft/System/Exchange.antt =====
-- raft/raft.go and network/: a fetch, from the bytes of its request to those of its reply.
use k8_p2p_failover_poc.Prelude.{
  ℕ, zero, suc, ◌≤◌, ◌≡◌, ℤ, pos, ◌≤ℤ◌, String, true, none, some, List, [], ◌∷◌, arith, append-nil,
  take-of_le, get_elem?,
}
use k8_p2p_failover_poc.Kube.Resources.{KubeCmd, no_cmd}
use k8_p2p_failover_poc.Network.Gob.{Transmits, encode_within}
use k8_p2p_failover_poc.Network.Packet.{
  TcpAddr, fetch_missing_entries, new_packet, packet_size, encode_packet, read_request,
  await_response, read_request-encode_packet,
}
use k8_p2p_failover_poc.Raft.Peer.{leader}
use k8_p2p_failover_poc.Raft.Routing.{is_peer, update_ttl}
use k8_p2p_failover_poc.Raft.Rpc.{
  Platform, FetchMissingEntries, max_rpc_size, encode_payload, decode_payload,
}
use k8_p2p_failover_poc.Raft.State.{
  Effect, reply, request, Raft, get_log_item, is_role, get_length_log, count_entries,
}
use k8_p2p_failover_poc.Raft.Commit.{Answer, no_answer, packet, Env}
use k8_p2p_failover_poc.Raft.Replies.{
  send_fetch_object_at_index, respond_fetch_missing_entries, send_encoded_reply,
}
use k8_p2p_failover_poc.Raft.Handler.{dispatch, handle_fetch, handle_rpc, with_peers}

module _ (w : Platform) where
  -- What the waiting caller gets of the effects of a handler.
  abbrev pub answer_of : List Effect → Answer
  answer_of (reply bytes ∷ effects) = elim (await_response w.packets bytes) [
    | none ↦ no_answer
    | some p ↦ packet p.payload
  ]
  answer_of _ = no_answer

  -- What a request of `caller` gets from the node `l`.
  abbrev pub served : Env → Raft → TcpAddr → Effect → Answer
  served env l caller (request target payload dt) =
      let sent = (encode_packet w.packets (new_packet caller payload dt)).0 in
      answer_of (handle_rpc w env l (read_request w.packets sent).0).effects
  served env l caller _ = no_answer

  -- What the fetches of `k` entries behind the `n`-th get.
  abbrev pub fetches_served : Env → Raft → TcpAddr → ℤ → String → ℕ → ℕ → List Answer
  fetches_served env l caller term ladr n zero = []
  fetches_served env l caller term ladr n (suc k) =
      served env l caller (send_fetch_object_at_index w term (pos (suc n)) ladr)
      ∷ fetches_served env l caller term ladr (suc n) k

  -- The encodings of a message and of its packet fit their buffers and are decoded.
  pub record Arrives (caller : TcpAddr) (m : FetchMissingEntries) : Type 0 where
    pub size : ℕ
    pub transmits : Transmits w.fetches m size
    pub fits : size ≤ max_rpc_size
    pub whole : ℕ
    pub packed :
        Transmits w.packets
          (new_packet caller (encode_payload w.fetches m).0 fetch_missing_entries)
          whole
    pub whole_fits : whole ≤ packet_size

  abbrev pub asked : ℤ → String → ℕ → FetchMissingEntries
  asked term ladr n = record {
    term = term;
    leader_addr = ladr;
    log_index = pos n;
    new_object = no_cmd;
  }

  abbrev pub given : ℕ → KubeCmd → FetchMissingEntries
  given n c = record { term = pos 0; leader_addr = ""; log_index = pos n; new_object = c }

  -- The requests and replies for the entries `cs` behind the `n`-th arrive.
  abbrev pub AllArrive : TcpAddr → TcpAddr → ℤ → String → ℕ → List KubeCmd → Type 0
  AllArrive caller back term ladr n [] = Unit
  AllArrive caller back term ladr n (c ∷ cs) =
      Arrives caller (asked term ladr (suc n))
      × Arrives back (given (suc n) c)
      × AllArrive caller back term ladr (suc n) cs

  pub Arrives-payload :
      (a : TcpAddr) (m : FetchMissingEntries)
      → Arrives a m
      → (decode_payload w.fetches (encode_payload w.fetches m).0).0 ≡ m
  unfolding decode_payload encode_payload encode_within
  Arrives-payload a m h = ground (
    arith,
    h.transmits.encoded,
    h.transmits.size,
    h.fits,
    take-of_le max_rpc_size h.transmits.bytes,
    append-nil h.transmits.bytes,
    h.transmits.decoded [],
  )

  Arrives-packet :
      (a : TcpAddr) (m : FetchMissingEntries)
      → Arrives a m
      → let p = new_packet a (encode_payload w.fetches m).0 fetch_missing_entries in
        read_request w.packets (encode_packet w.packets p).0 ≡ (p, none)
  Arrives-packet a m h = read_request-encode_packet w.packets a _ _ h.whole h.packed h.whole_fits

  fetch_reply :
      (l : Raft) (term : ℤ) (ladr : String) (n : ℕ) (c : KubeCmd)
      → l.role ≡ leader
      → term ≤ℤ l.term
      → suc n ≤ count_entries l.commit_log
      → get_elem? l.commit_log n ≡ some c
      → (handle_fetch w l (asked term ladr (suc n))).effects
        ≡ respond_fetch_missing_entries w l c (pos (suc n)) ladr ∷ []
  unfolding handle_fetch is_role get_log_item get_length_log
  fetch_reply l term ladr n c r t k e = ground (arith, e)

  rpc_reply :
      (env : Env) (l : Raft) (caller : TcpAddr) (term : ℤ) (ladr : String) (n : ℕ) (c : KubeCmd)
      → is_peer l.peers caller.ip ≡ true
      → l.role ≡ leader
      → term ≤ℤ l.term
      → suc n ≤ count_entries l.commit_log
      → get_elem? l.commit_log n ≡ some c
      → Arrives caller (asked term ladr (suc n))
      → (handle_rpc w env l (
          new_packet caller
            (encode_payload w.fetches (asked term ladr (suc n))).0
            fetch_missing_entries)).effects
        ≡ respond_fetch_missing_entries w l c (pos (suc n)) ladr ∷ []
  unfolding handle_rpc dispatch new_packet respond_fetch_missing_entries send_encoded_reply
  rpc_reply env l caller term ladr n c p r t k e a =
      let q = (update_ttl env.now l.peers caller.ip).0 in
      rw (p, Arrives-payload caller (asked term ladr (suc n)) a)
        (fetch_reply (with_peers l q) term ladr n c r t k e)

  answer_of-respond :
      (l : Raft) (ladr : String) (n : ℕ) (c : KubeCmd)
      → Arrives (record { ip = w.parse_ip ladr; port = l.raft_port }) (given n c)
      → answer_of (respond_fetch_missing_entries w l c (pos n) ladr ∷ [])
        ≡ packet (encode_payload w.fetches (given n c)).0
  unfolding respond_fetch_missing_entries send_encoded_reply await_response encode_packet new_packet
      encode_payload read_request
  answer_of-respond l ladr n c b = ground (arith, Arrives-packet _ (given n c) b)

  pub served-fetch :
      (env : Env) (l : Raft) (caller : TcpAddr) (term : ℤ) (ladr : String) (n : ℕ) (c : KubeCmd)
      → is_peer l.peers caller.ip ≡ true
      → l.role ≡ leader
      → term ≤ℤ l.term
      → suc n ≤ count_entries l.commit_log
      → get_elem? l.commit_log n ≡ some c
      → Arrives caller (asked term ladr (suc n))
      → Arrives (record { ip = w.parse_ip ladr; port = l.raft_port }) (given (suc n) c)
      → served env l caller (send_fetch_object_at_index w term (pos (suc n)) ladr)
        ≡ packet (encode_payload w.fetches (given (suc n) c)).0
  unfolding send_fetch_object_at_index respond_fetch_missing_entries send_encoded_reply
      await_response new_packet
  served-fetch env l caller term ladr n c p r t k e a b =
      rw
        (
          Arrives-packet caller (asked term ladr (suc n)) a,
          rpc_reply env l caller term ladr n c p r t k e a,
        )
        (answer_of-respond l ladr (suc n) c b)
