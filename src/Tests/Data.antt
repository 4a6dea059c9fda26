-- ===== src/Tests/Data.antt =====
-- A cluster of three nodes, and a platform whose decoders read a number from each byte.
use k8_p2p_failover_poc.Prelude.{
  ℕ, pos, String, true, false, none, some, List, [], ◌∷◌, nat_beq, if◌then◌else◌,
}
use k8_p2p_failover_poc.Kube.Resources.{KubeCmd, no_cmd, create_service}
use k8_p2p_failover_poc.Network.Packet.{Packet, DataType, append_entry}
use k8_p2p_failover_poc.Raft.Peer.{Peer, member, RaftStatus}
use k8_p2p_failover_poc.Raft.Routing.{PeerRouting}
use k8_p2p_failover_poc.Raft.Rpc.{
  Platform, RequestVote, AppendEntry, AppendEntryResponse, FetchMissingEntries,
}
use k8_p2p_failover_poc.Raft.State.{Raft, nil_channel, unbuffered}
use k8_p2p_failover_poc.Raft.Election.{VoteEvent}
use k8_p2p_failover_poc.Raft.Commit.{Env, Answer, no_answer}

abbrev pub service_cmd : KubeCmd
service_cmd = record no_cmd { msg_type = create_service }

abbrev pub byte : List ℕ → ℕ
byte [] = 0
byte (b ∷ bs) = b

abbrev tail : List ℕ → List ℕ
tail [] = []
tail (b ∷ bs) = bs

abbrev object_of : ℕ → KubeCmd
object_of n = if nat_beq n 0 then no_cmd else service_cmd

abbrev pub vote_of : List ℕ → RequestVote
vote_of b = record {
  term = pos (byte b);
  candidate_addr = "10.0.0.2";
  log_index = pos (byte (tail b));
  agreed = false;
}

abbrev pub entry_of : List ℕ → AppendEntry
entry_of b = record {
  term = pos (byte b);
  leader_addr = "10.0.0.2";
  log_index = pos (byte (tail b));
  new_object = object_of (byte (tail (tail b)));
  confirmed = false;
}

abbrev pub fetch_of : List ℕ → FetchMissingEntries
fetch_of b = record {
  term = pos (byte b);
  leader_addr = "10.0.0.2";
  log_index = pos (byte (tail b));
  new_object = object_of (byte (tail (tail b)));
}

abbrev reply_of : List ℕ → AppendEntryResponse
reply_of b = record {
  term = pos 0;
  leader_addr = "";
  log_index = pos 0;
  confirmed = nat_beq (byte b) 1;
}

abbrev pub no_packet : Packet
no_packet = record { caller = none; payload = []; packet_type = append_entry }

abbrev pub demo : Platform
demo = record {
  parse_ip = λ a. a;
  packets = record { encode = λ p. some p.payload; decode = λ b. (no_packet, none) };
  votes = record { encode = λ v. some []; decode = λ b. (vote_of b, none) };
  entries = record { encode = λ v. some []; decode = λ b. (entry_of b, none) };
  replies = record { encode = λ v. some []; decode = λ b. (reply_of b, none) };
  fetches = record { encode = λ v. some []; decode = λ b. (fetch_of b, none) };
}

abbrev pub peer_at : String → RaftStatus → Peer
peer_at a role = record {
  ttl = pos 0;
  host = "";
  active = true;
  addr = a;
  role = role;
  term = pos 0;
}

abbrev pub routing : RaftStatus → PeerRouting
routing role = record {
  self = peer_at "10.0.0.1" member;
  table = ("10.0.0.2", peer_at "10.0.0.2" role) ∷ ("10.0.0.3", peer_at "10.0.0.3" member) ∷ [];
  active = true;
}

-- A node of term 1 with one entry.
abbrev pub node : RaftStatus → Raft
node role = record {
  role = role;
  new_term = nil_channel;
  term = pos 1;
  peers = routing member;
  quorum = 1;
  supporting_candidate = "";
  new_leader_ch = unbuffered;
  commit_log = service_cmd ∷ [];
  raft_port = pos 9996;
}

abbrev pub env_with : List VoteEvent → List Answer → Env
env_with votes answers = record {
  now = pos 7;
  votes = votes;
  leader_answer = no_answer;
  fetch_answers = answers;
}

abbrev pub packet_from : String → List ℕ → DataType → Packet
packet_from a payload dt = record {
  caller = some (record { ip = a; port = pos 9996 });
  payload = payload;
  packet_type = dt;
}
