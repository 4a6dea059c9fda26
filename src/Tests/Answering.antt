-- ===== src/Tests/Answering.antt =====
-- network/network.go: the handler of a vote request is slower than two seconds.
use k8_p2p_failover_poc.Prelude.{◌≡◌, refl, [], ◌∷◌, List}
use k8_p2p_failover_poc.Kube.Resources.{is_no_cmd}
use k8_p2p_failover_poc.Raft.Peer.{candidate}
use k8_p2p_failover_poc.Raft.State.{Effect, get_length_log, count_entries, change_role, update_term}
use k8_p2p_failover_poc.Raft.Replies.{send_reply_leader_vote}
use k8_p2p_failover_poc.Raft.Handler.{handle_request_vote}
use k8_p2p_failover_poc.Raft.Handler.Answering.{Exchange, fresh, gave_up, answers_of}
use k8_p2p_failover_poc.Tests.Data.{demo, node, vote_of}

abbrev vote_effects : List Effect
vote_effects = (handle_request_vote demo (node candidate) (vote_of (2 ∷ 1 ∷ []))).effects

-- The answer waits behind the timeout.
abbrev too_late : Exchange
too_late = record (fresh vote_effects) { socket = gave_up }

-- It is one.
one_waits :
    answers_of vote_effects
    ≡ answers_of (
        send_reply_leader_vote demo
          (handle_request_vote demo (node candidate) (vote_of (2 ∷ 1 ∷ []))).raft
        ∷ [])
unfolding handle_request_vote get_length_log count_entries change_role update_term is_no_cmd
one_waits = refl
