-- ===== src/Tests/Attempts.antt =====
-- proxy/proxy.go: an attempt that is given up before the cluster node answers.
use k8_p2p_failover_poc.Prelude.{◌≡◌, refl, [], ◌∷◌}
use k8_p2p_failover_poc.Proxy.Forward.Attempt.{
  Attempt, Step, starts, next, times_out, send_answer_closed, start_attempt, time_out, answering,
  panicked, failed, late_answer-panicked,
}

abbrev late : Attempt
late = time_out start_attempt

late_answer-panicked_example :
    let sent = record late { worker = answering (7 ∷ []) } in
    Step late sent
    × Step sent (send_answer_closed sent)
    × ((b : Attempt) → Step sent b → (b.worker ≡ panicked) × (b.caller ≡ failed))
unfolding start_attempt time_out
late_answer-panicked_example =
    late_answer-panicked (7 ∷ []) (next starts (times_out refl)) refl refl
