-- ===== src/Traffic/Report.antt =====
-- scripts/sim_traffic.go: the two tables that `main` does not print, the text of the summary, and what
-- `main` prints. How `time` writes a moment or a duration is an argument.
use k8_p2p_failover_poc.Prelude.{
  ℕ, zero, suc, ℤ, pos, ◌-ℤ◌, none, some, List, [], ◌∷◌, ◌++◌, if◌then◌else◌,
}
use k8_p2p_failover_poc.Traffic.{Text, text, is_empty, RequestStats, TestData}
use k8_p2p_failover_poc.Traffic.Listing.{decimal, milliseconds, bracketed, get_all_requests_compact}

-- One line, with its end.
abbrev line_of : Text → Text
line_of s = s ++ 10 ∷ []

module _ (show_time : ℤ → Text) where
  abbrev data_line : RequestStats → Text
  data_line r =
      b'('
      ∷ (decimal (pos r.request_id)
          ++ text "), cluster: "
          ++ bracketed r.cluster
          ++ text ", starttime: "
          ++ bracketed (show_time r.sent_time)
          ++ (if is_empty r.response
              then text ", recievedresp: FALSE, resptime: [NA], elapsedtime: [NA]"
              else text ", recievedresp: TRUE, resptime: "
                ++ bracketed (show_time r.resp_time)
                ++ text ", elapsedtime: "
                ++ bracketed (decimal (milliseconds r.elapsed_time) ++ text "(ms)")))

  unfoldable pub get_all_requests_data : List RequestStats → Text
  get_all_requests_data [] = []
  get_all_requests_data (r ∷ rs) = line_of (data_line r) ++ get_all_requests_data rs

abbrev slim_line : RequestStats → Text
slim_line r =
    b'('
    ∷ (decimal (pos r.request_id)
        ++ text ") cluster: "
        ++ bracketed r.cluster
        ++ (if is_empty r.response
            then text ", recievedresp: FALSE, elapsedtime: [NA]"
            else text ", recievedresp: TRUE, elapsedtime: "
              ++ bracketed (decimal (milliseconds r.elapsed_time) ++ text "(ms)")))

unfoldable pub get_all_requests_data_slim : List RequestStats → Text
get_all_requests_data_slim [] = []
get_all_requests_data_slim (r ∷ rs) = line_of (slim_line r) ++ get_all_requests_data_slim rs

-- The lines of `getSummary`.
abbrev pub sent_line : ℕ → Text
sent_line n = text "num_requests_sent: " ++ bracketed (decimal (pos n))

abbrev pub failed_line : ℕ → Text
failed_line n = text "num_requests_failed: " ++ bracketed (decimal (pos n))

module _ (show_duration : ℤ → Text) where
  abbrev pub elapsed_line : ℤ → Text
  elapsed_line d = text "elapsed_time: " ++ bracketed (show_duration d)

  -- The text of `getSummary`, which is empty beside its error.
  unfoldable pub summary_text : TestData → Text
  summary_text td = elim td.stop_time [
    | none ↦ []
    | some stop ↦
        elapsed_line (stop -ℤ td.start_time)
        ++ 10 ∷ (sent_line td.total_requests ++ 10 ∷ failed_line td.failed_requests)
  ]

  -- What `main` prints when the test is done: `Println` puts a blank between its two texts.
  unfoldable pub main_output : TestData → Text
  unfolding summary_text
  main_output td =
      (text "TEST RESULTS:" ++ 10 ∷ b' ' ∷ (summary_text td ++ 10 ∷ []))
      ++ (text "ALL DATA:" ++ 10 ∷ b' ' ∷ (get_all_requests_compact td.requests ++ 10 ∷ []))

-- What `startNSTest` prints before the test and behind each cycle, a line for each call of `Println`.
unfoldable pub finished_lines : ℕ → ℕ → ℕ → List Text
finished_lines n cycles zero = []
finished_lines n cycles (suc left) =
    (text "Finished cycle [" ++ decimal (pos (suc n)) ++ b'/' ∷ (decimal (pos cycles) ++ b']' ∷ []))
    ∷ finished_lines (suc n) cycles left

unfoldable pub test_lines : Text → Text → ℕ → ℕ → List Text
unfolding finished_lines
test_lines ip port cycles hz =
    (text "STARTING TEST FOR "
      ++ bracketed (text "http://" ++ ip ++ b':' ∷ port)
      ++ text " WITH NUM CYCLES: "
      ++ bracketed (decimal (pos cycles))
      ++ text " AND HZ "
      ++ bracketed (decimal (pos hz)))
    ∷ finished_lines 0 cycles cycles
