-- ===== src/Tests/Programs.antt =====
-- poc/, cmd.go and the choice of a peer in proxy/proxy.go.
use k8_p2p_failover_poc.Prelude.{
  ◌≡◌, ◌≢◌, ◌↔◌, refl, ℤ, pos, String, Option, none, some, List, [], ◌∷◌, ◌==◌, text_keys,
  if◌then◌else◌,
}
use k8_p2p_failover_poc.Proxy.Forward.{shuffle}
use k8_p2p_failover_poc.Raft.Loop.{start}
use k8_p2p_failover_poc.Poc.{Line, scan_error, scanned, main_start}
use k8_p2p_failover_poc.Poc.Startup.{main_start-split, CanConnect}

abbrev addresses : List String
addresses = "" ∷ "10.0.0.2" ∷ "10.0.0.3" ∷ []

shuffle_swaps : shuffle 0 (0 ∷ 0 ∷ 1 ∷ []) addresses ≡ "10.0.0.2" ∷ "10.0.0.3" ∷ "" ∷ []
unfolding shuffle
shuffle_swaps = refl

-- A reading of the two numbers that matter.
abbrev atoi_demo : String → Option ℤ
atoi_demo s = if s == "1" then some (pos 1) else if s == "2" then some (pos 2) else none

abbrev typed : List Line
typed = scanned "1" ∷ scan_error ∷ scanned "x" ∷ scanned "2" ∷ []

-- A splitting that never splits.
abbrev no_split : String → String → List String
no_split text separator = text ∷ []

no_split-nonempty : (text separator : String) → separator ≢ "" → no_split text separator ≢ []
no_split-nonempty text separator h e = cc

-- The configuration can be read; the client can be made.
abbrev read_config : String → Option String
read_config path = some path

abbrev make_client : String → Option String
make_client config = some config

main_start-split_example :
    (main_start read_config make_client no_split "~/.kube/config" "10.0.0.1" "" (pos 9996)
      ≡ some (start "10.0.0.1" (pos 9996) ("" ∷ [])))
    ↔ ((◌≢◌ {A = String} "10.0.0.1" "")
        × CanConnect read_config make_client "~/.kube/config"
        × (start "10.0.0.1" (pos 9996) ("" ∷ []) ≡ start "10.0.0.1" (pos 9996) ("" ∷ [])))
main_start-split_example =
    main_start-split read_config make_client no_split "~/.kube/config" "10.0.0.1" "" (pos 9996)
      (start "10.0.0.1" (pos 9996) ("" ∷ [])) no_split-nonempty
