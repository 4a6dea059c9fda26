-- ===== src/Kube/Client/Health.antt =====
-- kube/kube_client.go: when the cluster counts as healthy.
use k8_p2p_failover_poc.Prelude.{
  ◌≤◌, ◌≡◌, ◌↔◌, String, true, false, ◌&&◌, Option, none, some, List, [], ◌∷◌, text_keys, length,
  All, arith, eq_iff, ◌⊎◌,
}
use k8_p2p_failover_poc.Kube.Client.{
  ClusterNode, count_running, check_pod_status, is_ready, count_ready, check_node_status,
  start_health_checks,
}

-- A list has this pair.
abbrev pub Has : String → String → List (String × String) → Type 0
Has k v [] = ⊥
Has k v (e ∷ l) = ((e.0 ≡ k) × (e.1 ≡ v)) ⊎ Has k v l

is_ready_iff : (l : List (String × String)) → (is_ready l ≡ true) ↔ Has "Ready" "True" l
unfolding is_ready
is_ready_iff [] = ground arith
is_ready_iff (e ∷ l) = ground (arith, eq_iff e.0 "Ready", eq_iff e.1 "True", is_ready_iff l)

count_running-le : (l : List String) → count_running l ≤ length l
unfolding count_running
count_running-le [] = omega arith
count_running-le (p ∷ l) = ground (arith, count_running-le l)

count_ready-le : (l : List ClusterNode) → count_ready l ≤ length l
unfolding count_ready
count_ready-le [] = omega arith
count_ready-le (n ∷ l) = ground (arith, count_ready-le l)

-- The pods are healthy exactly when their list was read and each of them runs.
pub check_pod_status_iff :
    (l : List String) → (check_pod_status (some l) ≡ true) ↔ All (λ phase. phase ≡ "Running") l
unfolding check_pod_status count_running
check_pod_status_iff [] = ground arith
check_pod_status_iff (p ∷ l) =
    ground (arith, eq_iff p "Running", count_running-le l, check_pod_status_iff l)

-- The nodes are healthy exactly when each has a condition `Ready` of status `True`.
pub check_node_status_iff :
    (l : List ClusterNode)
    → (check_node_status (some l) ≡ true) ↔ All (λ n. Has "Ready" "True" n.conditions) l
unfolding check_node_status count_ready
check_node_status_iff [] = ground arith
check_node_status_iff (n ∷ l) =
    ground (arith, is_ready_iff n.conditions, count_ready-le l, check_node_status_iff l)

-- A round finds the cluster healthy.
abbrev pub IsHealthy : Option (List String) × Option (List ClusterNode) → Type 0
IsHealthy (some pods, some nodes) =
    All (λ phase. phase ≡ "Running") pods × All (λ n. Has "Ready" "True" n.conditions) nodes
IsHealthy (_, _) = ⊥

round_iff :
    (r : Option (List String) × Option (List ClusterNode))
    → ((check_node_status r.1 && check_pod_status r.0) ≡ true) ↔ IsHealthy r
unfolding check_node_status check_pod_status
round_iff (some pods, some nodes) =
    ground (arith, check_pod_status_iff pods, check_node_status_iff nodes)
round_iff (some pods, none) = ground arith
round_iff (none, some nodes) = ground arith
round_iff (none, none) = ground arith

-- The health checks go on exactly as long as every round reads both lists, finds each pod running and
-- each node ready; otherwise they report the cluster and end.
start_health_checks_iff :
    (rounds : List (Option (List String) × Option (List ClusterNode)))
    → (start_health_checks rounds ≡ false) ↔ All IsHealthy rounds
unfolding start_health_checks
start_health_checks_iff [] = ground arith
start_health_checks_iff (r ∷ rounds) = ground (arith, round_iff r, start_health_checks_iff rounds)
