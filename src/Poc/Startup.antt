-- ===== src/Poc/Startup.antt =====
-- poc/client.go and cmd.go: what is typed, and what the program starts with.
use k8_p2p_failover_poc.Prelude.{
  ℕ, suc, ◌+◌, ◌≡◌, ◌≢◌, ◌↔◌, refl, ℤ, pos, eq_ℤ, ◌||◌, String, false, Option, none, some, List, [],
  ◌∷◌, ◌++◌, if◌then◌else◌, arith, length, length-append, Option-cases, Bool-cases, nat_beq,
  text_keys, inl, inr, eq_iff,
}
use k8_p2p_failover_poc.Kube.Resources.{KubeCmd, is_no_cmd}
use k8_p2p_failover_poc.Raft.State.{count_entries}
use k8_p2p_failover_poc.Raft.Loop.{Node, start}
use k8_p2p_failover_poc.Poc.{
  Line, scan_error, scanned, command_of, start_cli, init_kube_client, main_start,
  test_gen_deployment_cmd, test_gen_nodeport_cmd,
}

-- The number of lines that hold the number of a command.
abbrev pub command_lines : (String → Option ℤ) → List Line → ℕ
command_lines atoi [] = 0
command_lines atoi (scan_error ∷ lines) = command_lines atoi lines
command_lines atoi (scanned s ∷ lines) =
    let rest = command_lines atoi lines in
    elim (atoi s) [
      | none ↦ rest
      | some num ↦ if eq_ℤ num (pos 1) || eq_ℤ num (pos 2) then suc rest else rest
    ]

-- Each is one command, which is not empty.
command_of-cases :
    (num : ℤ)
    → (cmds : List KubeCmd) × (command_of num ≡ some cmds)
      × (count_entries cmds ≡ length cmds)
      × (length cmds ≡ (if eq_ℤ num (pos 1) || eq_ℤ num (pos 2) then 1 else 0))
unfolding command_of test_gen_deployment_cmd test_gen_nodeport_cmd count_entries is_no_cmd
command_of-cases num = elim (Bool-cases (eq_ℤ num (pos 1))) [
  | inl p ↦ rw (command_of, p) (_, refl, refl, refl)
  | inr p ↦ elim (Bool-cases (eq_ℤ num (pos 2))) [
    | inl q ↦ rw (command_of, p, q) (_, refl, refl, refl)
    | inr q ↦ rw (command_of, p, q) ([], refl, refl, refl)
  ]
]

count_entries-concat :
    (xs ys : List KubeCmd) → count_entries (xs ++ ys) ≡ count_entries xs + count_entries ys
unfolding count_entries
count_entries-concat [] ys = omega arith
count_entries-concat (x ∷ xs) ys = omega (arith, count_entries-concat xs ys)

-- Whatever is typed, the loop does not panic; it sends a command for each line that holds the number 1
-- or 2 and for no other, and each of them counts as an entry of a log.
start_cli-total :
    (atoi : String → Option ℤ) (lines : List Line)
    → (cmds : List KubeCmd) × (start_cli atoi lines ≡ some cmds)
      × (length cmds ≡ command_lines atoi lines)
      × (count_entries cmds ≡ length cmds)
unfolding start_cli count_entries
start_cli-total atoi [] = ([], refl, refl, refl)
start_cli-total atoi (scan_error ∷ lines) = start_cli-total atoi lines
start_cli-total atoi (scanned s ∷ lines) = elim (Option-cases (atoi s)) [
  | inl e ↦
      let (cmds, q, l, k) = start_cli-total atoi lines in
      (cmds, rw (start_cli, e) q, ground (arith, e, l), k)
  | inr (num, e) ↦
      let (sent, p, c, n) = command_of-cases num in
      let (cmds, q, l, k) = start_cli-total atoi lines in
      (
        sent ++ cmds,
        rw (start_cli, e, p, q) refl,
        ground (arith, e, n, l, length-append sent cmds),
        rw (count_entries-concat sent cmds, length-append sent cmds, c, k) refl,
      )
]

nonempty_length : (l : List String) → l ≢ [] → nat_beq (length l) 0 ≡ false
nonempty_length [] h = absurd (h refl)
nonempty_length (x ∷ l) h = ground arith

-- The client of the cluster can be made.
abbrev pub CanConnect : {C K : Type 0} → (String → Option C) → (C → Option K) → String → Type 0
CanConnect {C} build_config new_for_config conf_path =
    (config : C) × (build_config conf_path ≡ some config) × (new_for_config config ≢ none)

module _ {C K : Type 0} (build_config : String → Option C) (new_for_config : C → Option K) where
  init_kube_client-none :
      (conf_path : String)
      → (init_kube_client build_config new_for_config conf_path ≢ none)
        ↔ CanConnect build_config new_for_config conf_path
  unfolding init_kube_client
  init_kube_client-none conf_path = elim (Option-cases (build_config conf_path)) [
    | inl e ↦ (
      λ h. absurd (h (rw (init_kube_client, e) refl)),
      λ (config, e', _). absurd (ground (arith, e, e')),
    )
    | inr (config, e) ↦ elim (Option-cases (new_for_config config)) [
      | inl n ↦ (
        λ h. absurd (h (rw (init_kube_client, e, n) refl)),
        λ (config', e', m). absurd (ground (arith, e, e', n, m)),
      )
      | inr (cluster, n) ↦
          (λ h. (config, e, λ m. ground (arith, n, m)), λ h z. ground (arith, e, n, z))
    ]
  ]

  -- If splitting never gives an empty list, main gets to StartPoc exactly when it is given an address
  -- and the client of its cluster can be made, which is when the configuration can be read and the
  -- client be made of it; else it panics. The test for an empty list of peers never fires, and the raft
  -- node starts with what the splitting gives.
  pub main_start-split :
      (split : String → String → List String) (conf_path expose_ip peer_ips : String)
      (raft_port : ℤ) (n : Node)
      → ((text separator : String) → separator ≢ "" → split text separator ≢ [])
      → (main_start build_config new_for_config split conf_path expose_ip peer_ips raft_port
          ≡ some n)
        ↔ ((expose_ip ≢ "")
            × CanConnect build_config new_for_config conf_path
            × (n ≡ start expose_ip raft_port (split peer_ips ",")))
  unfolding main_start
  main_start-split split conf_path expose_ip peer_ips raft_port n h = ground (
    arith,
    h peer_ips ",",
    eq_iff "," "",
    eq_iff expose_ip "",
    nonempty_length (split peer_ips ","),
    init_kube_client-none conf_path,
  )
