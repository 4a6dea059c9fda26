-- ===== src/Poc.antt =====
-- poc/client.go and cmd.go: the start of the program, and the commands that are typed. What the
-- standard library's `strconv.Atoi` and `strings.Split` and the client library of the cluster return is
-- an argument; a panic is `none`.
pub mod Startup
pub mod Logs
pub mod System
pub mod World
use k8_p2p_failover_poc.Prelude.{
  ℤ, pos, eq_ℤ, String, ◌==◌, text_keys, Option, none, some, List, [], ◌∷◌, ◌++◌, if◌then◌else◌,
  length, nat_beq,
}
use k8_p2p_failover_poc.Kube.Resources.{
  KubeCmd, no_cmd, create_deployment, create_service, create_deployment_object,
  create_node_port_object,
}
use k8_p2p_failover_poc.Raft.Loop.{Node, start}

-- `TestGenDeploymentCmd`
unfoldable pub test_gen_deployment_cmd : Option KubeCmd
unfolding create_deployment_object
test_gen_deployment_cmd =
    let (err, obj) =
      create_deployment_object "poc-deployment" (pos 5) "app" "cluster-loc" "app" "cluster-loc"
        "server-cluster-status" "seaweed39kelp/poctesting:1.0" (pos 80) "http" in
    elim err [
      | some e ↦ none
      | none ↦ some (record no_cmd { msg_type = create_deployment; object_deployment = obj })
    ]

-- `TestGenNodeportCmd`
unfoldable pub test_gen_nodeport_cmd : Option KubeCmd
unfolding create_node_port_object
test_gen_nodeport_cmd =
    let (err, svc) =
      create_node_port_object "poc-node-port" "" (pos 80) (pos 80) (pos 30010) "app"
        "cluster-loc" in
    elim err [
      | some e ↦ none
      | none ↦ some (record no_cmd { msg_type = create_service; object_service = svc })
    ]

-- What `fmt.Scanln` gives.
pub data Line : Type 0 where
  scan_error : Line
  scanned : String → Line

-- The switch on the number: a command that is sent, or nothing.
unfoldable pub command_of : ℤ → Option (List KubeCmd)
unfolding test_gen_deployment_cmd test_gen_nodeport_cmd
command_of num =
    if eq_ℤ num (pos 1)
    then elim test_gen_deployment_cmd [ none ↦ none | some msg ↦ some (msg ∷ []) ]
    else if eq_ℤ num (pos 2)
    then elim test_gen_nodeport_cmd [ none ↦ none | some msg ↦ some (msg ∷ []) ]
    else some []

-- The loop of `startCli` over the lines that are typed: the commands that it sends.
unfoldable pub start_cli : (String → Option ℤ) → List Line → Option (List KubeCmd)
unfolding command_of
start_cli atoi [] = some []
start_cli atoi (scan_error ∷ lines) = start_cli atoi lines
start_cli atoi (scanned cmd_string ∷ lines) =
    let rest = start_cli atoi lines in
    elim (atoi cmd_string) [
      | none ↦ rest
      | some num ↦ elim (command_of num) [
        | none ↦ none
        | some sent ↦ elim rest [ none ↦ none | some cmds ↦ some (sent ++ cmds) ]
      ]
    ]

-- `InitKubeClient`: what `BuildConfigFromFlags` and `NewForConfig` return.
unfoldable pub init_kube_client :
    {C K : Type 0} → (String → Option C) → (C → Option K) → String → Option K
init_kube_client build_config new_for_config conf_path = elim (build_config conf_path) [
  | none ↦ none
  | some config ↦ elim (new_for_config config) [ none ↦ none | some cluster ↦ some cluster ]
]

-- `main` after its flags are read, up to the first wait of the loop of `startRAFT`.
unfoldable pub main_start :
    {C K : Type 0}
    → (String → Option C)
    → (C → Option K)
    → (String → String → List String)
    → String
    → String
    → String
    → ℤ
    → Option Node
unfolding init_kube_client
main_start build_config new_for_config split conf_path expose_ip peer_ips raft_port =
    let peer_ip_list = split peer_ips "," in
    if expose_ip == ""
    then none
    else if nat_beq (length peer_ip_list) 0
    then none
    else elim (init_kube_client build_config new_for_config conf_path) [
      | none ↦ none
      | some cluster ↦ some (start expose_ip raft_port peer_ip_list)
    ]
