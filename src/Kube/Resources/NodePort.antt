-- ===== src/Kube/Resources/NodePort.antt =====
-- kube/kube_resources.go: from the arguments of `CreateNodePortObject` to the service that is handed
-- to the cluster.
use k8_p2p_failover_poc.Prelude.{
  ◌≡◌, ◌≢◌, ◌↔◌, none, some, String, ℤ, pos, arith, eq_iff, eq_ℤ_iff, ◌==◌, text_keys,
  if◌then◌else◌, lookup, insert, [], ◌∷◌,
}
use k8_p2p_failover_poc.Kube.Resources.{
  create_node_port_object, node_port_service, no_node_port, tuple_to_dict,
}

-- What `CreateNodePortObject` requires.
abbrev pub IsComplete : ℤ → ℤ → ℤ → String → String → Type 0
IsComplete cp tp np sk sv = (cp ≢ pos 0) × (tp ≢ pos 0) × (np ≢ pos 0) × (sk ≢ "") × (sv ≢ "")

-- `CreateNodePortObject` reports no error exactly when the three ports are nonzero and the label is
-- complete, and returns the zero value exactly when it reports one.
create_node_port_object-IsComplete :
    (n pn : String) (cp tp np : ℤ) (sk sv : String)
    → (((create_node_port_object n pn cp tp np sk sv).0 ≡ none) ↔ IsComplete cp tp np sk sv)
      × (((create_node_port_object n pn cp tp np sk sv).0 ≢ none)
          ↔ ((create_node_port_object n pn cp tp np sk sv).1 ≡ no_node_port))
unfolding create_node_port_object
create_node_port_object-IsComplete n pn cp tp np sk sv = ground (
  arith,
  eq_ℤ_iff cp (pos 0),
  eq_ℤ_iff tp (pos 0),
  eq_ℤ_iff np (pos 0),
  eq_iff sk "",
  eq_iff sv "",
)

-- The service made from complete arguments has the given ports, and its selector is exactly the one
-- label.
node_port_service-create :
    (n pn : String) (cp tp np : ℤ) (sk sv k : String)
    → IsComplete cp tp np sk sv
    → let s = node_port_service (create_node_port_object n pn cp tp np sk sv).1 in
      (s.ports ≡ record { name = pn; port = cp; target_port = tp; node_port = np } ∷ [])
      × (lookup k s.selector ≡ (if sk == k then some sv else none))
unfolding create_node_port_object node_port_service tuple_to_dict lookup insert
node_port_service-create n pn cp tp np sk sv k h = ground (
  arith,
  eq_ℤ_iff cp (pos 0),
  eq_ℤ_iff tp (pos 0),
  eq_ℤ_iff np (pos 0),
  eq_iff sk "",
  eq_iff sv "",
  eq_iff sk k,
)
