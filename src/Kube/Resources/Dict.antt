-- ===== src/Kube/Resources/Dict.antt =====
-- kube/kube_resources.go: the labels that `tupleToDict` keeps.
use k8_p2p_failover_poc.Prelude.{
  ◌≡◌, refl, arith, eq_iff, String, Option, none, some, List, [], ◌∷◌, ◌==◌, text_keys, not, ◌&&◌,
  lookup, insert, lookup-insert, if◌then◌else◌,
}
use k8_p2p_failover_poc.Kube.Resources.{KubeLable, tuple_to_dict, tuple_to_dict_from}

-- The value of the last complete label with key `k`.
abbrev pub last_value : String → List KubeLable → Option String
last_value k [] = none
last_value k (t ∷ labels) = elim (last_value k labels) [
  | some v ↦ some v
  | none ↦ if t.key == k && (not (t.key == "") && not (t.value == "")) then some t.value else none
]

abbrev or_else : Option String → Option String → Option String
or_else (some v) d = some v
or_else none d = d

lookup-tuple_to_dict_from :
    (k : String) (labels : List KubeLable) (dict : List (String × String))
    → lookup k (tuple_to_dict_from dict labels) ≡ or_else (last_value k labels) (lookup k dict)
unfolding tuple_to_dict_from
lookup-tuple_to_dict_from k [] dict = refl
lookup-tuple_to_dict_from k (t ∷ labels) dict = ground (
  arith,
  eq_iff t.key k,
  eq_iff t.key "",
  eq_iff t.value "",
  lookup-insert t.key k t.value dict,
  lookup-tuple_to_dict_from k labels dict,
  lookup-tuple_to_dict_from k labels (insert t.key t.value dict),
)

-- `tupleToDict` maps each key to the value of its last complete label, and has no other key.
lookup-tuple_to_dict :
    (k : String) (labels : List KubeLable) → lookup k (tuple_to_dict labels) ≡ last_value k labels
unfolding tuple_to_dict lookup
lookup-tuple_to_dict k labels = ground (arith, lookup-tuple_to_dict_from k labels [])
