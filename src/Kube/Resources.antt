-- ===== src/Kube/Resources.antt =====
-- kube/kube_resources.go: the commands of the replicated log and the constructors of their objects.
pub mod Empty
pub mod Dict
pub mod NodePort
use k8_p2p_failover_poc.Prelude.{
  ℤ, pos, String, Bool, false, true, ◌&&◌, ◌||◌, Option, none, some, List, [], ◌∷◌, ◌==◌,
  if◌then◌else◌, eq_ℤ, text_keys, insert,
}

-- Go tells a nil slice from an empty one, and so does `reflect.DeepEqual`.
pub data Slice {ℓ} (A : Type ℓ) : Type ℓ where
  nil_slice : Slice A
  slice : List A → Slice A

abbrev pub elements {ℓ} : {A : Type ℓ} → Slice A → List A
elements nil_slice = []
elements (slice xs) = xs

-- `type KubeMsg int`: the declared constants, and any other `int`.
pub data KubeMsg : Type 0 where
  nil_msg create_service delete_service create_deployment delete_deployment : KubeMsg
  unknown_msg : ℤ → KubeMsg

pub record KubeLable : Type 0 where
  pub key : String
  pub value : String

-- The `int32` fields are the integers that they stand for.
pub record KubePort : Type 0 where
  pub name : String
  pub container_port : ℤ
  pub target_port : ℤ
  pub node_port : ℤ

pub record KubeImage : Type 0 where
  pub name : String
  pub image_name : String
  pub ports : KubePort

pub record KubeNodePort : Type 0 where
  pub name : String
  pub selector : Slice KubeLable
  pub port : KubePort

pub record KubeDeployment : Type 0 where
  pub name : String
  pub replicas : ℤ
  pub selector : Slice KubeLable
  pub labels : Slice KubeLable
  pub image : KubeImage
  pub ports : KubePort

-- (`object_deployment` and `object_service` both have their zero value where a command has none.)
pub record KubeCmd : Type 0 where
  pub msg_type : KubeMsg
  pub object_deployment : KubeDeployment
  pub object_service : KubeNodePort

-- The zero values of Go.
abbrev pub no_port : KubePort
no_port = record { name = ""; container_port = pos 0; target_port = pos 0; node_port = pos 0 }

abbrev pub no_image : KubeImage
no_image = record { name = ""; image_name = ""; ports = no_port }

abbrev pub no_node_port : KubeNodePort
no_node_port = record { name = ""; selector = nil_slice; port = no_port }

abbrev pub no_deployment : KubeDeployment
no_deployment = record {
  name = "";
  replicas = pos 0;
  selector = nil_slice;
  labels = nil_slice;
  image = no_image;
  ports = no_port;
}

-- `KubeCmd{}`
abbrev pub no_cmd : KubeCmd
no_cmd = record {
  msg_type = nil_msg;
  object_deployment = no_deployment;
  object_service = no_node_port;
}

abbrev pub single_label : String → String → Slice KubeLable
single_label k v = slice (record { key = k; value = v } ∷ [])

-- `CreateDeploymentObject`: the error is always nil.
unfoldable pub create_deployment_object :
    (meta_name : String) (num_replicas : ℤ)
    (select_key select_value label_key label_value cntr_name cntr_image : String) (cntr_port : ℤ)
    (port_name : String)
    → Option String × KubeDeployment
create_deployment_object n r sk sv lk lv cn ci cp pn = (
  none,
  record {
    name = n;
    replicas = r;
    selector = single_label sk sv;
    labels = single_label lk lv;
    image = record {
      name = cn;
      image_name = ci;
      ports = record no_port { name = pn; container_port = cp };
    };
    ports = no_port;
  },
)

-- `CreateNodePortObject`: on an error the object is the zero value.
unfoldable pub create_node_port_object :
    (meta_name port_name : String) (cntr_port target_port node_port : ℤ)
    (select_key select_value : String)
    → Option String × KubeNodePort
create_node_port_object n pn cp tp np sk sv =
    if eq_ℤ cp (pos 0) || (eq_ℤ tp (pos 0) || eq_ℤ np (pos 0))
    then (some "MISSING SERVICE NODEPORT PORT DEFINITION", no_node_port)
    else if sk == "" || sv == ""
    then (some "MISSING SELECTOR VALUE - NO HEADLESS SERVICE DEFINITION", no_node_port)
    else (
      none,
      record {
        name = n;
        selector = single_label sk sv;
        port = record { name = pn; container_port = cp; target_port = tp; node_port = np };
      },
    )

-- `tupleToDict`: later labels of a key overwrite earlier ones, incomplete ones are skipped.
tuple_to_dict_from : List (String × String) → List KubeLable → List (String × String)
tuple_to_dict_from dict [] = dict
tuple_to_dict_from dict (t ∷ labels) =
    tuple_to_dict_from (if t.key == "" || t.value == "" then dict else insert t.key t.value dict)
      labels

unfoldable pub tuple_to_dict : List KubeLable → List (String × String)
unfolding tuple_to_dict_from
tuple_to_dict labels = tuple_to_dict_from [] labels

-- The Kubernetes API objects that the program fills in.
pub record ServicePort : Type 0 where
  pub name : String
  pub port : ℤ
  pub target_port : ℤ
  pub node_port : ℤ

pub record Service : Type 0 where
  pub name : String
  pub ports : List ServicePort
  pub selector : List (String × String)
  pub service_type : String

pub record Deployment : Type 0 where
  pub name : String
  pub replicas : ℤ
  pub match_labels : List (String × String)
  pub template_labels : List (String × String)
  pub container_name : String
  pub container_image : String
  pub container_port_name : String
  pub container_port : ℤ

-- The object that `CreateNodePort` hands to the cluster.
unfoldable pub node_port_service : KubeNodePort → Service
unfolding tuple_to_dict
node_port_service object = record {
  name = object.name;
  ports =
      record {
        name = object.port.name;
        port = object.port.container_port;
        target_port = object.port.target_port;
        node_port = object.port.node_port;
      }
      ∷ [];
  selector = tuple_to_dict (elements object.selector);
  service_type = "NodePort";
}

-- The object that `CreateDeployment` hands to the cluster.
unfoldable pub deployment_object : KubeDeployment → Deployment
unfolding tuple_to_dict
deployment_object object = record {
  name = object.name;
  replicas = object.replicas;
  match_labels = tuple_to_dict (elements object.selector);
  template_labels = tuple_to_dict (elements object.labels);
  container_name = object.image.name;
  container_image = object.image.image_name;
  container_port_name = object.image.ports.name;
  container_port = object.image.ports.container_port;
}

-- `reflect.DeepEqual(cmd, KubeCmd{})`, part by part.
abbrev is_no_port : KubePort → Bool
is_no_port p =
    p.name == ""
    && (eq_ℤ p.container_port (pos 0) && (eq_ℤ p.target_port (pos 0) && eq_ℤ p.node_port (pos 0)))

abbrev is_nil_slice {ℓ} : {A : Type ℓ} → Slice A → Bool
is_nil_slice nil_slice = true
is_nil_slice (slice xs) = false

abbrev is_nil_msg : KubeMsg → Bool
is_nil_msg nil_msg = true
is_nil_msg _ = false

abbrev is_no_image : KubeImage → Bool
is_no_image i = i.name == "" && (i.image_name == "" && is_no_port i.ports)

is_no_deployment : KubeDeployment → Bool
is_no_deployment d =
    d.name == ""
    && (eq_ℤ d.replicas (pos 0)
        && (is_nil_slice d.selector
            && (is_nil_slice d.labels && (is_no_image d.image && is_no_port d.ports))))

is_no_node_port : KubeNodePort → Bool
is_no_node_port s = s.name == "" && (is_nil_slice s.selector && is_no_port s.port)

unfoldable pub is_no_cmd : KubeCmd → Bool
unfolding is_no_deployment is_no_node_port
is_no_cmd c =
    is_nil_msg c.msg_type
    && (is_no_deployment c.object_deployment && is_no_node_port c.object_service)
