-- ===== src/Kube/Printing.antt =====
-- kube/kube_resources.go: the texts of commands. A text is the list of its code points.
use k8_p2p_failover_poc.Prelude.{List, [], ◌∷◌, ◌++◌}
use k8_p2p_failover_poc.Traffic.{Text, text}
use k8_p2p_failover_poc.Traffic.Listing.{decimal, bracketed}
use k8_p2p_failover_poc.Kube.Resources.{
  KubeMsg, nil_msg, create_service, delete_service, create_deployment, delete_deployment,
  unknown_msg, KubeLable, Slice, elements, KubeNodePort, KubeDeployment, KubeCmd,
}

unfoldable pub msg_to_string : KubeMsg → Text
msg_to_string create_service = text "CREATE SERVICE"
msg_to_string delete_service = text "DELETE SERVICE"
msg_to_string create_deployment = text "CREATE DEPLOYMENT"
msg_to_string delete_deployment = text "DELETE DEPLOYMENT"
msg_to_string nil_msg = text "UNKNOWN TYPE"
msg_to_string (unknown_msg t) = text "UNKNOWN TYPE"

-- How `%s` and `%v` print a struct of two texts, and a slice of such.
abbrev label_text : KubeLable → Text
label_text l = b'{' ∷ (text l.key ++ b' ' ∷ (text l.value ++ b'}' ∷ []))

abbrev joined : List KubeLable → Text
joined [] = []
joined (l ∷ []) = label_text l
joined (l ∷ m ∷ ls) = label_text l ++ b' ' ∷ joined (m ∷ ls)

abbrev labels_text : Slice KubeLable → Text
labels_text ls = bracketed (joined (elements ls))

unfoldable pub node_port_to_string : KubeNodePort → Text
node_port_to_string knp =
    text "NodePort: ID: "
    ++ (bracketed (text knp.name)
        ++ (text ", Selector: "
            ++ (bracketed (labels_text knp.selector)
                ++ (text ", ExposedPort " ++ bracketed (decimal knp.port.target_port)))))

unfoldable pub deployment_to_string : KubeDeployment → Text
deployment_to_string kd =
    text "Deployment: ID: "
    ++ (bracketed (text kd.name)
        ++ (text ", Image: "
            ++ (bracketed (text kd.image.name)
                ++ (text ", Replicas: "
                    ++ (bracketed (decimal kd.replicas)
                        ++ (text ", Labels: " ++ bracketed (labels_text kd.labels)))))))

abbrev action_text : KubeMsg → Text → Text
action_text m resource = text "ACTION: " ++ (msg_to_string m ++ (text " RESOURCE: " ++ resource))

-- `ToString` of a command.
unfoldable pub cmd_to_string : KubeCmd → Text
unfolding msg_to_string node_port_to_string deployment_to_string
cmd_to_string kc = elim kc.msg_type [
  | create_service ↦ action_text create_service (node_port_to_string kc.object_service)
  | delete_service ↦ action_text delete_service (node_port_to_string kc.object_service)
  | create_deployment ↦ action_text create_deployment (deployment_to_string kc.object_deployment)
  | delete_deployment ↦ action_text delete_deployment (deployment_to_string kc.object_deployment)
  | nil_msg ↦ text "UNKNOWN COMMAND"
  | unknown_msg t ↦ text "UNKNOWN COMMAND"
]
