-- ===== src/Cluster/Remote.antt =====
-- sdk/helper/scaleutils/filter.go: the ID of a node at its infrastructure provider.
use Prim.Native.Char.{code}
use Prim.Native.String.{[] as nil, ◌∷◌ as cons}
use nomad_autoscaler.Prelude.{
  String, str_append, str_eq, ◌==◌, Option, none, some, lookup, if◌then◌else◌,
}
use nomad_autoscaler.Cluster.{NodeInfo}

abbrev pub node_attr_aws_instance_id : String
node_attr_aws_instance_id = "unique.platform.aws.instance-id"

abbrev pub node_attr_azure_instance_id : String
node_attr_azure_instance_id = "unique.platform.azure.name"

abbrev pub node_attr_gce_hostname : String
node_attr_gce_hostname = "unique.platform.gce.hostname"

abbrev pub node_attr_gce_zone : String
node_attr_gce_zone = "platform.gce.zone"

-- The value, and the attribute that was not found if there is an error.
pub record RemoteId : Type 0 where
  pub value : String
  pub missing : Option String

unfoldable pub found : String → RemoteId
found v = record { value = v; missing = none }

unfoldable pub not_found : String → RemoteId
not_found attr = record { value = ""; missing = some attr }

unfoldable pub aws_node_id_map : NodeInfo → RemoteId
unfolding found not_found
aws_node_id_map n = elim (lookup node_attr_aws_instance_id n.attributes) [
  | some val ↦ found val
  | none ↦ not_found node_attr_aws_instance_id
]

unfoldable pub azure_from_meta : Option String → RemoteId
unfolding found not_found
azure_from_meta (some val) = found val
azure_from_meta none = not_found node_attr_azure_instance_id

unfoldable pub azure_node_id_map : NodeInfo → RemoteId
unfolding azure_from_meta found
azure_node_id_map n = elim (lookup node_attr_azure_instance_id n.attributes) [
  | some val ↦ found val
  | none ↦ azure_from_meta (lookup node_attr_azure_instance_id n.meta)
]

-- The text in front of the first `.`, all of it if there is none.
unfoldable pub before_dot : String → String
before_dot nil = nil
before_dot (cons c s) = if code c == b'.' then nil else cons c (before_dot s)

unfoldable pub gce_instance : String → Option String → RemoteId
unfolding found not_found before_dot
gce_instance zone none = not_found node_attr_gce_hostname
gce_instance zone (some hostname) =
    found (str_append "zones/" (str_append zone (str_append "/instances/" (before_dot hostname))))

unfoldable pub gce_node_id_map : NodeInfo → RemoteId
unfolding gce_instance
gce_node_id_map n = elim (lookup node_attr_gce_zone n.attributes) [
  | none ↦ not_found node_attr_gce_zone
  | some zone ↦ gce_instance zone (lookup node_attr_gce_hostname n.attributes)
]

-- `idFuncMap`
unfoldable pub id_func_map : String → Option (NodeInfo → RemoteId)
unfolding aws_node_id_map azure_node_id_map gce_node_id_map
id_func_map provider =
    if str_eq provider "aws_instance_id"
    then some aws_node_id_map
    else if str_eq provider "azure_instance_id"
    then some azure_node_id_map
    else if str_eq provider "gce_instance_id"
    then some gce_node_id_map
    else none
