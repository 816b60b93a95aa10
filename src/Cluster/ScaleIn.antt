-- ===== src/Cluster/ScaleIn.antt =====
-- sdk/helper/scaleutils/nomad.go, request.go and status.go: the tasks before and after nodes are
-- terminated. Nomad's API is a parameter. The nodes that the code asks Nomad to drain or to purge are
-- part of the result. The drains run concurrently: the order of their calls and of their errors is
-- that of the nodes here.
use nomad_autoscaler.Prelude.{
  ℕ, String, str_eq, Bool, true, false, not, List, [], ◌∷◌, ◌++◌, length, take, map, Option, none,
  some, Map, lookup, ℤ, pos, ltb_ℤ, eqb_ℤ, pos_part, if◌then◌else◌,
}
use nomad_autoscaler.Sdk.Policy.{target_config_key_node_purge}
use nomad_autoscaler.Plugins.{Result, ok, failed}
use nomad_autoscaler.Cluster.{
  Node, NodeInfo, NodeId, PoolIdentifier, id_strategy_newest_create_index, ScaleInReq, RequestError,
  num_not_positive, deadline_zero, no_pool_identifier, no_remote_provider, no_strategy, DrainError,
  update_failed, monitoring_failed, unsupported_identifier, list_failed, invalid_request, no_nodes,
  unsupported_strategy, no_id_function, info_failed, attributes_missing, drains_failed, Attempt,
  succeeded, rejected, ◌>>=◌,
}
use nomad_autoscaler.Cluster.Filter.{identify_nodes, is_supported, is_nil}
use nomad_autoscaler.Cluster.Remote.{RemoteId, id_func_map}

pub data MonitorLevel : Type 0 where
  level_error level_other : MonitorLevel

-- `api.DrainSpec`
pub record DrainSpec : Type 0 where
  pub deadline : ℤ
  pub ignore_system_jobs : Bool

-- `nomad` of the type ScaleIn. `drain_messages` are the messages of a drain until the channel is
-- closed, and `context_error` is the context's error at that time.
pub record Client : Type 0 where
  pub list_nodes : Result (List Node)
  pub node_info : String → Result NodeInfo
  pub update_drain : String → DrainSpec → Result {0} Unit
  pub drain_messages : String → List (MonitorLevel × String)
  pub context_error : String → Option String
  pub purge : String → Result {0} Unit

-- A new error is put in front of the earlier ones.
unfoldable pub prepend_if {ℓ} : {A : Type ℓ} → Bool → A → List A → List A
prepend_if test e errors = if test then e ∷ errors else errors

unfoldable pub is_unset : Option PoolIdentifier → Bool
is_unset none = true
is_unset (some p) = false

unfoldable pub validate_request : ScaleInReq → List RequestError
unfolding prepend_if is_unset
validate_request req =
    let e1 = prepend_if (ltb_ℤ req.num (pos 1)) num_not_positive [] in
    let e2 = prepend_if (eqb_ℤ req.drain_deadline (pos 0)) deadline_zero e1 in
    let e3 = prepend_if (is_unset req.pool_identifier) no_pool_identifier e2 in
    let e4 = prepend_if (str_eq req.remote_provider "") no_remote_provider e3 in
    prepend_if (str_eq req.node_id_strategy "") no_strategy e4

unfoldable pub drop_node_id : String → List Node → List Node
drop_node_id id [] = []
drop_node_id id (n ∷ ns) = if str_eq n.id id then drop_node_id id ns else n ∷ drop_node_id id ns

unfoldable pub filter_out_node_id : List Node → String → List Node
unfolding drop_node_id
filter_out_node_id ns id = if str_eq id "" then ns else drop_node_id id ns

unfoldable pub cap_num : ℤ → ℕ → ℤ
cap_num num available = if ltb_ℤ (pos available) num then pos available else num

unfoldable pub select_nodes : ℤ → String → List Node → Attempt (List Node)
unfolding is_nil cap_num
select_nodes num strategy nodes =
    if is_nil nodes
    then rejected no_nodes
    else if str_eq strategy id_strategy_newest_create_index
    then succeeded (take (pos_part (cap_num num (length nodes))) nodes)
    else rejected (unsupported_strategy strategy)

unfoldable pub list_nodes : Client → Attempt (List Node)
list_nodes c = elim c.list_nodes [
  | ok nodes ↦ succeeded nodes
  | failed e ↦ rejected (list_failed e)
]

-- `cur` is the node that the autoscaler runs on.
unfoldable pub identify_targets :
    Client → String → ℤ → PoolIdentifier → String → Attempt (List Node)
identify_targets c cur num ident strategy = do
  nodes ← list_nodes c
  filtered ← identify_nodes ident nodes
  select_nodes num strategy (filter_out_node_id filtered cur)

unfoldable pub append_missing : Option String → List String → List String
append_missing none missing = missing
append_missing (some attr) missing = missing ++ attr ∷ []

unfoldable pub remote_ids :
    Client → (NodeInfo → RemoteId) → List Node → List NodeId → List String → Attempt (List NodeId)
unfolding is_nil append_missing
remote_ids c id_func [] out missing =
    if is_nil missing then succeeded out else rejected (attributes_missing missing)
remote_ids c id_func (n ∷ ns) out missing = elim (c.node_info n.id) [
  | failed e ↦ rejected (info_failed e)
  | ok info ↦
      remote_ids c id_func ns
        (out ++ record { nomad_id = n.id; remote_id = (id_func info).value } ∷ [])
        (append_missing (id_func info).missing missing)
]

unfoldable pub get_remote_id_map : Client → List Node → String → Attempt (List NodeId)
get_remote_id_map c nodes provider = elim (id_func_map provider) [
  | none ↦ rejected (no_id_function provider)
  | some id_func ↦ remote_ids c id_func nodes [] []
]

unfoldable pub monitor_messages : List (MonitorLevel × String) → Option String → Option String
monitor_messages [] context_error = context_error
monitor_messages ((level_error, message) ∷ rest) context_error = some message
monitor_messages ((level_other, message) ∷ rest) context_error = monitor_messages rest context_error

unfoldable pub drain_node : Client → DrainSpec → String → List DrainError
unfolding monitor_messages
drain_node c spec id = elim (c.update_drain id spec) [
  | failed e ↦ update_failed e ∷ []
  | ok _ ↦ elim (monitor_messages (c.drain_messages id) (c.context_error id)) [
    | some e ↦ monitoring_failed e ∷ []
    | none ↦ []
  ]
]

unfoldable pub drain_nodes : Client → DrainSpec → List NodeId → List DrainError
drain_nodes c spec [] = []
drain_nodes c spec (n ∷ ns) = drain_node c spec n.nomad_id ++ drain_nodes c spec ns

-- The nodes that a drain was requested for, and the answer.
pub record PreScaleIn : Type 0 where
  pub drained : List String
  pub answer : Attempt (List NodeId)

unfoldable pub drain_identified : Client → DrainSpec → List NodeId → PreScaleIn
unfolding is_nil
drain_identified c spec ids =
    if is_nil ids then record { drained = []; answer = rejected no_nodes } else record {
      drained = map (λ n. n.nomad_id) ids;
      answer =
          if is_nil (drain_nodes c spec ids)
          then succeeded ids
          else rejected (drains_failed (drain_nodes c spec ids));
    }

-- The tasks for a request that names a pool.
unfoldable pub prepare : Client → String → ScaleInReq → PoolIdentifier → PreScaleIn
prepare c cur req pool =
    elim (identify_targets c cur req.num pool req.node_id_strategy >>= λ nodes.
    get_remote_id_map c nodes req.remote_provider) [
      | rejected e ↦ record { drained = []; answer = rejected e }
      | succeeded ids ↦
          drain_identified c
            (record { deadline = req.drain_deadline; ignore_system_jobs = req.ignore_system_jobs })
            ids
    ]

-- A nil pool identifier would be dereferenced, `none` here.
unfoldable pub prepare_for :
    Client → String → ScaleInReq → Option PoolIdentifier → Option PreScaleIn
prepare_for c cur req none = none
prepare_for c cur req (some pool) = some (prepare c cur req pool)

unfoldable pub reject_request : ScaleInReq → PreScaleIn
reject_request req = record {
  drained = [];
  answer = rejected (invalid_request (validate_request req));
}

unfoldable pub run_pre_scale_in_tasks : Client → String → ScaleInReq → Option PreScaleIn
unfolding is_nil
run_pre_scale_in_tasks c cur req =
    if is_nil (validate_request req)
    then prepare_for c cur req req.pool_identifier
    else some (reject_request req)

-- `strconv.ParseBool`
unfoldable pub one_of : String → List String → Bool
one_of s [] = false
one_of s (t ∷ ts) = if str_eq s t then true else one_of s ts

unfoldable pub parse_bool : String → Option Bool
unfolding one_of
parse_bool s =
    if one_of s ("1" ∷ "t" ∷ "T" ∷ "true" ∷ "TRUE" ∷ "True" ∷ [])
    then some true
    else if one_of s ("0" ∷ "f" ∷ "F" ∷ "false" ∷ "FALSE" ∷ "False" ∷ [])
    then some false
    else none

unfoldable pub purge_enabled : Option String → Bool
unfolding parse_bool
purge_enabled none = false
purge_enabled (some val) = elim (parse_bool val) [ none ↦ false | some enabled ↦ enabled ]

unfoldable pub purge_nodes : Client → List NodeId → List String
purge_nodes c [] = []
purge_nodes c (n ∷ ns) = elim (c.purge n.nomad_id) [
  | ok _ ↦ purge_nodes c ns
  | failed e ↦ e ∷ purge_nodes c ns
]

-- The nodes that a purge was requested for, and the errors.
unfoldable pub run_post_scale_in_tasks :
    Client → Map String → List NodeId → List String × List String
unfolding purge_enabled purge_nodes
run_post_scale_in_tasks c cfg ids =
    if purge_enabled (lookup target_config_key_node_purge cfg)
    then (map (λ n. n.nomad_id) ids, purge_nodes c ids)
    else ([], [])

-- The readiness of a pool: an unstable pool is not an error.
unfoldable pub check_pool : PoolIdentifier → List Node → Attempt Bool
unfolding is_supported
check_pool id nodes =
    if not (is_supported id)
    then rejected (unsupported_identifier id.identifier_key)
    else elim (identify_nodes id nodes) [
      | rejected e ↦ succeeded false
      | succeeded pool ↦ succeeded true
    ]

unfoldable pub ready : Client → PoolIdentifier → Attempt Bool
ready c id = list_nodes c >>= λ nodes. check_pool id nodes
