-- ===== src/Cluster/Filter.antt =====
-- sdk/helper/scaleutils/filter.go: the nodes of a pool.
use nomad_autoscaler.Prelude.{
  String, str_eq, Bool, true, false, not, ◌&&◌, ◌||◌, List, [], ◌∷◌, ◌++◌, length, leb,
  if◌then◌else◌,
}
use nomad_autoscaler.Cluster.{
  Node, node_status_init, node_status_ready, node_scheduling_eligible, PoolIdentifier,
  identifier_key_class, default_class_identifier, NodeError, is_initializing, is_draining,
  is_ineligible, unsupported_identifier, unstable, Attempt, succeeded, rejected,
}

unfoldable pub outside_class : String → Node → Bool
outside_class id node =
    not (str_eq node.node_class "") && not (str_eq node.node_class id)
    || str_eq node.node_class "" && not (str_eq id default_class_identifier)

-- The variables `err` and `out` of the loop.
pub record Filtered : Type 0 where
  pub errors : List NodeError
  pub out : List Node

unfoldable pub is_nil {ℓ} : {A : Type ℓ} → List A → Bool
is_nil [] = true
is_nil (x ∷ xs) = false

unfoldable pub append_error : NodeError → Filtered → Filtered
append_error e f = record f { errors = f.errors ++ e ∷ [] }

-- The body of the loop behind the test on the number of errors.
unfoldable pub filter_node : String → Node → Filtered → Filtered
unfolding outside_class is_nil append_error
filter_node id node f =
    if outside_class id node
    then f
    else if str_eq node.status node_status_init
    then append_error (is_initializing node.id) f
    else if str_eq node.scheduling_eligibility node_scheduling_eligible
    then (if is_nil f.errors then record f { out = f.out ++ node ∷ [] } else f)
    else if node.drain && str_eq node.status node_status_ready
    then append_error (is_draining node.id) f
    else if not node.drain && str_eq node.status node_status_ready
    then append_error (is_ineligible node.id) f
    else f

unfoldable pub filter_result : Filtered → Attempt (List Node)
unfolding is_nil
filter_result f = if is_nil f.errors then succeeded f.out else rejected (unstable f.errors)

unfoldable pub filter_nodes : String → List Node → Filtered → Attempt (List Node)
unfolding filter_result
filter_nodes id [] f = filter_result f
filter_nodes id (node ∷ nodes) f =
    let rest = filter_nodes id nodes (filter_node id node f) in
    if leb 10 (length f.errors) then rejected (unstable f.errors) else rest

unfoldable pub filter_by_class : List Node → String → Attempt (List Node)
unfolding filter_nodes
filter_by_class nodes id = filter_nodes id nodes (record { errors = []; out = [] })

unfoldable pub identify_nodes : PoolIdentifier → List Node → Attempt (List Node)
unfolding filter_by_class
identify_nodes p nodes =
    if str_eq p.identifier_key identifier_key_class
    then filter_by_class nodes p.value
    else rejected (unsupported_identifier p.identifier_key)

unfoldable pub is_supported : PoolIdentifier → Bool
is_supported p = str_eq p.identifier_key identifier_key_class
