-- ===== src/Cluster/Tests.antt =====
-- The theorems on cluster scaling at a cluster of three nodes.
use nomad_autoscaler.Prelude.{
  String, str_eq, ◌≡◌, ◌≢◌, ◌↔◌, ◌⊎◌, refl, true, false, List, [], ◌∷◌, All, none, some, pos,
  if◌then◌else◌, take, lookup,
}
use nomad_autoscaler.Plugins.{ok}
use nomad_autoscaler.Cluster.{
  Node, NodeId, PoolIdentifier, identifier_key_class, ScaleInReq, is_draining, unstable, succeeded,
  rejected,
}
use nomad_autoscaler.Cluster.Filter.{filter_by_class, filter_node, is_nil, identify_nodes}
use nomad_autoscaler.Cluster.ScaleIn.{
  Client, PreScaleIn, run_pre_scale_in_tasks, drain_node, ready, validate_request, prepare_for,
  prepare, identify_targets, get_remote_id_map, remote_ids, drain_identified, drain_nodes,
  list_nodes, select_nodes, filter_out_node_id, run_post_scale_in_tasks,
}
use nomad_autoscaler.Cluster.Stability.{problems, selectables, filter_by_class-eq}
use nomad_autoscaler.Cluster.Drains.{spec_of, nomad_ids, IsDrained, IsValidRequest}
use nomad_autoscaler.Cluster.Tasks.{
  DrainsVictims, run_pre_scale_in_tasks-drained, run_pre_scale_in_tasks-succeeded,
}
use nomad_autoscaler.Cluster.Readiness.{ready-eq-true_iff}
use nomad_autoscaler.Cluster.Remote.{id_func_map}

abbrev node : String → Node
node id = record {
  id = id;
  node_class = "batch";
  status = "ready";
  scheduling_eligibility = "eligible";
  drain = false;
}

abbrev nodes : List Node
nodes = node "a" ∷ node "b" ∷ node "c" ∷ []

abbrev draining : List Node
draining = node "a" ∷ record (node "d") { scheduling_eligibility = "ineligible"; drain = true } ∷ []

abbrev client : Client
client = record {
  list_nodes = ok nodes;
  node_info =
      λ id. ok (record { attributes = ("unique.platform.aws.instance-id", "i-1") ∷ []; meta = [] });
  update_drain = λ id spec. ok tt;
  drain_messages = λ id. [];
  context_error = λ id. none;
  purge = λ id. ok tt;
}

abbrev pool : PoolIdentifier
pool = record { identifier_key = identifier_key_class; value = "batch" }

-- The autoscaler runs on the node "b".
abbrev request : ScaleInReq
request = record {
  num = pos 2;
  drain_deadline = pos 900;
  ignore_system_jobs = false;
  pool_identifier = some pool;
  remote_provider = "aws_instance_id";
  node_id_strategy = "newest_create_index";
}

abbrev removed : List NodeId
removed =
    record { nomad_id = "a"; remote_id = "i-1" } ∷ record { nomad_id = "c"; remote_id = "i-1" } ∷ []

filter_by_class-eq_example : filter_by_class draining "batch" ≡ (
    if is_nil (problems "batch" draining)
    then succeeded (selectables "batch" draining)
    else rejected (unstable (take 10 (problems "batch" draining))))
filter_by_class-eq_example = filter_by_class-eq draining "batch"

draining_is_unstable : filter_by_class draining "batch" ≡ rejected (unstable (is_draining "d" ∷ []))
unfolding filter_by_class filter_node
draining_is_unstable = refl

run_pre_scale_in_tasks-drained_example :
    (r : PreScaleIn) × (run_pre_scale_in_tasks client "b" request ≡ some r)
    × ((r.drained ≡ [])
        ⊎ ((p : PoolIdentifier) × (request.pool_identifier ≡ some p)
            × IsValidRequest request
            × DrainsVictims client "b" request p r.drained))
run_pre_scale_in_tasks-drained_example = run_pre_scale_in_tasks-drained client "b" request

run_pre_scale_in_tasks-succeeded_example :
    (removed ≢ [])
    × ("a" ∷ "c" ∷ [] ≡ nomad_ids removed)
    × All (λ n. IsDrained client (spec_of request) n.nomad_id) removed
unfolding run_pre_scale_in_tasks validate_request prepare_for prepare identify_targets list_nodes
    identify_nodes filter_node select_nodes filter_out_node_id get_remote_id_map id_func_map
    remote_ids lookup drain_identified drain_nodes drain_node
run_pre_scale_in_tasks-succeeded_example =
    run_pre_scale_in_tasks-succeeded client "b" request
      (record { drained = "a" ∷ "c" ∷ []; answer = succeeded removed }) removed refl refl

ready-eq-true_iff_example : (ready client pool ≡ succeeded true) ↔ (
    (ns : List Node) × (client.list_nodes ≡ ok ns)
    × (str_eq pool.identifier_key identifier_key_class ≡ true)
    × (problems pool.value ns ≡ []))
ready-eq-true_iff_example = ready-eq-true_iff client pool

purges_all :
    run_post_scale_in_tasks client (("node_purge", "true") ∷ []) removed ≡ ("a" ∷ "c" ∷ [], [])
unfolding run_post_scale_in_tasks lookup
purges_all = refl
