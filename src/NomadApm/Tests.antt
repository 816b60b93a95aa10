-- ===== src/NomadApm/Tests.antt =====
-- The queries of checks of the job "web", and of pools of nodes.
use nomad_autoscaler.Prelude.{String, ◌≡◌, refl, [], ◌∷◌, inl, lookup, has_code}
use nomad_autoscaler.Sdk.Policy.{ScalingPolicyTarget, is_job_task_group_target, is_node_pool_target}
use nomad_autoscaler.Processor.{full_query}
use nomad_autoscaler.NomadApm.{
  query, task_group_query, node_pool_query, parsed, refused, contains, not_op_metric,
  unsupported_type,
}
use nomad_autoscaler.NomadApm.Queries.{query-full_query, meant}

abbrev web : ScalingPolicyTarget
web = record { name = "nomad-target"; config = ("Job", "web/eu") ∷ ("Group", "api") ∷ [] }

abbrev pool : String → ScalingPolicyTarget
pool name = record { name = "aws-asg"; config = ("node_class", name) ∷ [] }

query-full_query_example : query (full_query "avg_cpu" web) ≡ parsed (meant "avg" "cpu" web)
unfolding contains has_code is_job_task_group_target lookup
query-full_query_example = query-full_query "avg" "cpu" web (inl (refl, refl, refl, refl))

-- The job may have a `/` in its name.
reads :
    query "taskgroup_avg_cpu-allocated/api/web/eu"
    ≡ parsed (
        task_group_query
          (record { metric = "cpu-allocated"; job = "web/eu"; group = "api"; operation = "avg" }))
unfolding query
reads = refl

-- A `/` in the class of nodes gives another class and an unknown key.
misreads :
    query (full_query "percentage-allocated_cpu" (pool "a/b"))
    ≡ parsed (
        node_pool_query (record {
          metric = "cpu";
          pool_identifier = record { identifier_key = "b/class"; value = "a" };
          operation = "percentage-allocated";
        }))
unfolding query full_query is_job_task_group_target lookup is_node_pool_target
misreads = refl

no_metric : query "taskgroup_avg/api/web" ≡ refused (not_op_metric "taskgroup_avg")
unfolding query
no_metric = refl

no_type : query "avg" ≡ refused (unsupported_type "avg")
unfolding query
no_type = refl
