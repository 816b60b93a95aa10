-- ===== src/NomadApm/Queries.antt =====
-- The queries that the processor of policies writes, as the APM plugin for Nomad reads them.
use nomad_autoscaler.Prelude.{
  String, str_append, ◌≡◌, ◌⊎◌, refl, true, false, has_code, ◌∙◌, ap, inl, inr, if◌then◌else◌,
}
use nomad_autoscaler.Sdk.Policy.{
  ScalingPolicyTarget, is_job_task_group_target, is_node_pool_target, target_config_key_job,
  target_config_key_task_group, target_config_key_class,
}
use nomad_autoscaler.Processor.{full_query, config_value}
use nomad_autoscaler.NomadApm.{
  query, Query, task_group_query, node_pool_query, parsed, contains, task_group_operations,
  task_group_metrics, node_metrics, query_op_percentage_allocated,
}
use nomad_autoscaler.Cluster.{identifier_key_class}
use nomad_autoscaler.NomadApm.Parts.{
  contains-has_code, head_of, tail_of, query-head_of, query_type-head_of,
  parse_task_group_query-head_of, parse_node_pool_query-head_of,
}

-- Reading a short query of a task group back.
query-task_group :
    (op metric group job : String)
    → contains task_group_operations op ≡ true
    → contains task_group_metrics metric ≡ true
    → has_code 47 group ≡ false
    → query (str_append (head_of "taskgroup" op metric) (tail_of group job))
      ≡ parsed
          (task_group_query (record { metric = metric; job = job; group = group; operation = op }))
unfolding query has_code
query-task_group op metric group job op_known metric_known in_group =
    let no_slash = contains-has_code 47 task_group_operations op refl op_known in
    let no_bar = contains-has_code 95 task_group_operations op refl op_known in
    let in_metric = contains-has_code 47 task_group_metrics metric refl metric_known in
    let read =
      parse_task_group_query-head_of op metric group job no_slash no_bar in_metric in_group op_known
        metric_known in
    let is_type = query_type-head_of "taskgroup" op metric (tail_of group job) refl in
    rw (is_type, read) refl

query-node_pool :
    (metric value key : String)
    → contains node_metrics metric ≡ true
    → has_code 47 value ≡ false
    → query (str_append (head_of "node" "percentage-allocated" metric) (tail_of value key))
      ≡ parsed (
          node_pool_query (record {
            metric = metric;
            pool_identifier = record { identifier_key = key; value = value };
            operation = "percentage-allocated";
          }))
unfolding query has_code
query-node_pool metric value key metric_known in_value =
    let in_metric = contains-has_code 47 node_metrics metric refl metric_known in
    let read = parse_node_pool_query-head_of metric value key in_metric in_value metric_known in
    let is_type =
      query_type-head_of "node" "percentage-allocated" metric (tail_of value key) refl in
    rw (is_type, read) refl

full_query-job :
    (op metric : String) (t : ScalingPolicyTarget)
    → is_job_task_group_target t ≡ true
    → full_query (str_append op (str_append "_" metric)) t
      ≡ str_append (head_of "taskgroup" op metric) (
          tail_of
            (config_value target_config_key_task_group t.config)
            (config_value target_config_key_job t.config))
unfolding full_query
full_query-job op metric t job = rw (job, query-head_of "taskgroup" op metric) refl

full_query-pool :
    (op metric : String) (t : ScalingPolicyTarget)
    → is_job_task_group_target t ≡ false
    → is_node_pool_target t ≡ true
    → full_query (str_append op (str_append "_" metric)) t
      ≡ str_append
          (head_of "node" op metric)
          (tail_of (config_value target_config_key_class t.config) identifier_key_class)
unfolding full_query
full_query-pool op metric t no_job pool = rw (no_job, pool, query-head_of "node" op metric) refl

-- What a short query `<op>_<metric>` of a check asks for.
abbrev pub meant : String → String → ScalingPolicyTarget → Query
meant op metric t =
    if is_job_task_group_target t
    then task_group_query (record {
      metric = metric;
      job = config_value target_config_key_job t.config;
      group = config_value target_config_key_task_group t.config;
      operation = op;
    })
    else node_pool_query (record {
      metric = metric;
      pool_identifier = record {
        identifier_key = identifier_key_class;
        value = config_value target_config_key_class t.config;
      };
      operation = op;
    })

-- The short query `<op>_<metric>` of a check makes a round trip: the APM plugin for Nomad reads the query
-- that the processor writes for it, and gets the operation, the metric, and the job and the group or the
-- class of nodes of the target. The conditions are that the operation and the metric are known for a target
-- of this kind, and that the name of the group or of the class has no `/`.
pub query-full_query :
    (op metric : String) (t : ScalingPolicyTarget)
    → ((is_job_task_group_target t ≡ true)
        × (contains task_group_operations op ≡ true)
        × (contains task_group_metrics metric ≡ true)
        × (has_code 47 (config_value target_config_key_task_group t.config) ≡ false))
      ⊎ ((is_job_task_group_target t ≡ false)
          × (is_node_pool_target t ≡ true)
          × (op ≡ query_op_percentage_allocated)
          × (contains node_metrics metric ≡ true)
          × (has_code 47 (config_value target_config_key_class t.config) ≡ false))
    → query (full_query (str_append op (str_append "_" metric)) t) ≡ parsed (meant op metric t)
unfolding full_query
query-full_query op metric t (inl (job, op_known, metric_known, in_group)) =
    ap query (full_query-job op metric t job)
    ∙ (query-task_group op metric _ _ op_known metric_known in_group ∙ rw job refl)
query-full_query op metric t (inr (no_job, pool, is_op, metric_known, in_class)) =
    let known : op ≡ "percentage-allocated" = is_op in
    ap query (full_query-pool op metric t no_job pool)
    ∙ rw (known, no_job) (query-node_pool metric _ _ metric_known in_class)
