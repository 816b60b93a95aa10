-- ===== src/NomadApm.antt =====
-- plugins/builtin/apm/nomad/plugin: the parsing of the queries that the APM plugin for Nomad gets.
mod Parts
pub mod Pool
pub mod Usage
pub mod Queries
mod Tests
use nomad_autoscaler.Prelude.{
  ℕ, String, Bool, true, false, ◌||◌, List, [], ◌∷◌, Option, none, some, if◌then◌else◌, str_eq, cut,
  split_n,
}
use nomad_autoscaler.Cluster.{PoolIdentifier}

abbrev pub query_type_task_group : String
query_type_task_group = "taskgroup"

abbrev pub query_type_node : String
query_type_node = "node"

abbrev pub query_op_percentage_allocated : String
query_op_percentage_allocated = "percentage-allocated"

-- `sum`, `avg`, `min` and `max`
abbrev pub task_group_operations : List String
task_group_operations = "sum" ∷ "avg" ∷ "min" ∷ "max" ∷ []

abbrev pub task_group_metrics : List String
task_group_metrics = "cpu" ∷ "cpu-allocated" ∷ "memory" ∷ "memory-allocated" ∷ []

abbrev pub node_metrics : List String
node_metrics = "cpu" ∷ "memory" ∷ []

-- The errors, with the text that their message names.
pub data QueryError : Type 0 where
  not_three_parts not_op_metric invalid_metric invalid_operation unsupported_type :
      String → QueryError

pub data Parsed {ℓ} (A : Type ℓ) : Type ℓ where
  parsed : A → Parsed A
  refused : QueryError → Parsed A

pub record TaskGroupQuery : Type 0 where
  pub metric : String
  pub job : String
  pub group : String
  pub operation : String

pub record NodePoolQuery : Type 0 where
  pub metric : String
  pub pool_identifier : PoolIdentifier
  pub operation : String

unfoldable pub contains : List String → String → Bool
contains [] item = false
contains (s ∷ ss) item = str_eq s item || contains ss item

-- Three parts, at the characters `/`, code 47, or `_`, code 95.
unfoldable pub three_parts : List String → Option (String × String × String)
three_parts [] = none
three_parts (a ∷ []) = none
three_parts (a ∷ b ∷ []) = none
three_parts (a ∷ b ∷ c ∷ []) = some (a, b, c)
three_parts (a ∷ b ∷ c ∷ d ∷ rest) = none

unfoldable pub task_group_op : String → String → String → String → Parsed TaskGroupQuery
unfolding contains
task_group_op group job op metric =
    if contains task_group_metrics metric
    then (if contains task_group_operations op
        then parsed (record { metric = metric; job = job; group = group; operation = op })
        else refused (invalid_operation op))
    else refused (invalid_metric metric)

unfoldable pub task_group_parts : String → Option (String × String × String) → Parsed TaskGroupQuery
unfolding task_group_op three_parts split_n
task_group_parts q none = refused (not_three_parts q)
task_group_parts q (some (main, group, job)) = elim (three_parts (split_n 3 95 main)) [
  | none ↦ refused (not_op_metric main)
  | some (type_part, op, metric) ↦ task_group_op group job op metric
]

unfoldable pub parse_task_group_query : String → Parsed TaskGroupQuery
unfolding task_group_parts
parse_task_group_query q = task_group_parts q (three_parts (split_n 3 47 q))

unfoldable pub node_op : PoolIdentifier → String → String → Parsed NodePoolQuery
unfolding contains
node_op p op metric =
    if contains node_metrics metric
    then (if str_eq op query_op_percentage_allocated
        then parsed (record { metric = metric; pool_identifier = p; operation = op })
        else refused (invalid_operation op))
    else refused (invalid_metric metric)

unfoldable pub node_parts : String → Option (String × String × String) → Parsed NodePoolQuery
unfolding node_op three_parts split_n
node_parts q none = refused (not_three_parts q)
node_parts q (some (main, value, key)) = elim (three_parts (split_n 3 95 main)) [
  | none ↦ refused (not_op_metric main)
  | some (type_part, op, metric) ↦
      node_op (record { identifier_key = key; value = value }) op metric
]

unfoldable pub parse_node_pool_query : String → Parsed NodePoolQuery
unfolding node_parts
parse_node_pool_query q = node_parts q (three_parts (split_n 3 47 q))

-- The first part of `strings.Split(q, "_")`.
unfoldable pub query_type : String → String
unfolding cut
query_type q = elim (cut 95 q) [ none ↦ q | some (a, b) ↦ a ]

-- What `Query` goes on with: a query on a task group or one on a pool of nodes.
pub data Query : Type 0 where
  task_group_query : TaskGroupQuery → Query
  node_pool_query : NodePoolQuery → Query

abbrev pub parsed_as {ℓ} : {A : Type ℓ} → (A → Query) → Parsed A → Parsed Query
parsed_as f (parsed q) = parsed (f q)
parsed_as f (refused e) = refused e

unfoldable pub query : String → Parsed Query
unfolding query_type parse_task_group_query parse_node_pool_query
query q =
    if str_eq (query_type q) query_type_task_group
    then parsed_as task_group_query (parse_task_group_query q)
    else if str_eq (query_type q) query_type_node
    then parsed_as node_pool_query (parse_node_pool_query q)
    else refused (unsupported_type (query_type q))
