-- ===== src/NomadApm/Pool.antt =====
-- The resources of a pool of nodes: node.go. Nomad's API is a record of functions, and its pointers to
-- resources are not nil.
pub mod Sums
mod Tests
use nomad_autoscaler.Prelude.{
  String, Bool, not, ◌||◌, List, [], ◌∷◌, ◌⊎◌, inl, inr, ℤ, pos, eqb_ℤ, ◌+ℤ◌, ◌-ℤ◌, if◌then◌else◌,
  str_eq,
}
use nomad_autoscaler.Plugins.{Result, ok, failed}
use nomad_autoscaler.Cluster.{Node, PoolIdentifier, ClusterError, Attempt, succeeded, rejected}
use nomad_autoscaler.Cluster.Filter.{identify_nodes}

pub record PoolResources : Type 0 where
  pub cpu : ℤ
  pub mem : ℤ

pub record NodePoolResources : Type 0 where
  pub allocatable : PoolResources
  pub allocated : PoolResources

-- What the code reads of `api.Node`.
pub record NodeCapacity : Type 0 where
  pub cpu_shares : ℤ
  pub memory_mb : ℤ
  pub reserved_cpu_shares : ℤ
  pub reserved_memory_mb : ℤ

-- What the code reads of `api.Allocation`.
pub record Allocation : Type 0 where
  pub desired_status : String
  pub client_status : String
  pub cpu : ℤ
  pub memory_mb : ℤ

pub record NodeApi : Type 0 where
  pub list_nodes : Result (List Node)
  pub node_capacity : String → Result NodeCapacity
  pub allocations : String → Result (List Allocation)

pub data PoolError : Type 0 where
  list_failed : String → PoolError
  not_identified : ClusterError → PoolError
  no_nodes zero_memory zero_cpu : PoolError
  allocatable_failed allocated_failed : String → String → PoolError

unfoldable pub is_server_terminal_status : Allocation → Bool
is_server_terminal_status a = not (str_eq a.desired_status "run")

unfoldable pub is_client_terminal_status : Allocation → Bool
is_client_terminal_status a =
    str_eq a.client_status "complete"
    || (str_eq a.client_status "failed" || str_eq a.client_status "lost")

unfoldable pub add_allocation : Allocation → PoolResources → PoolResources
add_allocation a p =
    if is_server_terminal_status a || is_client_terminal_status a
    then p
    else record { cpu = p.cpu +ℤ a.cpu; mem = p.mem +ℤ a.memory_mb }

unfoldable pub add_allocations : List Allocation → PoolResources → PoolResources
add_allocations [] p = p
add_allocations (a ∷ rest) p = add_allocations rest (add_allocation a p)

unfoldable pub add_capacity : NodeCapacity → PoolResources → PoolResources
add_capacity n p = record {
  cpu = p.cpu +ℤ (n.cpu_shares -ℤ n.reserved_cpu_shares);
  mem = p.mem +ℤ (n.memory_mb -ℤ n.reserved_memory_mb);
}

unfoldable pub add_node :
    String
    → Result NodeCapacity
    → Result (List Allocation)
    → NodePoolResources
    → PoolError ⊎ NodePoolResources
add_node id (failed e) answer r = inl (allocatable_failed id e)
add_node id (ok n) (failed e) r = inl (allocated_failed id e)
add_node id (ok n) (ok allocs) r = inr (record {
  allocatable = add_capacity n r.allocatable;
  allocated = add_allocations allocs r.allocated;
})

unfoldable pub add_nodes : NodeApi → List Node → NodePoolResources → PoolError ⊎ NodePoolResources
add_nodes api [] r = inr r
add_nodes api (n ∷ ns) r = elim (add_node n.id (api.node_capacity n.id) (api.allocations n.id) r) [
  | inl e ↦ inl e
  | inr r' ↦ add_nodes api ns r'
]

abbrev pub no_resources : NodePoolResources
no_resources = record {
  allocatable = record { cpu = pos 0; mem = pos 0 };
  allocated = record { cpu = pos 0; mem = pos 0 };
}

unfoldable pub pool_of : NodeApi → Attempt (List Node) → PoolError ⊎ NodePoolResources
unfolding add_nodes
pool_of api (rejected e) = inl (not_identified e)
pool_of api (succeeded []) = inl no_nodes
pool_of api (succeeded (n ∷ ns)) = add_nodes api (n ∷ ns) no_resources

unfoldable pub get_pool_resources : NodeApi → PoolIdentifier → PoolError ⊎ NodePoolResources
unfolding pool_of
get_pool_resources api p = elim api.list_nodes [
  | failed e ↦ inl (list_failed e)
  | ok nodes ↦ pool_of api (identify_nodes p nodes)
]

-- The share of a pool that is allocated. `calculate` is the division of `calculateNodePoolResult` on the
-- two numbers as floats; the metric is one that the parser lets through.
unfoldable pub pool_value {ℓ} :
    {F : Type ℓ} → (ℤ → ℤ → F) → String → NodePoolResources → PoolError ⊎ F
pool_value calculate metric r =
    if str_eq metric "memory"
    then (if eqb_ℤ r.allocatable.mem (pos 0)
        then inl zero_memory
        else inr (calculate r.allocated.mem r.allocatable.mem))
    else if eqb_ℤ r.allocatable.cpu (pos 0)
    then inl zero_cpu
    else inr (calculate r.allocated.cpu r.allocatable.cpu)
