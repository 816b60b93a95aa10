-- ===== src/NomadApm/Pool/Tests.antt =====
-- The resources of a pool of two nodes.
use nomad_autoscaler.Prelude.{String, ◌≡◌, refl, List, [], ◌∷◌, inl, false, pos, inr, ◌+ℤ◌, ◌-ℤ◌}
use nomad_autoscaler.Plugins.{ok}
use nomad_autoscaler.Cluster.{Node, PoolIdentifier, identifier_key_class}
use nomad_autoscaler.Cluster.Filter.{identify_nodes, filter_node}
use nomad_autoscaler.NomadApm.Pool.{
  NodeApi, NodeCapacity, Allocation, NodePoolResources, get_pool_resources, pool_value, zero_memory,
  no_resources,
}
use nomad_autoscaler.NomadApm.Pool.Sums.{get_pool_resources-sum}

abbrev node : String → Node
node id = record {
  id = id;
  node_class = "batch";
  status = "ready";
  scheduling_eligibility = "eligible";
  drain = false;
}

abbrev capacity : String → NodeCapacity
capacity id = record {
  cpu_shares = pos 4000;
  memory_mb = pos 8000;
  reserved_cpu_shares = pos 100;
  reserved_memory_mb = pos 500;
}

abbrev alloc : String → Allocation
alloc state = record {
  desired_status = "run";
  client_status = state;
  cpu = pos 300;
  memory_mb = pos 256;
}

abbrev allocs : String → List Allocation
allocs id = alloc "running" ∷ alloc "failed" ∷ []

abbrev api : NodeApi
api = record {
  list_nodes = ok (node "a" ∷ node "b" ∷ []);
  node_capacity = λ id. ok (capacity id);
  allocations = λ id. ok (allocs id);
}

abbrev pool : PoolIdentifier
pool = record { identifier_key = identifier_key_class; value = "batch" }

get_pool_resources-sum_example :
    (r : NodePoolResources) × (get_pool_resources api pool ≡ inr r)
    × (r.allocatable.cpu ≡ pos 7800)
    × (r.allocatable.mem ≡ pos 15000)
    × (r.allocated.cpu ≡ pos 600)
    × (r.allocated.mem ≡ pos 512)
unfolding identify_nodes filter_node ◌+ℤ◌ ◌-ℤ◌
get_pool_resources-sum_example =
    get_pool_resources-sum api pool (node "a" ∷ node "b" ∷ []) (node "a") (node "b" ∷ []) capacity
      allocs refl refl ((refl, refl), ((refl, refl), tt))

empty_pool : pool_value (λ a b. a) "memory" no_resources ≡ inl zero_memory
unfolding pool_value
empty_pool = refl
