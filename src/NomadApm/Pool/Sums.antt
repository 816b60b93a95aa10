-- ===== src/NomadApm/Pool/Sums.antt =====
-- The resources of a pool as sums over its nodes and their allocations.
use nomad_autoscaler.Prelude.{
  String, Bool, not, ◌&&◌, ◌≡◌, refl, ap, sym, ◌∙◌, List, [], ◌∷◌, inr, ℤ, pos, ◌+ℤ◌, ◌-ℤ◌, All,
  if◌then◌else◌, str_eq, +ℤ_parts, eq_of_parts, arith,
}
use nomad_autoscaler.Plugins.{ok}
use nomad_autoscaler.Cluster.{Node, PoolIdentifier, succeeded}
use nomad_autoscaler.Cluster.Filter.{identify_nodes}
use nomad_autoscaler.NomadApm.Pool.{
  NodeApi, NodeCapacity, Allocation, PoolResources, NodePoolResources, add_allocation,
  add_allocations, add_capacity, add_node, add_nodes, pool_of, get_pool_resources, no_resources,
  is_server_terminal_status, is_client_terminal_status,
}

module _ {ℓ} {A : Type ℓ} (f : A → ℤ) where
  abbrev pub sum : List A → ℤ
  sum [] = pos 0
  sum (x ∷ xs) = f x +ℤ sum xs

+ℤ_assoc : (a b c : ℤ) → (a +ℤ b) +ℤ c ≡ a +ℤ (b +ℤ c)
+ℤ_assoc a b c =
    eq_of_parts _ _
      (omega (arith, +ℤ_parts (a +ℤ b) c, +ℤ_parts a b, +ℤ_parts a (b +ℤ c), +ℤ_parts b c))

+ℤ_zero : (a : ℤ) → a +ℤ pos 0 ≡ a
+ℤ_zero a = eq_of_parts _ _ (omega (arith, +ℤ_parts a (pos 0)))

zero_+ℤ : (a : ℤ) → pos 0 +ℤ a ≡ a
zero_+ℤ a = eq_of_parts _ _ (omega (arith, +ℤ_parts (pos 0) a))

-- Nomad wants the allocation to run, and it has not ended.
abbrev pub is_live : Allocation → Bool
is_live a =
    str_eq a.desired_status "run"
    && not (str_eq a.client_status "complete")
    && not (str_eq a.client_status "failed")
    && not (str_eq a.client_status "lost")

abbrev pub live_cpu : Allocation → ℤ
live_cpu a = if is_live a then a.cpu else pos 0

abbrev pub live_memory : Allocation → ℤ
live_memory a = if is_live a then a.memory_mb else pos 0

abbrev plus : PoolResources → ℤ → ℤ → PoolResources
plus p c m = record { cpu = p.cpu +ℤ c; mem = p.mem +ℤ m }

plus_assoc :
    (p : PoolResources) (c m c' m' : ℤ) → plus (plus p c m) c' m' ≡ plus p (c +ℤ c') (m +ℤ m')
plus_assoc p c m c' m' = rw (+ℤ_assoc p.cpu c c', +ℤ_assoc p.mem m m') refl

plus-zero : (p : PoolResources) → plus p (pos 0) (pos 0) ≡ p
plus-zero p = rw (+ℤ_zero p.cpu, +ℤ_zero p.mem) refl

add_allocation-plus :
    (a : Allocation) (p : PoolResources) → add_allocation a p ≡ plus p (live_cpu a) (live_memory a)
unfolding add_allocation is_server_terminal_status is_client_terminal_status
add_allocation-plus a p = ground (arith, sym (plus-zero p))

add_allocations-plus :
    (allocs : List Allocation) (p : PoolResources)
    → add_allocations allocs p ≡ plus p (sum live_cpu allocs) (sum live_memory allocs)
unfolding add_allocations
add_allocations-plus [] p = sym (plus-zero p)
add_allocations-plus (a ∷ rest) p =
    ap (add_allocations rest) (add_allocation-plus a p)
    ∙ (add_allocations-plus rest (plus p (live_cpu a) (live_memory a))
        ∙ plus_assoc p (live_cpu a) (live_memory a) _ _)

abbrev gathered : NodePoolResources → ℤ → ℤ → ℤ → ℤ → NodePoolResources
gathered r c m c' m' = record {
  allocatable = plus r.allocatable c m;
  allocated = plus r.allocated c' m';
}

gathered_assoc :
    (r : NodePoolResources) (c m d k c' m' d' k' : ℤ)
    → gathered (gathered r c m d k) c' m' d' k' ≡ gathered r (c +ℤ c') (m +ℤ m') (d +ℤ d') (k +ℤ k')
gathered_assoc r c m d k c' m' d' k' =
    rw (plus_assoc r.allocatable c m c' m', plus_assoc r.allocated d k d' k') refl

gathered-zero : (r : NodePoolResources) → r ≡ gathered r (pos 0) (pos 0) (pos 0) (pos 0)
gathered-zero r = rw (plus-zero r.allocatable, plus-zero r.allocated) refl

add_nodes-cons :
    (api : NodeApi) (n : Node) (ns : List Node) (r r' : NodePoolResources)
    → add_node n.id (api.node_capacity n.id) (api.allocations n.id) r ≡ inr r'
    → add_nodes api (n ∷ ns) r ≡ add_nodes api ns r'
unfolding add_nodes
add_nodes-cons api n ns r r' e = rw (add_nodes, e) refl

module _ (api : NodeApi) (capacity : String → NodeCapacity)
    (allocs : String → List Allocation) where
  -- Nomad gives these resources and allocations of a node.
  abbrev pub Reports : Node → Type 0
  Reports n =
      (api.node_capacity n.id ≡ ok (capacity n.id)) × (api.allocations n.id ≡ ok (allocs n.id))

  abbrev free_cpu : Node → ℤ
  free_cpu n = (capacity n.id).cpu_shares -ℤ (capacity n.id).reserved_cpu_shares

  abbrev free_memory : Node → ℤ
  free_memory n = (capacity n.id).memory_mb -ℤ (capacity n.id).reserved_memory_mb

  abbrev used_cpu : Node → ℤ
  used_cpu n = sum live_cpu (allocs n.id)

  abbrev used_memory : Node → ℤ
  used_memory n = sum live_memory (allocs n.id)

  add_node-gathered :
      (n : Node) (r : NodePoolResources)
      → Reports n
      → add_node n.id (api.node_capacity n.id) (api.allocations n.id) r
        ≡ inr (gathered r (free_cpu n) (free_memory n) (used_cpu n) (used_memory n))
  unfolding add_node add_capacity
  add_node-gathered n r (cap, als) =
      rw (cap, als, add_node, add_allocations-plus (allocs n.id) r.allocated) refl

  add_nodes-gathered :
      (ns : List Node) (r : NodePoolResources)
      → All Reports ns
      → add_nodes api ns r
        ≡ inr (
            gathered r
              (sum free_cpu ns)
              (sum free_memory ns)
              (sum used_cpu ns)
              (sum used_memory ns))
  add_nodes-gathered [] r all = unfold add_nodes in ap inr (gathered-zero r)
  add_nodes-gathered (n ∷ ns) r (told, rest) =
      add_nodes-cons api n ns r _ (add_node-gathered n r told)
      ∙ (add_nodes-gathered ns _ rest
          ∙ ap inr
              (gathered_assoc r (free_cpu n) (free_memory n) (used_cpu n) (used_memory n) _ _ _ _))

-- The resources of a pool that has a node, if Nomad answers for each of its nodes. What can be allocated is
-- the sum over the nodes of what a node has, less what is reserved on it. What is allocated is the sum over
-- the allocations of the nodes that Nomad wants to run and that have not ended.
pub get_pool_resources-sum :
    (api : NodeApi) (p : PoolIdentifier) (nodes : List Node) (n : Node) (ns : List Node)
    (capacity : String → NodeCapacity) (allocs : String → List Allocation)
    → api.list_nodes ≡ ok nodes
    → identify_nodes p nodes ≡ succeeded (n ∷ ns)
    → All (Reports api capacity allocs) (n ∷ ns)
    → (r : NodePoolResources) × (get_pool_resources api p ≡ inr r)
      × (r.allocatable.cpu
          ≡ sum (λ m. (capacity m.id).cpu_shares -ℤ (capacity m.id).reserved_cpu_shares) (n ∷ ns))
      × (r.allocatable.mem
          ≡ sum (λ m. (capacity m.id).memory_mb -ℤ (capacity m.id).reserved_memory_mb) (n ∷ ns))
      × (r.allocated.cpu ≡ sum (λ m. sum live_cpu (allocs m.id)) (n ∷ ns))
      × (r.allocated.mem ≡ sum (λ m. sum live_memory (allocs m.id)) (n ∷ ns))
unfolding get_pool_resources
get_pool_resources-sum api p nodes n ns capacity allocs listed identified told = (
  _,
  rw (get_pool_resources, listed, identified, pool_of)
      (add_nodes-gathered api capacity allocs (n ∷ ns) no_resources told),
  zero_+ℤ _,
  zero_+ℤ _,
  zero_+ℤ _,
  zero_+ℤ _,
)
