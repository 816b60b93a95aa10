-- ===== src/NomadApm/Usage.antt =====
-- The resources that a task group uses: job.go. Nomad's API and the operations on floats are records of
-- functions, and the pointers to the statistics of an allocation are not nil.
mod Tests
use nomad_autoscaler.Prelude.{
  ℕ, ◌/◌, String, Bool, false, ◌||◌, not, List, [], ◌∷◌, ◌++◌, Option, none, some, ◌⊎◌, inl, inr, ℤ,
  pos, ◌+ℤ◌, if◌then◌else◌, str_eq,
}
use nomad_autoscaler.Plugins.{Result, ok, failed}
use nomad_autoscaler.NomadApm.{TaskGroupQuery}

pub record Floats (F : Type 0) : Type 0 where
  pub zero : F
  pub hundred : F
  pub smallest_nonzero : F
  pub max_float : F
  pub of_int : ℤ → F
  pub of_uint : ℕ → F
  pub add : F → F → F
  pub multiply : F → F → F
  pub divide : F → F → F
  pub less : F → F → Bool

-- What the code reads of the usage that Nomad reports of an allocation.
pub record Usage (F : Type 0) : Type 0 where
  pub percent : F
  pub total_ticks : F
  pub memory_usage : ℕ

pub record AllocationStub : Type 0 where
  pub id : String
  pub client_status : String
  pub task_group : String

-- The resources of a task, and the tasks of a group, as far as the code reads them.
pub record Task : Type 0 where
  pub cpu : Option ℤ
  pub memory_mb : Option ℤ

pub record JobApi (F : Type 0) : Type 0 where
  pub allocations : String → Result (List AllocationStub)
  pub stats : String → Result (Option (Usage F))
  pub task_group : String → String → Result (Option (List Task))

pub data UsageError : Type 0 where
  listing_failed info_failed stats_failed : String → UsageError
  group_not_found : String → String → UsageError

unfoldable pub add_known : Option ℤ → ℤ → ℤ
add_known none total = total
add_known (some n) total = total +ℤ n

unfoldable pub allocated_from : (Task → Option ℤ) → List Task → ℤ → ℤ
unfolding add_known
allocated_from f [] total = total
allocated_from f (t ∷ ts) total = allocated_from f ts (add_known (f t) total)

unfoldable pub get_task_group :
    String → String → Result (Option (List Task)) → UsageError ⊎ List Task
get_task_group job group (failed e) = inl (info_failed e)
get_task_group job group (ok none) = inl (group_not_found group job)
get_task_group job group (ok (some tasks)) = inr tasks

-- `getAllocatedCPUForTaskGroup` and `getAllocatedMemForTaskGroup`
unfoldable pub get_allocated : (Task → Option ℤ) → UsageError ⊎ List Task → UsageError ⊎ ℤ
unfolding allocated_from
get_allocated f (inl e) = inl e
get_allocated f (inr tasks) = inr (allocated_from f tasks (pos 0))

module _ {F : Type 0} (ops : Floats F) (api : JobApi F) where
  -- The share in percent of what is allocated.
  abbrev share : F → ℤ → F
  share used allocated = ops.multiply (ops.divide used (ops.of_int allocated)) ops.hundred

  abbrev with_allocated : (ℤ → Usage F → List F) → UsageError ⊎ ℤ → UsageError ⊎ (Usage F → List F)
  with_allocated f (inl e) = inl e
  with_allocated f (inr n) = inr (f n)

  -- `metricFunc`, as what it appends.
  unfoldable pub metric_func : TaskGroupQuery → UsageError ⊎ (Usage F → List F)
  unfolding get_task_group get_allocated
  metric_func q =
      let tasks = get_task_group q.job q.group (api.task_group q.job q.group) in
      if str_eq q.metric "cpu"
      then inr (λ u. u.percent ∷ [])
      else if str_eq q.metric "cpu-allocated"
      then with_allocated (λ n u. share u.total_ticks n ∷ []) (get_allocated (λ t. t.cpu) tasks)
      else if str_eq q.metric "memory"
      then inr (λ u. ops.of_uint u.memory_usage ∷ [])
      else if str_eq q.metric "memory-allocated"
      then with_allocated (λ n u. share (ops.of_uint (u.memory_usage / 1_024 / 1_024)) n ∷ [])
          (get_allocated (λ t. t.memory_mb) tasks)
      else inr (λ u. [])

  unfoldable pub is_counted : String → AllocationStub → Bool
  is_counted group a =
      if not (str_eq a.client_status "running") then false else str_eq a.task_group group

  unfoldable pub append_usage :
      (Usage F → List F) → List F → Result (Option (Usage F)) → UsageError ⊎ List F
  append_usage f resp (failed e) = inl (stats_failed e)
  append_usage f resp (ok none) = inr resp
  append_usage f resp (ok (some u)) = inr (resp ++ f u)

  unfoldable pub collect_usage :
      (Usage F → List F) → String → List AllocationStub → List F → UsageError ⊎ List F
  unfolding is_counted append_usage
  collect_usage f group [] resp = inr resp
  collect_usage f group (a ∷ rest) resp =
      elim (if is_counted group a then append_usage f resp (api.stats a.id) else inr resp) [
        | inl e ↦ inl e
        | inr resp' ↦ collect_usage f group rest resp'
      ]

  unfoldable pub get_task_group_resource_usage : TaskGroupQuery → UsageError ⊎ List F
  unfolding metric_func collect_usage
  get_task_group_resource_usage q = elim (api.allocations q.job) [
    | failed e ↦ inl (listing_failed e)
    | ok allocs ↦ elim (metric_func q) [ inl e ↦ inl e | inr f ↦ collect_usage f q.group allocs [] ]
  ]

module _ {F : Type 0} (ops : Floats F) where
  unfoldable pub add_all : List F → F → F
  add_all [] result = result
  add_all (m ∷ ms) result = add_all ms (ops.add result m)

  unfoldable pub largest : List F → F → F
  largest [] result = result
  largest (m ∷ ms) result = largest ms (if ops.less result m then m else result)

  unfoldable pub least : List F → F → F
  least [] result = result
  least (m ∷ ms) result = least ms (if ops.less m result then m else result)

  abbrev count_of : List F → ℤ
  count_of [] = pos 0
  count_of (m ∷ ms) = pos 1 +ℤ count_of ms

  unfoldable pub calculate_task_group_result : String → List F → F
  unfolding add_all largest least
  calculate_task_group_result op ms =
      if str_eq op "sum"
      then add_all ms ops.zero
      else if str_eq op "avg"
      then ops.divide (add_all ms ops.zero) (ops.of_int (count_of ms))
      else if str_eq op "max"
      then largest ms ops.smallest_nonzero
      else if str_eq op "min"
      then least ms ops.max_float
      else ops.zero
