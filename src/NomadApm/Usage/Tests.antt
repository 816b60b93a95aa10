-- ===== src/NomadApm/Usage/Tests.antt =====
-- The usage of the group "api" of the job "web", with numbers in place of floats.
use nomad_autoscaler.Prelude.{
  ℕ, ◌+◌, ◌*◌, ◌/◌, String, ◌≡◌, refl, [], ◌∷◌, none, some, inl, inr, ltb, pos, pos_part, ◌+ℤ◌,
}
use nomad_autoscaler.Plugins.{ok}
use nomad_autoscaler.NomadApm.{TaskGroupQuery}
use nomad_autoscaler.NomadApm.Usage.{
  Floats, AllocationStub, JobApi, get_task_group_resource_usage, calculate_task_group_result,
  group_not_found,
}

abbrev numbers : Floats ℕ
numbers = record {
  zero = 0;
  hundred = 100;
  smallest_nonzero = 1;
  max_float = 1_000_000;
  of_int = λ n. pos_part n;
  of_uint = λ n. n;
  add = λ a b. a + b;
  multiply = λ a b. a * b;
  divide = λ a b. a / b;
  less = λ a b. ltb a b;
}

abbrev stub : String → String → AllocationStub
stub state group = record { id = group; client_status = state; task_group = group }

abbrev api : JobApi ℕ
api = record {
  allocations = λ job. ok (stub "running" "api" ∷ stub "running" "db" ∷ stub "failed" "api" ∷ []);
  stats = λ id. ok (some (record { percent = 40; total_ticks = 900; memory_usage = 3_145_728 }));
  task_group = λ job group. ok (
      some (
        record { cpu = some (pos 200); memory_mb = none }
        ∷ record { cpu = some (pos 100); memory_mb = some (pos 3) }
        ∷ []));
}

abbrev asks : String → TaskGroupQuery
asks metric = record { metric = metric; job = "web"; group = "api"; operation = "avg" }

uses_cpu : get_task_group_resource_usage numbers api (asks "cpu-allocated") ≡ inr (300 ∷ [])
unfolding get_task_group_resource_usage ◌+ℤ◌
uses_cpu = refl

uses_memory : get_task_group_resource_usage numbers api (asks "memory-allocated") ≡ inr (100 ∷ [])
unfolding get_task_group_resource_usage ◌+ℤ◌
uses_memory = refl

has_no_group :
    get_task_group_resource_usage numbers
      (record api { task_group = λ job group. ok none })
      (asks "cpu-allocated")
    ≡ inl (group_not_found "api" "web")
unfolding get_task_group_resource_usage
has_no_group = refl

averages : calculate_task_group_result numbers "avg" (10 ∷ 20 ∷ []) ≡ 15
unfolding calculate_task_group_result ◌+ℤ◌
averages = refl

-- The largest of metrics that are 0 is the smallest number above 0.
starts_above_zero : calculate_task_group_result numbers "max" (0 ∷ 0 ∷ []) ≡ 1
unfolding calculate_task_group_result
starts_above_zero = refl
