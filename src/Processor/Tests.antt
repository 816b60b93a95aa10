-- ===== src/Processor/Tests.antt =====
-- The processor on concrete policies and checks.
use nomad_autoscaler.Prelude.{◌≡◌, ◌≢◌, ◌↔◌, [], ◌∷◌, some, none, pos, ◌≤ℤ◌}
use nomad_autoscaler.Sdk.Policy.{
  ScalingPolicy, ScalingPolicyCheck, ScalingPolicyTarget, zero_policy,
}
use nomad_autoscaler.Processor.{
  ConfigDefaults, apply_policy_defaults, validate_policy, canonicalize_check, internal_apm_nomad,
}
use nomad_autoscaler.Processor.Defaults.{
  apply_policy_defaults_idempotent, validate_policy-eq-nil_iff,
}
use nomad_autoscaler.Processor.Queries.{canonicalize_check_idempotent}

abbrev defaults : ConfigDefaults
defaults = record { default_evaluation_interval = pos 10; default_cooldown = pos 300 }

abbrev short_check : ScalingPolicyCheck
short_check = record {
  name = "check";
  source = "";
  query = "avg_cpu";
  query_window = pos 0;
  strategy = none;
}

abbrev job_target : ScalingPolicyTarget
job_target = record { name = "nomad-target"; config = ("Job", "example") ∷ ("Group", "cache") ∷ [] }

abbrev example_policy : ScalingPolicy
example_policy = record zero_policy {
  id = "p";
  max = pos 10;
  cooldown = pos 60;
  checks = short_check ∷ [];
}

applies_defaults_twice :
    (apply_policy_defaults defaults (apply_policy_defaults defaults example_policy)
      ≡ apply_policy_defaults defaults example_policy)
    × (pos 60 ≢ pos 0 → (apply_policy_defaults defaults example_policy).cooldown ≡ pos 60)
    × (pos 0 ≢ pos 0 → (apply_policy_defaults defaults example_policy).evaluation_interval ≡ pos 0)
applies_defaults_twice = apply_policy_defaults_idempotent defaults example_policy

validate_policy-eq-nil_iff_example :
    (validate_policy example_policy ≡ [])
    ↔ ((example_policy.id ≢ "") × (pos 0 ≤ℤ pos 0) × (pos 0 ≤ℤ pos 10))
validate_policy-eq-nil_iff_example = validate_policy-eq-nil_iff example_policy

canonicalize_check_idempotent_example :
    canonicalize_check
      (internal_apm_nomad ∷ [])
      (canonicalize_check (internal_apm_nomad ∷ []) short_check (some job_target))
      (some job_target)
    ≡ canonicalize_check (internal_apm_nomad ∷ []) short_check (some job_target)
canonicalize_check_idempotent_example =
    canonicalize_check_idempotent (internal_apm_nomad ∷ []) short_check (some job_target)
