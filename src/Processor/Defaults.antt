-- ===== src/Processor/Defaults.antt =====
-- `ApplyPolicyDefaults` and `ValidatePolicy`.
use nomad_autoscaler.Prelude.{
  ◌≡◌, refl, ◌↔◌, ◌≢◌, List, [], ◌∷◌, ℤ, pos, eqb_ℤ_iff, ◌≤ℤ◌, eq_iff, arith, map,
}
use nomad_autoscaler.Sdk.Policy.{ScalingPolicy, ScalingPolicyCheck}
use nomad_autoscaler.Processor.{
  ConfigDefaults, default_check, or_default, apply_policy_defaults, validate_policy,
  default_query_window,
}

or_default_idempotent : (n d : ℤ) → or_default (or_default n d) d ≡ or_default n d
or_default_idempotent n d = ground arith

default_checks_idempotent :
    (cs : List ScalingPolicyCheck) → map default_check (map default_check cs) ≡ map default_check cs
unfolding default_check
default_checks_idempotent [] = refl
default_checks_idempotent (c ∷ cs) =
    rw (or_default_idempotent c.query_window default_query_window, default_checks_idempotent cs)
      refl

-- Applying the defaults a second time, as a reload of a policy does, changes nothing, and a cooldown,
-- interval or query window that is set is kept.
pub apply_policy_defaults_idempotent :
    (d : ConfigDefaults) (p : ScalingPolicy)
    → (apply_policy_defaults d (apply_policy_defaults d p) ≡ apply_policy_defaults d p)
      × (p.cooldown ≢ pos 0 → (apply_policy_defaults d p).cooldown ≡ p.cooldown)
      × (p.evaluation_interval ≢ pos 0
          → (apply_policy_defaults d p).evaluation_interval ≡ p.evaluation_interval)
unfolding apply_policy_defaults
apply_policy_defaults_idempotent d p = (
  rw
      (
        or_default_idempotent p.cooldown d.default_cooldown,
        or_default_idempotent p.evaluation_interval d.default_evaluation_interval,
        default_checks_idempotent p.checks,
      )
      refl,
  λ h. ground (arith, eqb_ℤ_iff p.cooldown (pos 0)),
  λ h. ground (arith, eqb_ℤ_iff p.evaluation_interval (pos 0)),
)

-- A policy is valid exactly when it has an ID and limits with 0 ≤ min ≤ max.
pub validate_policy-eq-nil_iff :
    (p : ScalingPolicy)
    → (validate_policy p ≡ []) ↔ ((p.id ≢ "") × (pos 0 ≤ℤ p.min) × (p.min ≤ℤ p.max))
unfolding validate_policy
validate_policy-eq-nil_iff p =
    (λ h. ground (arith, eq_iff p.id ""), λ h. ground (arith, eq_iff p.id ""))
