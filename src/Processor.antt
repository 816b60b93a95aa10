-- ===== src/Processor.antt =====
-- policy/policy.go: the defaults, the validation and the canonical queries of policies.
pub mod Defaults
pub mod Queries
mod Tests
use nomad_autoscaler.Prelude.{
  ℕ, String, Bool, true, false, not, ◌&&◌, ◌||◌, List, [], ◌∷◌, ◌++◌, Option, none, some, Map,
  lookup, ℤ, pos, eqb_ℤ, ltb_ℤ, if◌then◌else◌, str_eq, str_append, map, has_code,
}
use nomad_autoscaler.Sdk.Policy.{
  ScalingPolicy, ScalingPolicyCheck, ScalingPolicyTarget, is_job_task_group_target,
  is_node_pool_target, target_config_key_job, target_config_key_task_group, target_config_key_class,
}

pub record ConfigDefaults : Type 0 where
  pub default_evaluation_interval : ℤ
  pub default_cooldown : ℤ

-- A minute.
abbrev pub default_query_window : ℤ
default_query_window = pos 60000000000

abbrev pub internal_apm_nomad : String
internal_apm_nomad = "nomad-apm"

abbrev pub or_default : ℤ → ℤ → ℤ
or_default n d = if eqb_ℤ n (pos 0) then d else n

unfoldable pub default_check : ScalingPolicyCheck → ScalingPolicyCheck
default_check c = record c { query_window = or_default c.query_window default_query_window }

unfoldable pub apply_policy_defaults : ConfigDefaults → ScalingPolicy → ScalingPolicy
apply_policy_defaults d p = record p {
  cooldown = or_default p.cooldown d.default_cooldown;
  evaluation_interval = or_default p.evaluation_interval d.default_evaluation_interval;
  checks = map default_check p.checks;
}

pub data PolicyError : Type 0 where
  id_empty min_negative max_negative min_above_max : PolicyError

abbrev reported : Bool → PolicyError → List PolicyError
reported b e = if b then e ∷ [] else []

-- The errors that are collected, in their order.
unfoldable pub validate_policy : ScalingPolicy → List PolicyError
validate_policy p =
    reported (str_eq p.id "") id_empty
    ++ reported (ltb_ℤ p.min (pos 0)) min_negative
    ++ reported (ltb_ℤ p.max (pos 0)) max_negative
    ++ reported (ltb_ℤ p.max p.min) min_above_max

unfoldable pub is_nomad_apm_query : List String → String → Bool
is_nomad_apm_query [] source = false
is_nomad_apm_query (name ∷ names) source = str_eq source name || is_nomad_apm_query names source

-- Two parts at the first `_`, code 95, and no `/`, code 47.
unfoldable pub is_short_query : String → Bool
unfolding has_code
is_short_query q = has_code 95 q && not (has_code 47 q)

abbrev pub config_value : String → Map String → String
config_value key m = elim (lookup key m) [ none ↦ "" | some v ↦ v ]

abbrev pub job_query : String → ScalingPolicyTarget → String
job_query q t = str_append "taskgroup_" (
    str_append q (
      str_append "/" (
        str_append (config_value target_config_key_task_group t.config)
          (str_append "/" (config_value target_config_key_job t.config)))))

abbrev pub node_query : String → ScalingPolicyTarget → String
node_query q t = str_append "node_" (
    str_append q
      (str_append "/" (str_append (config_value target_config_key_class t.config) "/class")))

unfoldable pub full_query : String → ScalingPolicyTarget → String
full_query q t =
    if is_job_task_group_target t
    then job_query q t
    else if is_node_pool_target t
    then node_query q t
    else q

-- The check is not nil.
unfoldable pub canonicalize_apm_query :
    List String → ScalingPolicyCheck → Option ScalingPolicyTarget → ScalingPolicyCheck
canonicalize_apm_query names c none = c
canonicalize_apm_query names c (some t) =
    if not (is_nomad_apm_query names c.source)
    then c
    else if not (is_short_query c.query)
    then c
    else record c { query = full_query c.query t }

unfoldable pub canonicalize_check :
    List String → ScalingPolicyCheck → Option ScalingPolicyTarget → ScalingPolicyCheck
unfolding canonicalize_apm_query
canonicalize_check names c t =
    canonicalize_apm_query names
      (record c { source = if str_eq c.source "" then internal_apm_nomad else c.source }) t
