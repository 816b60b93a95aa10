-- ===== src/Processor/Queries.antt =====
-- `CanonicalizeCheck` and `CanonicalizeAPMQuery`.
use nomad_autoscaler.Prelude.{
  String, ◌≡◌, refl, ap, true, false, ◌⊎◌, inl, inr, List, Option, none, some, if◌then◌else◌,
  str_eq, Bool-cases, arith, has_code, has_code-append, str_append, subst, sym, ◌∙◌,
}
use nomad_autoscaler.Sdk.Policy.{
  ScalingPolicyCheck, ScalingPolicyTarget, is_job_task_group_target, is_node_pool_target,
}
use nomad_autoscaler.Processor.{
  is_nomad_apm_query, is_short_query, full_query, job_query, node_query, canonicalize_apm_query,
  canonicalize_check, internal_apm_nomad,
}

slash_within :
    (a b c : String) → has_code 47 (str_append a (str_append b (str_append "/" c))) ≡ true
unfolding has_code
slash_within a b c = ground (
  arith,
  has_code-append 47 a (str_append b (str_append "/" c)),
  has_code-append 47 b (str_append "/" c),
  has_code-append 47 "/" c,
)

has_code-job_query : (q : String) (t : ScalingPolicyTarget) → has_code 47 (job_query q t) ≡ true
has_code-job_query q t = slash_within "taskgroup_" q _

has_code-node_query : (q : String) (t : ScalingPolicyTarget) → has_code 47 (node_query q t) ≡ true
has_code-node_query q t = slash_within "node_" q _

full_query_cases :
    (q : String) (t : ScalingPolicyTarget)
    → (full_query q t ≡ q) ⊎ (is_short_query (full_query q t) ≡ false)
unfolding full_query is_short_query
full_query_cases q t = elim (Bool-cases (is_job_task_group_target t)) [
  | inl job ↦ inr (rw job (rw (has_code-job_query q t) (ground arith)))
  | inr other ↦ elim (Bool-cases (is_node_pool_target t)) [
    | inl node ↦ inr (rw (other, node) (rw (has_code-node_query q t) (ground arith)))
    | inr none_of ↦ inl (rw (other, none_of) refl)
  ]
]

canonicalize_apm_query_idempotent :
    (names : List String) (c : ScalingPolicyCheck) (t : Option ScalingPolicyTarget)
    → canonicalize_apm_query names (canonicalize_apm_query names c t) t
      ≡ canonicalize_apm_query names c t
unfolding canonicalize_apm_query
canonicalize_apm_query_idempotent names c none = refl
canonicalize_apm_query_idempotent names c (some t) =
    elim (Bool-cases (is_nomad_apm_query names c.source)) [
      | inr foreign ↦ rw foreign (rw foreign refl)
      | inl nomad ↦ elim (Bool-cases (is_short_query c.query)) [
        | inr long ↦ rw (nomad, long) (rw (nomad, long) refl)
        | inl short ↦ elim (full_query_cases c.query t) [
          | inl same ↦ rw (nomad, short, same) (rw (nomad, short, same) refl)
          | inr long ↦ rw (nomad, short) (rw (nomad, long) refl)
        ]
      ]
    ]

canonicalize_apm_query_source :
    (names : List String) (c : ScalingPolicyCheck) (t : Option ScalingPolicyTarget)
    → (canonicalize_apm_query names c t).source ≡ c.source
unfolding canonicalize_apm_query
canonicalize_apm_query_source names c none = refl
canonicalize_apm_query_source names c (some t) = ground arith

with_source : ScalingPolicyCheck → ScalingPolicyCheck
with_source c = record c { source = if str_eq c.source "" then internal_apm_nomad else c.source }

with_source_kept : (c : ScalingPolicyCheck) → str_eq c.source "" ≡ false → with_source c ≡ c
unfolding with_source
with_source_kept c h = rw h refl

with_source_given : (c : ScalingPolicyCheck) → str_eq (with_source c).source "" ≡ false
unfolding with_source
with_source_given c = elim (Bool-cases (str_eq c.source "")) [
  | inl empty ↦ rw empty refl
  | inr given ↦ rw given given
]

-- Making a check canonical a second time changes nothing: its source is then set, and its query is
-- no longer a short one or does not depend on the target.
pub canonicalize_check_idempotent :
    (names : List String) (c : ScalingPolicyCheck) (t : Option ScalingPolicyTarget)
    → canonicalize_check names (canonicalize_check names c t) t ≡ canonicalize_check names c t
unfolding canonicalize_check with_source
canonicalize_check_idempotent names c t =
    let once = canonicalize_apm_query names (with_source c) t in
    let given : str_eq once.source "" ≡ false =
      subst (λ s. str_eq s "" ≡ false) (sym (canonicalize_apm_query_source names (with_source c) t))
        (with_source_given c) in
    ap (λ x. canonicalize_apm_query names x t) (with_source_kept once given)
    ∙ canonicalize_apm_query_idempotent names (with_source c) t
