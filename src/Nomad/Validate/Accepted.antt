-- ===== src/Nomad/Validate/Accepted.antt =====
-- What the validation accepts, and what the parser makes of it.
use nomad_autoscaler.Prelude.{
  String, ◌≡◌, refl, ◌≢◌, ◌⊎◌, inl, inr, Bool, true, false, not, List, [], ◌∷◌, ◌++◌, Option, none,
  some, is_some, ℤ, pos, ltb_ℤ, ◌≤ℤ◌, str_eq, eq_iff, arith, Bool-cases,
}
use nomad_autoscaler.Sdk.Policy.{ScalingPolicy}
use nomad_autoscaler.Nomad.Value.{Value, ApiScalingPolicy}
use nomad_autoscaler.Nomad.Validate.{
  ProblemKind, is_negative, is_nil, is_empty, min_above_max, limit_problems,
  validate_horizontal_policy, validate_cluster_policy, validate_scaling_policy_by_type,
  additional_policy_type_validation, validate_scaling_policy, validate_policy, reported,
}
use nomad_autoscaler.Nomad.Parse.{parse_policy}

pub append-eq-nil {ℓ} : {A : Type ℓ} (xs ys : List A) → xs ++ ys ≡ [] → (xs ≡ []) × (ys ≡ [])
append-eq-nil [] ys h = (refl, h)
append-eq-nil (x ∷ xs) ys h = cc

pub reported-eq-nil :
    (b : Bool) (path : String) (kind : ProblemKind) → reported b path kind ≡ [] → b ≡ false
reported-eq-nil true path kind h = cc
reported-eq-nil false path kind h = refl

-- The limits are there, in order and not negative.
pub record HasLimits (p : ApiScalingPolicy) : Type 0 where
  pub min : ℤ
  pub max : ℤ
  pub min_given : p.min ≡ some min
  pub max_given : p.max ≡ some max
  pub not_negative : pos 0 ≤ℤ min
  pub ordered : min ≤ℤ max

limit_problems-HasLimits :
    (p : ApiScalingPolicy) (a b : Option ℤ)
    → p.min ≡ a
    → p.max ≡ b
    → limit_problems a b ≡ []
    → HasLimits p
limit_problems-HasLimits p none b e f h = cc
limit_problems-HasLimits p (some min) none e f h = cc
limit_problems-HasLimits p (some min) (some max) e f h =
    let low = reported (ltb_ℤ min (pos 0)) "scaling.min" is_negative in
    let order = reported (ltb_ℤ max min) "scaling.min" min_above_max in
    let upper = reported (ltb_ℤ max (pos 0)) "scaling.max" is_negative in
    let (no_low, no_order) = append-eq-nil low order (append-eq-nil (low ++ order) upper h).0 in
    let below = reported-eq-nil (ltb_ℤ min (pos 0)) "scaling.min" is_negative no_low in
    let crossed = reported-eq-nil (ltb_ℤ max min) "scaling.min" min_above_max no_order in
    record {
      min = min;
      max = max;
      min_given = e;
      max_given = f;
      not_negative = ground (arith, below);
      ordered = ground (arith, crossed);
    }

abbrev pub IsKnownType : String → Type 0
IsKnownType t = (t ≡ "horizontal") ⊎ (t ≡ "") ⊎ (t ≡ "cluster")

horizontal-HasLimits : (p : ApiScalingPolicy) → validate_horizontal_policy p ≡ [] → HasLimits p
unfolding validate_horizontal_policy
horizontal-HasLimits p h =
    limit_problems-HasLimits p p.min p.max refl refl
      (append-eq-nil (limit_problems p.min p.max) _ h).0

by_type-HasLimits :
    (p : ApiScalingPolicy)
    → validate_scaling_policy_by_type p ≡ []
    → IsKnownType p.type × HasLimits p
unfolding validate_scaling_policy_by_type validate_cluster_policy additional_policy_type_validation
by_type-HasLimits p h = elim (Bool-cases (str_eq p.type "horizontal")) [
  | inl e ↦ (inl ((eq_iff p.type "horizontal").0 e), horizontal-HasLimits p (rw e at h))
  | inr n ↦ elim (Bool-cases (str_eq p.type "")) [
    | inl e ↦ (inr (inl ((eq_iff p.type "").0 e)), horizontal-HasLimits p (rw (n, e) at h))
    | inr m ↦ elim (Bool-cases (str_eq p.type "cluster")) [
      | inl e ↦
          (inr (inr ((eq_iff p.type "cluster").0 e)), horizontal-HasLimits p (rw (n, m, e) at h))
      | inr l ↦ cc (rw (n, m, l) at h)
    ]
  ]
]

given_if_not : (b : Bool) → not b ≡ false → b ≡ true
given_if_not true h = refl
given_if_not false h = cc

-- What an accepted policy has: an ID, a target, a known type, and limits in order.
pub record IsAccepted (p : ApiScalingPolicy) : Type 0 where
  pub id_given : p.id ≢ ""
  pub target_given : is_some p.target ≡ true
  pub known_type : IsKnownType p.type
  pub limits : HasLimits p

-- A policy of Nomad in which the validation finds no problem is not nil, has an ID, a target and a
-- known type, and has both limits with 0 ≤ min ≤ max.
pub validate_scaling_policy-IsAccepted :
    (is_duration : String → Bool) (p : Option ApiScalingPolicy)
    → validate_scaling_policy is_duration p ≡ []
    → (q : ApiScalingPolicy) × (p ≡ some q) × IsAccepted q
unfolding validate_scaling_policy
validate_scaling_policy-IsAccepted is_duration none h = cc
validate_scaling_policy-IsAccepted is_duration (some p) h =
    let unnamed = reported (str_eq p.id "") "ID" is_empty in
    let unaimed = reported (not (is_some p.target)) "Target" is_nil in
    let inner = validate_policy is_duration p.policy in
    let (rest, typed) = append-eq-nil (unnamed ++ unaimed ++ inner) _ h in
    let (a, b) = append-eq-nil unnamed unaimed (append-eq-nil (unnamed ++ unaimed) inner rest).0 in
    let named = reported-eq-nil (str_eq p.id "") "ID" is_empty a in
    let aimed = reported-eq-nil (not (is_some p.target)) "Target" is_nil b in
    let (known, limits) = by_type-HasLimits p typed in
    (
      p,
      refl,
      record {
        id_given = λ e. cc (named, (eq_iff p.id "").1 e);
        target_given = given_if_not (is_some p.target) aimed;
        known_type = known;
        limits = limits;
      },
    )

-- The parser does not panic on a policy that the validation accepts, and the policy that it gives has
-- the ID, which is not empty, and the limits of the accepted one, with 0 ≤ min ≤ max.
pub parse_policy-accepted :
    (parse_duration : String → ℤ) (format_value : Value → String) (p : ApiScalingPolicy)
    → IsAccepted p
    → (q : ScalingPolicy) × (parse_policy parse_duration format_value (some p) ≡ some q)
      × (q.id ≡ p.id)
      × (p.min ≡ some q.min)
      × (p.max ≡ some q.max)
      × (q.id ≢ "")
      × (pos 0 ≤ℤ q.min)
      × (q.min ≤ℤ q.max)
unfolding parse_policy
parse_policy-accepted parse_duration format_value p v =
    rw (v.limits.min_given, v.limits.max_given)
      (_, refl, refl, refl, refl, v.id_given, v.limits.not_negative, v.limits.ordered)
