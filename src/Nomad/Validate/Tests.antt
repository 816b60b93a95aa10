-- ===== src/Nomad/Validate/Tests.antt =====
-- The validation and the parser on concrete policies.
use nomad_autoscaler.Prelude.{
  String, ◌≡◌, ◌≢◌, refl, ◌⊎◌, ◌↔◌, true, Bool, [], ◌∷◌, All, some, none, Map, lookup, ℤ, pos, ◌≤ℤ◌,
  Option, insert, inr, arith,
}
use nomad_autoscaler.Sdk.Policy.{ScalingPolicy}
use nomad_autoscaler.Nomad.Value.{
  Value, text, list, object, no_item, item, Fields, no_field, field, insert_fields, flatten_blocks,
  ApiScalingPolicy,
}
use nomad_autoscaler.Nomad.Validate.{
  validate_block, validate_labeled_blocks, validate_scaling_policy, at_label,
}
use nomad_autoscaler.Nomad.Parse.{parse_block, parse_policy}
use nomad_autoscaler.Nomad.Validate.Accepted.{
  IsAccepted, validate_scaling_policy-IsAccepted, parse_policy-accepted,
}
use nomad_autoscaler.Nomad.Validate.Blocks.{IsAtLeast, IsAtMost, validate_labeled_blocks-eq-nil_iff}

abbrev block : Fields → Value
block fs = list (item (object fs) no_item)

abbrev check_fields : Fields
check_fields =
    field "query" (text "avg_cpu")
      (field "strategy" (block (field "target-value" (block no_field) no_field)) no_field)

abbrev api_policy : ApiScalingPolicy
api_policy = record {
  id = "p";
  type = "cluster";
  min = some (pos 1);
  max = some (pos 5);
  enabled = none;
  target = some [];
  policy = some (("check", block (field "cpu" (block check_fields) no_field)) ∷ []);
}

abbrev any_duration : String → Bool
any_duration s = true

no_problem : validate_scaling_policy any_duration (some api_policy) ≡ []
unfolding validate_scaling_policy flatten_blocks insert_fields lookup insert
no_problem = refl

validate_scaling_policy-IsAccepted_example :
    (q : ApiScalingPolicy) × ◌≡◌ {A = Option ApiScalingPolicy} (some api_policy) (some q)
    × IsAccepted q
validate_scaling_policy-IsAccepted_example =
    validate_scaling_policy-IsAccepted any_duration (some api_policy) no_problem

api_policy-IsAccepted : IsAccepted api_policy
api_policy-IsAccepted = record {
  id_given = λ e. cc e;
  target_given = refl;
  known_type = inr (inr refl);
  limits = record {
    min = pos 1;
    max = pos 5;
    min_given = refl;
    max_given = refl;
    not_negative = ground arith;
    ordered = ground arith;
  };
}

abbrev no_duration : String → ℤ
no_duration s = pos 0

abbrev no_text : Value → String
no_text v = ""

parse_policy-accepted_example :
    (q : ScalingPolicy) × (parse_policy no_duration no_text (some api_policy) ≡ some q)
    × (q.id ≡ "p")
    × (api_policy.min ≡ some q.min)
    × (api_policy.max ≡ some q.max)
    × (q.id ≢ "")
    × (pos 0 ≤ℤ q.min)
    × (q.min ≤ℤ q.max)
parse_policy-accepted_example =
    parse_policy-accepted no_duration no_text api_policy api_policy-IsAccepted

abbrev one_block : Map Value
one_block = ("target-value", block no_field) ∷ []

validate_labeled_blocks-eq-nil_iff_example :
    (validate_labeled_blocks one_block "strategy" (some 1) (some 1) none ≡ []) ↔ (
      (one_block ≡ [])
      ⊎ IsAtLeast (some 1) 1
        × IsAtMost (some 1) 1
        × All
            (λ entry.
              (entry.0 ≢ "") × (validate_block entry.1 (at_label "strategy" entry.0) none ≡ []))
            one_block)
validate_labeled_blocks-eq-nil_iff_example =
    validate_labeled_blocks-eq-nil_iff one_block "strategy" (some 1) (some 1) none

-- A bare map passes the validation of a block, and the parser does not read it.
validates_bare_map : validate_block (object check_fields) "check" none ≡ []
unfolding validate_block
validates_bare_map = refl

parses_no_bare_map : parse_block (object check_fields) ≡ none
unfolding parse_block
parses_no_bare_map = refl
