-- ===== src/Nomad/Validate.antt =====
-- policy/nomad/validate.go, validate_horizontal.go, validate_cluster.go and validate_oss.go: the
-- validation of policies. A multierror is the list of its errors. Whether a text is a duration for
-- `time.ParseDuration` is a parameter.
pub mod Accepted
pub mod Blocks
mod Tests
use nomad_autoscaler.Prelude.{
  ℕ, suc, String, Bool, true, false, not, List, [], ◌∷◌, ◌++◌, length, Option, none, some, Map,
  lookup, is_some, ℤ, pos, ltb, ltb_ℤ, if◌then◌else◌, str_eq, str_append, format_ℕ,
}
use nomad_autoscaler.Nomad.Value.{
  Value, null, text, list, object, to_list, to_map, value_at, flatten_blocks, ApiScalingPolicy,
  policy_value, key_source, key_query, key_query_window, key_evaluation_interval, key_target,
  key_checks, key_strategy, key_cooldown,
}

pub data ProblemKind : Type 0 where
  is_nil is_empty is_missing is_negative not_string not_duration : ProblemKind
  not_list not_single not_object no_label min_above_max unsupported_type : ProblemKind
  expected_blocks : ℕ → ProblemKind

pub record Problem : Type 0 where
  pub path : String
  pub kind : ProblemKind

abbrev pub problem : String → ProblemKind → List Problem
problem path kind = record { path = path; kind = kind } ∷ []

abbrev pub reported : Bool → String → ProblemKind → List Problem
reported b path kind = if b then problem path kind else []

-- `validatorFunc`, or nil.
abbrev pub Validator : Type 0
Validator = Option (Map Value → String → List Problem)

abbrev pub run_validator : Validator → Map Value → String → List Problem
run_validator none m path = []
run_validator (some f) m path = f m path

abbrev pub child : String → String → String
child path key = str_append path (str_append "." key)

abbrev pub at_label : String → String → String
at_label path name = str_append path (str_append "[" (str_append name "]"))

abbrev validate_single : List Value → String → Validator → List Problem
validate_single (object fs ∷ []) path v = run_validator v (to_map fs) path
validate_single (x ∷ []) path v = problem (at_label path "0") not_object
validate_single _ path v = problem path not_single

unfoldable pub validate_block : Value → String → Validator → List Problem
validate_block (object fs) path v = run_validator v (to_map fs) path
validate_block (list vs) path v = validate_single (to_list vs) path v
validate_block _ path v = problem path not_list

abbrev block_problem : Value → String → List Problem
block_problem (object fs) path = []
block_problem _ path = problem path not_object

abbrev pub block_problems : ℕ → List Value → String → List Problem
block_problems i [] path = []
block_problems i (v ∷ vs) path =
    block_problem v (at_label path (format_ℕ i)) ++ block_problems (suc i) vs path

unfoldable pub validate_blocks : Value → String → Validator → List Problem
validate_blocks null path v = problem path is_nil
validate_blocks (list vs) path v =
    block_problems 0 (to_list vs) path ++ run_validator v (flatten_blocks (to_list vs) []) path
validate_blocks _ path v = problem path not_list

abbrev pub below_min : Option ℕ → ℕ → Bool
below_min none n = false
below_min (some m) n = ltb n m

abbrev pub above_max : Option ℕ → ℕ → Bool
above_max none n = false
above_max (some m) n = ltb m n

abbrev pub expected_number : Option ℕ → String → List Problem
expected_number none path = []
expected_number (some n) path = problem path (expected_blocks n)

abbrev pub validate_each : Map Value → String → Validator → List Problem
validate_each [] path v = []
validate_each ((name, block) ∷ b) path v =
    reported (str_eq name "") path no_label
    ++ validate_block block (at_label path name) v
    ++ validate_each b path v

-- Every caller gives a map that is not nil.
unfoldable pub validate_labeled_blocks :
    Map Value → String → Option ℕ → Option ℕ → Validator → List Problem
unfolding validate_block
validate_labeled_blocks [] path min max v = []
validate_labeled_blocks (x ∷ b) path min max v =
    if below_min min (length (x ∷ b))
    then expected_number min path
    else if above_max max (length (x ∷ b))
    then expected_number max path
    else validate_each (x ∷ b) path v

unfoldable pub validate_strategy : Map Value → String → List Problem
unfolding validate_labeled_blocks
validate_strategy s path = validate_labeled_blocks s path (some 1) (some 1) none

abbrev pub source_problems : Option Value → String → List Problem
source_problems none path = []
source_problems (some (text s)) path = []
source_problems (some _) path = problem path not_string

abbrev pub query_problems : Option Value → String → List Problem
query_problems none path = []
query_problems (some (text s)) path = reported (str_eq s "") path is_empty
query_problems (some _) path = problem path not_string

unfoldable pub validate_target : Map Value → String → List Problem
unfolding validate_labeled_blocks
validate_target t path = validate_labeled_blocks t path none (some 1) none

abbrev optional_target : Option Value → String → List Problem
optional_target none path = []
optional_target (some v) path = validate_blocks v path (some validate_target)

abbrev pub policy_path : String
policy_path = "scaling.policy"

abbrev pub limit_problems : Option ℤ → Option ℤ → List Problem
limit_problems none max = problem "scaling.min" is_missing
limit_problems (some min) none = problem "scaling.max" is_missing
limit_problems (some min) (some max) =
    reported (ltb_ℤ min (pos 0)) "scaling.min" is_negative
    ++ reported (ltb_ℤ max min) "scaling.min" min_above_max
    ++ reported (ltb_ℤ max (pos 0)) "scaling.max" is_negative

unfoldable pub validate_check_horizontal : Map Value → String → List Problem
validate_check_horizontal c path =
    reported (not (is_some (lookup key_query c))) (child path key_query) is_missing

unfoldable pub validate_checks_horizontal : Map Value → String → List Problem
unfolding validate_labeled_blocks validate_check_horizontal
validate_checks_horizontal c path =
    validate_labeled_blocks c path (some 1) none (some validate_check_horizontal)

unfoldable pub validate_horizontal_policy : ApiScalingPolicy → List Problem
unfolding validate_blocks validate_checks_horizontal
validate_horizontal_policy p =
    limit_problems p.min p.max
    ++ validate_blocks (policy_value key_checks p) (child policy_path key_checks)
        (some validate_checks_horizontal)

unfoldable pub validate_cluster_policy : ApiScalingPolicy → List Problem
unfolding validate_horizontal_policy
validate_cluster_policy p = validate_horizontal_policy p

unfoldable pub additional_policy_type_validation : ApiScalingPolicy → List Problem
additional_policy_type_validation p = problem "scaling.type" unsupported_type

unfoldable pub validate_scaling_policy_by_type : ApiScalingPolicy → List Problem
unfolding validate_horizontal_policy validate_cluster_policy additional_policy_type_validation
validate_scaling_policy_by_type p =
    if str_eq p.type "horizontal"
    then validate_horizontal_policy p
    else if str_eq p.type ""
    then validate_horizontal_policy p
    else if str_eq p.type "cluster"
    then validate_cluster_policy p
    else additional_policy_type_validation p

module _ (is_duration : String → Bool) where
  unfoldable pub validate_duration : Value → String → List Problem
  validate_duration (text s) path = reported (not (is_duration s)) path not_duration
  validate_duration _ path = problem path not_string

  abbrev optional_duration : Option Value → String → List Problem
  optional_duration none path = []
  optional_duration (some v) path = validate_duration v path

  unfoldable pub validate_check : Map Value → String → List Problem
  unfolding validate_blocks validate_strategy validate_duration
  validate_check c path =
      source_problems (lookup key_source c) (child path key_source)
      ++ query_problems (lookup key_query c) (child path key_query)
      ++ optional_duration (lookup key_query_window c) (child path key_query_window)
      ++ validate_blocks (value_at key_strategy c) (child path key_strategy)
          (some validate_strategy)

  unfoldable pub validate_checks : Map Value → String → List Problem
  unfolding validate_labeled_blocks validate_check
  validate_checks c path = validate_labeled_blocks c path (some 1) none (some validate_check)

  unfoldable pub validate_policy : Option (Map Value) → List Problem
  unfolding validate_blocks validate_target validate_checks validate_duration
  validate_policy none = problem policy_path is_nil
  validate_policy (some p) =
      optional_duration (lookup key_evaluation_interval p)
        (child policy_path key_evaluation_interval)
      ++ optional_duration (lookup key_cooldown p) (child policy_path key_cooldown)
      ++ optional_target (lookup key_target p) (child policy_path key_target)
      ++ validate_blocks (value_at key_checks p) (child policy_path key_checks)
          (some validate_checks)

  unfoldable pub validate_scaling_policy : Option ApiScalingPolicy → List Problem
  unfolding validate_policy validate_scaling_policy_by_type
  validate_scaling_policy none = problem "ScalingPolicy" is_nil
  validate_scaling_policy (some p) =
      reported (str_eq p.id "") "ID" is_empty
      ++ reported (not (is_some p.target)) "Target" is_nil
      ++ validate_policy p.policy
      ++ validate_scaling_policy_by_type p
