-- ===== src/TargetValue.antt =====
-- plugins/builtin/strategy/target-value/plugin/plugin.go: the strategy plugin target-value. The
-- floating point operations are a parameter.
pub mod Decision
mod Tests
use nomad_autoscaler.Prelude.{
  ℕ, String, Bool, true, false, List, [], ◌∷◌, Option, none, some, Map, lookup, ℤ, pos, eqb_ℤ,
  if◌then◌else◌, str_eq, str_append, ◌>>=◌,
}
use nomad_autoscaler.Sdk.Policy.{ScalingPolicyStrategy}
use nomad_autoscaler.Sdk.Action.{
  ScalingAction, ScaleDirection, down, none_needed, up, direction_string,
}
use nomad_autoscaler.Sdk.Eval.{Float64, TimestampedMetric, ScalingCheckEvaluation}
use nomad_autoscaler.Plugins.{Result, ok, failed}

-- Go's operations on float64: the literals 0 and 1, the comparisons and the arithmetic, the
-- conversion of an int64, `int64(math.Ceil(x))`, `strconv.ParseFloat(s, 64)`, which gives nothing
-- where it gives an error, and the verb `%f`.
pub record Floats : Type 0 where
  pub zero : Float64
  pub one : Float64
  pub eq : Float64 → Float64 → Bool
  pub lt : Float64 → Float64 → Bool
  pub add : Float64 → Float64 → Float64
  pub sub : Float64 → Float64 → Float64
  pub mul : Float64 → Float64 → Float64
  pub div : Float64 → Float64 → Float64
  pub of_int : ℤ → Float64
  pub ceil : Float64 → ℤ
  pub parse : String → Option Float64
  pub format : Float64 → String

abbrev pub run_config_key_target : String
run_config_key_target = "target"

abbrev pub run_config_key_threshold : String
run_config_key_threshold = "threshold"

abbrev pub default_threshold : String
default_threshold = "0.01"

-- A read of a missing key of a map of strings.
abbrev pub value_of : String → Map String → String
value_of key config = elim (lookup key config) [ none ↦ "" | some v ↦ v ]

abbrev pub last_of : TimestampedMetric → List TimestampedMetric → TimestampedMetric
last_of m [] = m
last_of m (n ∷ ms) = last_of n ms

abbrev pub with_direction : ScaleDirection → ScalingCheckEvaluation → ScalingCheckEvaluation
with_direction d c = record c { action = record (c.action) { direction = d } }

abbrev pub invalid_value : String → String → String
invalid_value field text =
    str_append "invalid value for `"
      (str_append field (str_append "`: " (str_append text " (string)")))

unfoldable pub threshold_text : Map String → String
threshold_text config =
    let th = value_of run_config_key_threshold config in
    if str_eq th "" then default_threshold else th

module _ (floats : Floats) where
  unfoldable pub calculate_direction : ℤ → Float64 → Float64 → ScaleDirection
  calculate_direction count factor e =
      if eqb_ℤ count (pos 0)
      then if floats.lt floats.zero factor then up else none_needed
      else if floats.lt factor (floats.sub floats.one e)
      then down
      else if floats.lt (floats.add floats.one e) factor
      then up
      else none_needed

  -- The quotient of the latest metric and the target, or the metric itself for the target 0.
  unfoldable pub factor_of : Float64 → Float64 → Float64
  factor_of value target = if floats.eq target floats.zero then value else floats.div value target

  unfoldable pub new_count : ℤ → Float64 → ℤ
  new_count count factor =
      if eqb_ℤ count (pos 0)
      then floats.ceil factor
      else floats.ceil (floats.mul (floats.of_int count) factor)

  abbrev pub scaling_reason : ScaleDirection → Float64 → String
  scaling_reason d factor =
      str_append "scaling "
        (str_append (direction_string d) (str_append " because factor is " (floats.format factor)))

  -- From the test of the new count on.
  unfoldable pub set_count :
      ScaleDirection → Float64 → ℤ → ScalingCheckEvaluation → ScalingCheckEvaluation
  unfolding new_count
  set_count d factor count c =
      if eqb_ℤ (new_count count factor) count then with_direction none_needed c else record c {
        action = record (c.action) {
          direction = d;
          count = new_count count factor;
          reason = scaling_reason d factor;
        };
      }

  unfoldable pub use_direction :
      ScaleDirection → Float64 → ℤ → ScalingCheckEvaluation → ScalingCheckEvaluation
  unfolding set_count
  use_direction none_needed factor count c = with_direction none_needed c
  use_direction d factor count c = set_count d factor count c

  -- From the metrics on, with the parsed target and threshold.
  unfoldable pub decide :
      Float64
      → Float64
      → ScalingCheckEvaluation
      → ℤ
      → List TimestampedMetric
      → Option ScalingCheckEvaluation
  unfolding use_direction calculate_direction factor_of
  decide target threshold c count [] = none
  decide target threshold c count (m ∷ ms) =
      let factor = factor_of (last_of m ms).value target in
      some (use_direction (calculate_direction count factor threshold) factor count c)

  unfoldable pub with_target_value :
      Float64 → Map String → ScalingCheckEvaluation → ℤ → Result (Option ScalingCheckEvaluation)
  with_target_value target config c count = elim (floats.parse (threshold_text config)) [
    | none ↦ failed (invalid_value "threshold" (threshold_text config))
    | some threshold ↦ ok (decide target threshold c count c.metrics)
  ]

  -- `Run` on a check whose strategy is not nil.
  unfoldable pub run_strategy :
      ScalingPolicyStrategy → ScalingCheckEvaluation → ℤ → Result (Option ScalingCheckEvaluation)
  unfolding with_target_value
  run_strategy st c count =
      let t = value_of run_config_key_target st.config in
      if str_eq t "" then failed "missing required field `target`" else elim (floats.parse t) [
        | none ↦ failed (invalid_value "target" t)
        | some target ↦ with_target_value target st.config c count
      ]

  -- A nil strategy is a run-time panic.
  unfoldable pub run : ScalingCheckEvaluation → ℤ → Option (Result (Option ScalingCheckEvaluation))
  unfolding run_strategy
  run c count = elim c.check.strategy [ none ↦ none | some st ↦ some (run_strategy st c count) ]
