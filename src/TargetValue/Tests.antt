-- ===== src/TargetValue/Tests.antt =====
-- The strategy on a concrete metric, with floating point numbers replaced by their integral parts.
use nomad_autoscaler.Prelude.{
  ◌+◌, ◌-◌, ◌*◌, ◌/◌, refl, [], ◌∷◌, some, none, pos, pos_part, ltb, ◌==◌, str_eq, if◌then◌else◌,
}
use nomad_autoscaler.Sdk.Policy.{ScalingPolicyStrategy}
use nomad_autoscaler.Sdk.Action.{bare_action, none_needed}
use nomad_autoscaler.Sdk.Eval.{ScalingCheckEvaluation, TimestampedMetric}
use nomad_autoscaler.TargetValue.{Floats}
use nomad_autoscaler.TargetValue.Decision.{RunOutcome, run_strategy-RunOutcome}

abbrev integers : Floats
integers = record {
  zero = 0;
  one = 1;
  eq = ◌==◌;
  lt = ltb;
  add = ◌+◌;
  sub = ◌-◌;
  mul = ◌*◌;
  div = ◌/◌;
  of_int = pos_part;
  ceil = pos;
  parse = λ s. if str_eq s "2" then some 2 else if str_eq s "0.01" then some 0 else none;
  format = λ x. "";
}

abbrev half_load : ScalingPolicyStrategy
half_load = record { name = "target-value"; config = ("target", "2") ∷ [] }

abbrev metric : TimestampedMetric
metric = record { timestamp = 1; value = 6 }

abbrev loaded : ScalingCheckEvaluation
loaded = record {
  check = record {
    name = "check";
    source = "";
    query = "";
    query_window = pos 1;
    strategy = some half_load;
  };
  metrics = metric ∷ [];
  action = bare_action none_needed;
}

run_strategy-RunOutcome_example : RunOutcome integers half_load loaded (pos 4) metric
run_strategy-RunOutcome_example =
    run_strategy-RunOutcome integers half_load loaded (pos 4) [] metric refl
