-- ===== src/Sdk/Eval.antt =====
-- sdk/eval.go, sdk/eval_oss.go and sdk/apm.go: evaluations. A float64 is its IEEE 754 bit pattern,
-- and times are numbers of nanoseconds. The generated UUID and the clock's reading are arguments.
use nomad_autoscaler.Prelude.{ℕ, String, List, [], ◌∷◌, Option, some}
use nomad_autoscaler.Sdk.Policy.{ScalingPolicy, ScalingPolicyCheck, TargetStatus}
use nomad_autoscaler.Sdk.Action.{ScalingAction, bare_action, none_needed, canonicalize, text}

abbrev pub Float64 : Type 0
Float64 = ℕ

pub record TimestampedMetric : Type 0 where
  pub timestamp : ℕ
  pub value : Float64

pub record ScalingCheckEvaluation : Type 0 where
  pub check : ScalingPolicyCheck
  pub metrics : List TimestampedMetric
  pub action : ScalingAction

pub record ScalingEvaluation : Type 0 where
  pub id : String
  pub policy : ScalingPolicy
  pub target_status : Option TargetStatus
  pub check_evaluations : List ScalingCheckEvaluation
  pub create_time : ℕ

unfoldable pub new_check_evaluations :
    String → List ScalingPolicyCheck → List ScalingCheckEvaluation
unfolding canonicalize
new_check_evaluations id [] = []
new_check_evaluations id (check ∷ checks) =
    record {
      check = check;
      metrics = [];
      action =
          canonicalize
            (record (bare_action none_needed) { meta = some (("nomad_policy_id", text id) ∷ []) });
    }
    ∷ new_check_evaluations id checks

unfoldable pub new_scaling_evaluation :
    String → ℕ → ScalingPolicy → Option TargetStatus → ScalingEvaluation
unfolding new_check_evaluations
new_scaling_evaluation uuid now p status = record {
  id = uuid;
  policy = p;
  target_status = status;
  check_evaluations = new_check_evaluations p.id p.checks;
  create_time = now;
}
