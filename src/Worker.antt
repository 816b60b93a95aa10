-- ===== src/Worker.antt =====
-- policyeval/base_worker.go: the evaluation of a policy by a worker. The outermost `Option` is
-- `none` at a run-time panic. Logs and metrics are left out.
pub mod Check
pub mod Proposal
pub mod Selection
pub mod Settlement
pub mod Scaling
mod Tests
pub mod Dominance
pub mod Handling
use nomad_autoscaler.Prelude.{
  ℕ, suc, zero, String, Bool, true, false, List, [], ◌∷◌, Option, none, some, Map, lookup, ℤ,
  if◌then◌else◌, str_eq, ◌>>=◌,
}
use nomad_autoscaler.Broker.{Broker, ack, nack, dequeue}
use nomad_autoscaler.Sdk.Policy.{ScalingPolicy, ScalingPolicyTarget, TargetStatus}
use nomad_autoscaler.Sdk.Action.{
  ScalingAction, ScaleDirection, none_needed, Pick, first, second, preempt_pick, choose,
  set_dry_run,
}
use nomad_autoscaler.Sdk.Eval.{ScalingCheckEvaluation, ScalingEvaluation}
use nomad_autoscaler.Plugins.{
  Result, ok, failed, Target, target, target_instance, PluginInstance, dispense,
}
use nomad_autoscaler.Broker.{Broker, ack, nack, deliver, find_work}
use Check.{Environment, CheckOutcome, cancelled, check_failed, proposed, start}

pub data WorkerError : Type 0 where
  target_not_initialized not_a_target target_not_ready : WorkerError
  status_failed scale_failed : String → WorkerError

-- What a call does to the world: it scales the target, and it starts a cooldown.
pub data Effect : Type 0 where
  scaled : ScalingAction → Map String → Effect
  cooldown : String → ℤ → Effect

-- `scaled` is recorded for a call that the target refuses too.
pub record Handled : Type 0 where
  pub error : Option WorkerError
  pub effects : List Effect

-- When the context is done: while the check at an index runs, and before the target is scaled.
pub record Stops : Type 0 where
  pub at_check : ℕ → Bool
  pub before_scale : Bool

-- The winning action so far, and the name of its check's handler.
pub record Winner : Type 0 where
  pub action : Option ScalingAction
  pub handler : Option String

abbrev pub no_winner : Winner
no_winner = record { action = none; handler = none }

abbrev action_of : CheckOutcome → Option ScalingAction
action_of (proposed a) = some a
action_of _ = none

-- `PreemptScalingAction` and the comparison of pointers after it.
unfoldable pub reconcile_with : String → Option ScalingAction → Winner → Winner
unfolding preempt_pick
reconcile_with name a w = record {
  action = choose (preempt_pick w.action a) w.action a;
  handler = choose (preempt_pick w.action a) w.handler (some name);
}

unfoldable pub reconcile : ScalingCheckEvaluation → CheckOutcome → Winner → Winner
reconcile c (check_failed e) w = w
reconcile c o w = reconcile_with c.check.name (action_of o) w

-- The loop over the checks from the one at index `i` on. The inner `none` is an early return because
-- the context is done.
unfoldable pub run_checks :
    Environment
    → Stops
    → ScalingPolicy
    → TargetStatus
    → ℕ
    → List ScalingCheckEvaluation
    → Winner
    → Option (Option Winner)
unfolding reconcile start
run_checks env stops p status i [] w = some (some w)
run_checks env stops p status i (c ∷ cs) w =
    let rest = λ (o : CheckOutcome). run_checks env stops p status (suc i) cs (reconcile c o w) in
    if stops.at_check i then some none else start env p c i status >>= rest

abbrev no_effect : Option WorkerError → Handled
no_effect e = record { error = e; effects = [] }

abbrev after_scale : ScalingPolicy → ScalingAction → Map String → Result {0} Unit → Handled
after_scale p a config (failed e) = record {
  error = some (scale_failed e);
  effects = scaled a config ∷ [];
}
after_scale p a config (ok _) = record {
  error = none;
  effects = scaled a config ∷ cooldown p.id p.cooldown ∷ [];
}

-- `val, ok := Config["dry-run"]; ok && val == "true"`
abbrev pub is_dry_run : Map String → Bool
is_dry_run config = elim (lookup "dry-run" config) [ none ↦ false | some v ↦ str_eq v "true" ]

-- From the choice of the winner on.
unfoldable pub execute :
    Target → Stops → ScalingPolicy → ScalingPolicyTarget → ScalingAction → Option Handled
unfolding set_dry_run
execute t stops p dest a = do
  b ← if is_dry_run dest.config then set_dry_run a else some a
  some (
      if stops.before_scale
      then no_effect none
      else after_scale p b dest.config (t.scale b dest.config))

abbrev is_none_needed : ScaleDirection → Bool
is_none_needed ScaleDirection.none_needed = true
is_none_needed _ = false

unfoldable pub conclude_with :
    Target
    → Stops
    → ScalingPolicy
    → ScalingPolicyTarget
    → Option ScalingAction
    → Option String
    → Option Handled
unfolding execute
conclude_with t stops p dest (some a) (some name) =
    if is_none_needed a.direction then some (no_effect none) else execute t stops p dest a
conclude_with t stops p dest _ _ = some (no_effect none)

unfoldable pub conclude :
    Target → Stops → ScalingPolicy → ScalingPolicyTarget → Option Winner → Option Handled
unfolding conclude_with
conclude t stops p dest none = some (no_effect none)
conclude t stops p dest (some w) = conclude_with t stops p dest w.action w.handler

unfoldable pub evaluate :
    Environment
    → Stops
    → Target
    → ScalingEvaluation
    → ScalingPolicyTarget
    → TargetStatus
    → Option Handled
unfolding run_checks conclude
evaluate env stops t eval dest status = do
  w ← run_checks env stops eval.policy status 0 eval.check_evaluations no_winner
  conclude t stops eval.policy dest w

unfoldable pub with_status :
    Environment
    → Stops
    → Target
    → ScalingEvaluation
    → ScalingPolicyTarget
    → Result (Option TargetStatus)
    → Option Handled
unfolding evaluate
with_status env stops t eval dest (failed e) = some (no_effect (some (status_failed e)))
with_status env stops t eval dest (ok none) = none
with_status env stops t eval dest (ok (some status)) =
    if status.ready
    then evaluate env stops t eval dest status
    else some (no_effect (some target_not_ready))

unfoldable pub with_target :
    Environment
    → Stops
    → ScalingEvaluation
    → ScalingPolicyTarget
    → Option PluginInstance
    → Option Handled
unfolding with_status
with_target env stops eval dest none = some (no_effect (some target_not_initialized))
with_target env stops eval dest (some (target_instance t)) =
    with_status env stops t eval dest (t.status dest.config)
with_target env stops eval dest (some _) = some (no_effect (some not_a_target))

-- A policy without a target is a nil pointer.
unfoldable pub handle_policy : Environment → Stops → ScalingEvaluation → Option Handled
unfolding with_target dispense
handle_policy env stops eval = do
  t ← eval.policy.target
  with_target env stops eval t (dispense t.name target env.instances)

-- `Ack` after a success, and `Nack` after an error; an error of these is logged alone.
unfoldable pub settle : String → String → Handled → Broker → Broker
settle id token r b = elim r.error [ none ↦ (ack id token b).1 | some _ ↦ (nack id token b).1 ]

-- A round of the loop of `Run` on an evaluation that `Dequeue` has handed out, with no call of the
-- broker in between: the broker after it, and what was done.
unfoldable pub run_round :
    Environment → Stops → String → ScalingEvaluation → Broker → Option (Handled × Broker)
unfolding settle
run_round env stops token eval b = do
  r ← handle_policy env stops eval
  some (r, settle eval.id token r b)

-- A round of the loop, with the context not done before it. Without an evaluation it goes on.
unfoldable pub run_once :
    Environment → Stops → String → String → Broker → Option (Option Handled × Broker)
unfolding run_round
run_once env stops queue token b =
    let (work, b') = dequeue queue token b in
    elim work [
      | none ↦ some (none, b')
      | some eval ↦ run_round env stops token eval b' >>= λ x. some (some x.0, x.1)
    ]
