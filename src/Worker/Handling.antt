-- ===== src/Worker/Handling.antt =====
-- `handlePolicy` as a whole.
use nomad_autoscaler.Prelude.{
  ◌≡◌, refl, sym, ◌≢◌, none, some, Option, ◌≤ℤ◌, inl, ◌>>=◌, subst, List,
}
use nomad_autoscaler.Sdk.Policy.{ScalingPolicyTarget}
use nomad_autoscaler.Sdk.Eval.{ScalingEvaluation}
use nomad_autoscaler.Plugins.{
  ok, Target, target, PluginId, PluginInstance, apm_instance, strategy_instance, target_instance,
  other_instance, dispense,
}
use nomad_autoscaler.Worker.Check.{Environment}
use nomad_autoscaler.Worker.Proposal.{Answers}
use nomad_autoscaler.Worker.Selection.{HaveStrategies}
use nomad_autoscaler.Worker.Scaling.{HandlesWith, with_status-Handles}
use nomad_autoscaler.Worker.{Stops, with_target, handle_policy}

-- A target plugin that gives no error gives a status.
abbrev pub Reports : List (PluginId × PluginInstance) → ScalingPolicyTarget → Type 0
Reports instances dest =
    (t : Target)
    → dispense dest.name target instances ≡ some (target_instance t)
    → t.status dest.config ≢ ok none

module _ (env : Environment) (stops : Stops) (eval : ScalingEvaluation)
    (dest : ScalingPolicyTarget) where
  with_target-Handles :
      eval.policy.min ≤ℤ eval.policy.max
      → Answers env.instances
      → HaveStrategies eval.check_evaluations
      → (found : Option PluginInstance) → Reports env.instances dest
      → dispense dest.name target env.instances ≡ found
      → HandlesWith env eval dest (with_target env stops eval dest found)
  unfolding with_target
  with_target-Handles h v w none r d = (_, refl, inl refl)
  with_target-Handles h v w (some (target_instance t)) r d =
      with_status-Handles env stops eval dest h v w t _ (r t d) d refl
  with_target-Handles h v w (some (apm_instance x)) r d = (_, refl, inl refl)
  with_target-Handles h v w (some (strategy_instance x)) r d = (_, refl, inl refl)
  with_target-Handles h v w (some other_instance) r d = (_, refl, inl refl)

  -- For a policy with a target, a minimum not above its maximum and a strategy in every check, and
  -- with plugins that give an answer where they give no error, a worker's evaluation returns
  -- without a panic. It does nothing to the target, or the target was ready and is asked once to
  -- scale in a direction, to another count within the limits or, as it must where the target is
  -- configured so, by a dry run; the cooldown of the policy starts exactly when the target agrees, and
  -- a refusal is the error that is returned.
  pub handle_policy-Handles :
      eval.policy.min ≤ℤ eval.policy.max
      → Answers env.instances
      → HaveStrategies eval.check_evaluations
      → eval.policy.target ≡ some dest
      → Reports env.instances dest
      → HandlesWith env eval dest (handle_policy env stops eval)
  unfolding handle_policy
  handle_policy-Handles h v w e r =
      subst
        (λ (x : Option ScalingPolicyTarget).
          HandlesWith env eval dest
            (x >>= λ t. with_target env stops eval t (dispense t.name target env.instances)))
        (sym e) (with_target-Handles h v w _ r refl)
