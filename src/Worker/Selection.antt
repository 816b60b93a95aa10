-- ===== src/Worker/Selection.antt =====
-- The reconciliation of the checks' actions, and what the worker does with the winner.
use nomad_autoscaler.Prelude.{
  ℕ, suc, ◌≡◌, refl, true, inl, inr, List, [], ◌∷◌, All, Option, none, some, ℤ, ◌≤ℤ◌, is_some,
  Bool-cases, subst,
}
use nomad_autoscaler.Sdk.Policy.{ScalingPolicy, TargetStatus}
use nomad_autoscaler.Sdk.Action.{ScalingAction, Pick, first, second, choose}
use nomad_autoscaler.Sdk.Eval.{ScalingCheckEvaluation}
use nomad_autoscaler.Worker.Check.{Environment, CheckOutcome, cancelled, check_failed, proposed}
use nomad_autoscaler.Worker.Proposal.{IsProposal, IsSound, Answers, start-Sound}
use nomad_autoscaler.Worker.{Stops, Winner, reconcile, reconcile_with, run_checks}

-- The winner is an action that a check handler proposed.
abbrev pub IsSoundAction : ScalingPolicy → ℤ → Option ScalingAction → Type 0
IsSoundAction p count x = (a : ScalingAction) → x ≡ some a → IsProposal p count a

-- Where the loop over the checks is left for the context, there is no winner.
abbrev pub IsSoundResult : ScalingPolicy → ℤ → Option Winner → Type 0
IsSoundResult p count none = Unit
IsSoundResult p count (some w) = IsSoundAction p count w.action

module _ (p : ScalingPolicy) (count : ℤ) where
  choose-IsSoundAction :
      (pick : Pick) (x y : Option ScalingAction)
      → IsSoundAction p count x
      → IsSoundAction p count y
      → IsSoundAction p count (choose pick x y)
  choose-IsSoundAction first x y v w = v
  choose-IsSoundAction second x y v w = w

  reconcile-IsSoundAction :
      (c : ScalingCheckEvaluation) (o : CheckOutcome) (w : Winner)
      → IsSound p count o
      → IsSoundAction p count w.action
      → IsSoundAction p count (reconcile c o w).action
  unfolding reconcile reconcile_with
  reconcile-IsSoundAction c (check_failed e) w s v = v
  reconcile-IsSoundAction c cancelled w s v = choose-IsSoundAction _ w.action none v (λ a h. cc)
  reconcile-IsSoundAction c (proposed b) w s v =
      choose-IsSoundAction _ w.action (some b) v
        (λ a h. let same : b ≡ a = cc in subst (IsProposal p count) same s)

-- Every check has a strategy.
abbrev pub HaveStrategies : List ScalingCheckEvaluation → Type 0
HaveStrategies = All (λ c. is_some c.check.strategy ≡ true)

module _ (env : Environment) (stops : Stops) (p : ScalingPolicy) (status : TargetStatus)
    (h : p.min ≤ℤ p.max) (answers : Answers env.instances) where
  pub run_checks-IsSoundResult :
      (i : ℕ) (cs : List ScalingCheckEvaluation) (w : Winner)
      → HaveStrategies cs
      → IsSoundAction p status.count w.action
      → (r : Option Winner) × (run_checks env stops p status i cs w ≡ some r)
        × IsSoundResult p status.count r
  unfolding run_checks
  run_checks-IsSoundResult i [] w s v = (some w, refl, v)
  run_checks-IsSoundResult i (c ∷ cs) w s v = elim (Bool-cases (stops.at_check i)) [
    | inl stop ↦ rw stop (none, refl, tt)
    | inr on ↦
        let (o, e, sound) = start-Sound env p c i status h answers s.0 in
        rw (on, e)
          (run_checks-IsSoundResult (suc i) cs (reconcile c o w) s.1
            (reconcile-IsSoundAction p status.count c o w sound v))
  ]
