-- ===== src/Worker/Scaling.antt =====
-- What the worker does to the target.
use nomad_autoscaler.Prelude.{
  String, ◌≡◌, refl, ap, ◌≢◌, true, ◌⊎◌, inl, inr, [], ◌∷◌, Option, none, some, Map, insert, ℤ,
  ◌≤ℤ◌, is_some, if◌then◌else◌, Bool-cases, Option-cases,
}
use nomad_autoscaler.Sdk.Policy.{ScalingPolicy, ScalingPolicyTarget, TargetStatus}
use nomad_autoscaler.Sdk.Action.{
  ScalingAction, none_needed, set_dry_run, set_meta, dry_run_count, meta_key_dry_run,
  meta_key_dry_run_count, number, flag,
}
use nomad_autoscaler.Sdk.Eval.{ScalingEvaluation}
use nomad_autoscaler.Plugins.{Result, ok, failed, Target, target_instance, target, dispense}
use nomad_autoscaler.Worker.Check.{Environment}
use nomad_autoscaler.Worker.Proposal.{IsWithin, IsProposal, Answers}
use nomad_autoscaler.Worker.Selection.{
  IsSoundAction, IsSoundResult, HaveStrategies, run_checks-IsSoundResult,
}
use nomad_autoscaler.Worker.{
  Handled, scaled, cooldown, scale_failed, Stops, Winner, no_winner, execute, conclude,
  conclude_with, evaluate, with_status, is_dry_run, after_scale, no_effect, is_none_needed,
}

-- The action scales in a direction, to another count within the limits, or it is a dry run, as it
-- must be where the target is configured so.
pub record IsSafe (p : ScalingPolicy) (count : ℤ) (config : Map String) (a : ScalingAction)
    : Type 0 where
  pub directed : a.direction ≢ none_needed
  pub dry : is_dry_run config ≡ true → a.count ≡ dry_run_count
  pub limited : (a.count ≡ dry_run_count) ⊎ (a.count ≢ count) × IsWithin p a.count

-- The target is asked to scale once, by a safe action, and the cooldown starts when it succeeds.
abbrev pub HasScaled : Target → ScalingPolicy → ℤ → Map String → Handled → Type 0
HasScaled t p count config r =
    (a : ScalingAction) × IsSafe p count config a
    × (((e : String) × (t.scale a config ≡ failed e)
          × (r ≡ record { error = some (scale_failed e); effects = scaled a config ∷ [] }))
        ⊎ (t.scale a config ≡ ok tt)
          × (r
              ≡ record { error = none; effects = scaled a config ∷ cooldown p.id p.cooldown ∷ [] }))

-- The call returns, and either does nothing or has scaled.
abbrev pub Concludes : Target → ScalingPolicy → ℤ → Map String → Option Handled → Type 0
Concludes t p count config x =
    (r : Handled) × (x ≡ some r) × ((r.effects ≡ []) ⊎ HasScaled t p count config r)

module _ (t : Target) (stops : Stops) (p : ScalingPolicy) (dest : ScalingPolicyTarget)
    (count : ℤ) where
  scale-Concludes :
      (a : ScalingAction) (r : Result {0} Unit)
      → IsSafe p count dest.config a
      → t.scale a dest.config ≡ r
      → Concludes t p count dest.config (some (after_scale p a dest.config r))
  scale-Concludes a (failed e) v h = (_, refl, inr (a, v, inl (e, h, refl)))
  scale-Concludes a (ok tt) v h = (_, refl, inr (a, v, inr (h, refl)))

  stop-Concludes :
      (a : ScalingAction)
      → IsSafe p count dest.config a
      → Concludes t p count dest.config (
          some (
            if stops.before_scale
            then no_effect none
            else after_scale p a dest.config (t.scale a dest.config)))
  stop-Concludes a v = elim (Bool-cases stops.before_scale) [
    | inl stop ↦ rw stop (_, refl, inl refl)
    | inr on ↦ rw on (scale-Concludes a _ v refl)
  ]

  set_dry_run-IsSafe :
      (a : ScalingAction)
      → a.direction ≢ none_needed
      → is_some a.meta ≡ true
      → (b : ScalingAction) × (set_dry_run a ≡ some b) × IsSafe p count dest.config b
  unfolding set_dry_run set_meta
  set_dry_run-IsSafe a n m = elim (Option-cases a.meta) [
    | inl e ↦ cc (ap is_some e)
    | inr (x, e) ↦ (
      record a {
        count = dry_run_count;
        meta = some (
            insert meta_key_dry_run_count (number a.count) (insert meta_key_dry_run (flag true) x));
      },
      rw (e, set_meta) refl,
      record { directed = n; dry = λ _. refl; limited = inl refl },
    )
  ]

  limited_by :
      {n : ℤ}
      → n ≢ count
      → (n ≡ dry_run_count) ⊎ IsWithin p n
      → (n ≡ dry_run_count) ⊎ (n ≢ count) × IsWithin p n
  limited_by moved (inl e) = inl e
  limited_by moved (inr w) = inr (moved, w)

  execute-Concludes :
      (a : ScalingAction)
      → a.direction ≢ none_needed
      → IsProposal p count a
      → Concludes t p count dest.config (execute t stops p dest a)
  unfolding execute
  execute-Concludes a n (inl e) = absurd (n e)
  execute-Concludes a n (inr (canonical, moved, within)) =
      elim (Bool-cases (is_dry_run dest.config)) [
        | inl dry ↦
            let (b, e, v) = set_dry_run-IsSafe a n canonical in rw (dry, e) (stop-Concludes b v)
        | inr real ↦ rw real (
            stop-Concludes a
              (record { directed = n; dry = λ e. cc; limited = limited_by moved within }))
      ]

  conclude_with-Concludes :
      (x : Option ScalingAction) (name : Option String)
      → IsSoundAction p count x
      → Concludes t p count dest.config (conclude_with t stops p dest x name)
  unfolding conclude_with
  conclude_with-Concludes none name v = (_, refl, inl refl)
  conclude_with-Concludes (some a) none v = (_, refl, inl refl)
  conclude_with-Concludes (some a) (some name) v = elim (Bool-cases (is_none_needed a.direction)) [
    | inl idle ↦ rw idle (_, refl, inl refl)
    | inr busy ↦ rw busy (execute-Concludes a (λ e. cc (ap is_none_needed e, busy)) (v a refl))
  ]

  conclude-Concludes :
      (r : Option Winner)
      → IsSoundResult p count r
      → Concludes t p count dest.config (conclude t stops p dest r)
  unfolding conclude
  conclude-Concludes none v = (_, refl, inl refl)
  conclude-Concludes (some w) v = conclude_with-Concludes w.action w.handler v

-- The call returns, and either does nothing, or a ready target was scaled.
abbrev pub HandlesWith :
    Environment → ScalingEvaluation → ScalingPolicyTarget → Option Handled → Type 0
HandlesWith env eval dest x =
    (r : Handled) × (x ≡ some r)
    × ((r.effects ≡ [])
        ⊎ (t : Target) × (status : TargetStatus) × (dispense dest.name target env.instances
            ≡ some (target_instance t))
          × (t.status dest.config ≡ ok (some status))
          × (status.ready ≡ true)
          × HasScaled t eval.policy status.count dest.config r)

module _ (env : Environment) (stops : Stops) (eval : ScalingEvaluation) (dest : ScalingPolicyTarget)
    (h : eval.policy.min ≤ℤ eval.policy.max) (answers : Answers env.instances)
    (strategies : HaveStrategies eval.check_evaluations) where
  evaluate-Concludes :
      (t : Target) (status : TargetStatus)
      → Concludes t eval.policy status.count dest.config (evaluate env stops t eval dest status)
  unfolding evaluate
  evaluate-Concludes t status =
      let (r, e, v) =
        run_checks-IsSoundResult env stops eval.policy status h answers 0 eval.check_evaluations
          no_winner strategies (λ a (k : none ≡ some a). cc) in
      rw e (conclude-Concludes t stops eval.policy dest status.count r v)

  pub with_status-Handles :
      (t : Target) (r : Result (Option TargetStatus))
      → r ≢ ok none
      → dispense dest.name target env.instances ≡ some (target_instance t)
      → t.status dest.config ≡ r
      → HandlesWith env eval dest (with_status env stops t eval dest r)
  unfolding with_status
  with_status-Handles t (failed e) n d k = (_, refl, inl refl)
  with_status-Handles t (ok none) n d k = absurd (n refl)
  with_status-Handles t (ok (some status)) n d k = elim (Bool-cases status.ready) [
    | inr not_ready ↦ rw not_ready (_, refl, inl refl)
    | inl ready ↦
        let (r, e, v) = evaluate-Concludes t status in
        rw ready
          (r, e, elim v [ inl idle ↦ inl idle | inr done ↦ inr (t, status, d, k, ready, done) ])
  ]
