-- ===== src/Worker/Proposal.antt =====
-- What a check handler proposes.
use nomad_autoscaler.Prelude.{
  ℕ, String, ◌≡◌, refl, sym, ap, ◌≢◌, true, ◌⊎◌, inl, inr, List, [], ◌∷◌, length, Option, none,
  some, ℤ, ◌≤ℤ◌, eqb_ℤ, eqb_ℤ_iff, is_some, if◌then◌else◌, Bool-cases, Option-cases, arith, ◌<◌,
  subst, ◌>>=◌,
}
use nomad_autoscaler.Sdk.Policy.{ScalingPolicy, ScalingPolicyStrategy, TargetStatus}
use nomad_autoscaler.Sdk.Action.{
  ScalingAction, ScaleDirection, none_needed, up, down, canonicalize, cap_count, dry_run_count,
  or_empty,
}
use nomad_autoscaler.Sdk.Action.Limits.{cap_count-Capped}
use nomad_autoscaler.Sdk.Eval.{ScalingCheckEvaluation, TimestampedMetric}
use nomad_autoscaler.Plugins.{
  Result, ok, failed, Apm, Strategy, PluginId, PluginInstance, apm, strategy, apm_instance,
  strategy_instance, target_instance, other_instance, dispense,
}
use nomad_autoscaler.Worker.Check.{
  Environment, CheckOutcome, cancelled, check_failed, proposed, nothing_to_do, min_max_action,
  limit_action, use_action, use_answer, use_sorted, use_metrics, run_query, with_strategy, with_apm,
  start,
}

abbrev pub IsWithin : ScalingPolicy → ℤ → Type 0
IsWithin p n = (p.min ≤ℤ n) × (n ≤ℤ p.max)

-- An action that needs no scaling, or a canonical one to another count, which is within the limits
-- or the mark of a dry run.
abbrev pub IsProposal : ScalingPolicy → ℤ → ScalingAction → Type 0
IsProposal p count a =
    (a.direction ≡ none_needed)
    ⊎ (is_some a.meta ≡ true) × (a.count ≢ count) × ((a.count ≡ dry_run_count) ⊎ IsWithin p a.count)

abbrev pub IsSound : ScalingPolicy → ℤ → CheckOutcome → Type 0
IsSound p count (proposed a) = IsProposal p count a
IsSound p count _ = Unit

-- The call returns, and its outcome is sound.
abbrev pub Sound : ScalingPolicy → ℤ → Option CheckOutcome → Type 0
Sound p count r = (o : CheckOutcome) × (r ≡ some o) × IsSound p count o

-- A strategy that is given metrics and gives no error gives an evaluation.
abbrev pub Answers : List (PluginId × PluginInstance) → Type 0
Answers instances =
    (name : String) (s : Strategy) (c : ScalingCheckEvaluation) (count : ℤ)
    → dispense name strategy instances ≡ some (strategy_instance s)
    → 0 < length c.metrics
    → s.run c count ≢ ok none

module _ (p : ScalingPolicy) (count : ℤ) (h : p.min ≤ℤ p.max) where
  proposed-Sound :
      (a : ScalingAction)
      → is_some a.meta ≡ true
      → (a.count ≡ dry_run_count) ⊎ IsWithin p a.count
      → Sound p count (some (if eqb_ℤ count a.count then nothing_to_do else proposed a))
  proposed-Sound a canonical within = elim (Bool-cases (eqb_ℤ count a.count)) [
    | inl same ↦ rw same (nothing_to_do, refl, inl refl)
    | inr moved ↦ rw moved (
      proposed a,
      refl,
      inr (canonical, λ e. cc (moved, (eqb_ℤ_iff count a.count).1 (sym e)), within),
    )
  ]

  capped-Sound :
      (a b : ScalingAction)
      → cap_count p.min p.max (canonicalize a) ≡ some b
      → is_some b.meta ≡ true
      → (b.count ≡ dry_run_count) ⊎ IsWithin p b.count
      → Sound p count (limit_action p count a)
  unfolding limit_action
  capped-Sound a b e canonical within = rw e (proposed-Sound b canonical within)

  dry_run_kept :
      (a : ScalingAction)
      → a.count ≡ dry_run_count
      → cap_count p.min p.max (canonicalize a) ≡ some (canonicalize a)
  unfolding cap_count canonicalize
  dry_run_kept a e = rw e refl

  limit_action-Sound : (a : ScalingAction) → Sound p count (limit_action p count a)
  unfolding canonicalize
  limit_action-Sound a = elim (Bool-cases (eqb_ℤ a.count dry_run_count)) [
    | inl dry ↦
        let e = (eqb_ℤ_iff a.count dry_run_count).0 dry in
        capped-Sound a (canonicalize a) (dry_run_kept a e) refl (inl e)
    | inr real ↦
        let (b, e, v) =
          cap_count-Capped p.min p.max (canonicalize a) (or_empty a.meta) h
            (λ e. cc (real, (eqb_ℤ_iff a.count dry_run_count).1 e)) refl in
        capped-Sound a b e v.canonical (inr (v.above, v.below))
  ]

  use_action-Sound :
      (d : ScaleDirection) (a : ScalingAction) → Sound p count (use_action p count d a)
  unfolding use_action
  use_action-Sound down a = limit_action-Sound a
  use_action-Sound up a = limit_action-Sound a
  use_action-Sound none_needed a = elim (Option-cases (min_max_action p count)) [
    | inl e ↦ rw e (nothing_to_do, refl, inl refl)
    | inr (x, e) ↦ rw e (limit_action-Sound x)
  ]

  use_answer-Sound :
      (r : Result (Option ScalingCheckEvaluation))
      → r ≢ ok none
      → Sound p count (use_answer p count r)
  unfolding use_answer
  use_answer-Sound (failed e) n = (check_failed _, refl, tt)
  use_answer-Sound (ok none) n = absurd (n refl)
  use_answer-Sound (ok (some c)) n = use_action-Sound c.action.direction c.action

module _ (env : Environment) (p : ScalingPolicy) (c : ScalingCheckEvaluation) (i : ℕ)
    (count : ℤ) where
  use_sorted-Sound :
      (name : String) (s : Strategy) (ms : List TimestampedMetric)
      → p.min ≤ℤ p.max
      → Answers env.instances
      → dispense name strategy env.instances ≡ some (strategy_instance s)
      → Sound p count (use_sorted s p c count ms)
  unfolding use_sorted
  use_sorted-Sound name s [] h v e = (nothing_to_do, refl, inl refl)
  use_sorted-Sound name s (m ∷ ms) h v e =
      use_answer-Sound p count h _ (v name s _ count e (omega arith))

  use_metrics-Sound :
      (name : String) (s : Strategy) (r : Result (List TimestampedMetric))
      → p.min ≤ℤ p.max
      → Answers env.instances
      → dispense name strategy env.instances ≡ some (strategy_instance s)
      → Sound p count (use_metrics env s p c count r)
  unfolding use_metrics
  use_metrics-Sound name s (failed e) h v d = (check_failed _, refl, tt)
  use_metrics-Sound name s (ok ms) h v d = use_sorted-Sound name s (env.sort ms) h v d

  run_query-Sound :
      (name : String) (a : Apm) (s : Strategy)
      → p.min ≤ℤ p.max
      → Answers env.instances
      → dispense name strategy env.instances ≡ some (strategy_instance s)
      → Sound p count (run_query env a s p c i count)
  unfolding run_query
  run_query-Sound name a s h v d = elim (Bool-cases (env.stopped i)) [
    | inl stop ↦ rw stop (cancelled, refl, tt)
    | inr on ↦ rw on (use_metrics-Sound name s _ h v d)
  ]

  with_strategy-Sound :
      (name : String) (a : Apm) (found : Option PluginInstance)
      → p.min ≤ℤ p.max
      → Answers env.instances
      → dispense name strategy env.instances ≡ found
      → Sound p count (with_strategy env a p c i count found)
  unfolding with_strategy
  with_strategy-Sound name a none h v d = (check_failed _, refl, tt)
  with_strategy-Sound name a (some (strategy_instance s)) h v d = run_query-Sound name a s h v d
  with_strategy-Sound name a (some (apm_instance x)) h v d = (check_failed _, refl, tt)
  with_strategy-Sound name a (some (target_instance x)) h v d = (check_failed _, refl, tt)
  with_strategy-Sound name a (some other_instance) h v d = (check_failed _, refl, tt)

  with_apm-Sound :
      (st : ScalingPolicyStrategy) (found : Option PluginInstance)
      → p.min ≤ℤ p.max
      → Answers env.instances
      → Sound p count (with_apm env p c st i count found)
  unfolding with_apm
  with_apm-Sound st none h v = (check_failed _, refl, tt)
  with_apm-Sound st (some (apm_instance a)) h v = with_strategy-Sound st.name a _ h v refl
  with_apm-Sound st (some (strategy_instance x)) h v = (check_failed _, refl, tt)
  with_apm-Sound st (some (target_instance x)) h v = (check_failed _, refl, tt)
  with_apm-Sound st (some other_instance) h v = (check_failed _, refl, tt)

-- For a policy with its minimum not above its maximum, a check with a strategy and strategies that
-- answer, the check handler returns without a panic, and what it proposes needs no scaling or is a
-- canonical action to another count, which is within the limits unless it is -1: that is the mark of a
-- dry run, and a strategy may ask for it too.
pub start-Sound :
    (env : Environment) (p : ScalingPolicy) (c : ScalingCheckEvaluation) (i : ℕ)
    (status : TargetStatus)
    → p.min ≤ℤ p.max
    → Answers env.instances
    → is_some c.check.strategy ≡ true
    → Sound p status.count (start env p c i status)
unfolding start
start-Sound env p c i status h v present = elim (Option-cases c.check.strategy) [
  | inl e ↦ cc (ap is_some e)
  | inr (st, e) ↦
      let found = dispense c.check.source apm env.instances in
      subst
        (λ (x : Option ScalingPolicyStrategy).
          Sound p status.count (x >>= λ st. with_apm env p c st i status.count found))
        (sym e) (with_apm-Sound env p c i status.count st found h v)
]
