-- ===== src/Handler/Rounds.antt =====
-- The rounds of Run in policy/handler.go: when one panics, and when it ends the handler.
use nomad_autoscaler.Prelude.{
  ◌≡◌, ◌≢◌, subst, refl, true, Option, none, some, ℤ, pos, ◌≤ℤ◌, arith, inl, inr, Option-cases,
  >>=-some-eq-some,
}
use nomad_autoscaler.Sdk.Policy.{ScalingPolicyTarget, ScalingPolicy, TargetStatus}
use nomad_autoscaler.Sdk.Eval.{ScalingEvaluation}
use nomad_autoscaler.Plugins.{
  Result, ok, failed, PluginInstance, apm_instance, strategy_instance, target_instance,
  other_instance, target, dispense,
}
use nomad_autoscaler.Handler.{
  Handler, Surroundings, Event, context_done, done_closed, source_error, policy_received, tick,
  cooldown_requested, elapsed, Outcome, nothing, send, failure, canceled, returns, interval_changed,
  stop, evaluate_status, query_target, generate_evaluation, after_generation, handle_tick,
  round_of_tick, run_round, check_cooldown, last_event,
}
use nomad_autoscaler.Handler.Stopping.{IsSound, stop-eq-none_iff}

-- `Run` is past its first lines.
abbrev pub HasTicker : Handler → Type 0
HasTicker h = (interval : ℤ) × (h.ticker ≡ some interval)

abbrev pub LacksTarget : Option ScalingPolicy → Type 0
LacksTarget none = ⊥
LacksTarget (some p) = (p.enabled ≡ true) × (p.target ≡ none)

abbrev pub Panics : Event → Handler → Type 0
Panics (policy_received p) h =
    (interval_changed h.current p ≡ true) × (p.evaluation_interval ≤ℤ pos 0)
Panics (tick env now waking) h = LacksTarget h.current
Panics _ h = ⊥

module _ (h : Handler) (sound : IsSound h) (ticking : HasTicker h) where
  stop-ne-none : stop h ≢ none
  stop-ne-none e =
      let (running, missing) = (stop-eq-none_iff h sound).0 e in ground (arith, ticking.1)

evaluate_status-ne-canceled :
    (env : Surroundings) (p : ScalingPolicy) (status : Result (Option TargetStatus))
    (h h' : Handler) (o : Outcome)
    → evaluate_status env p status h ≡ some (o, h')
    → o ≢ canceled
unfolding evaluate_status
evaluate_status-ne-canceled env p (failed message) h h' o e same = cc
evaluate_status-ne-canceled env p (ok none) h h' o e same = ground arith
evaluate_status-ne-canceled env p (ok (some status)) h h' o e same = ground arith

query_target-ne-canceled :
    (env : Surroundings) (p : ScalingPolicy) (t : ScalingPolicyTarget)
    (found : Option PluginInstance) (h h' : Handler) (o : Outcome)
    → query_target env p t found h ≡ some (o, h')
    → o ≢ canceled
unfolding query_target
query_target-ne-canceled env p t none h h' o e same = cc
query_target-ne-canceled env p t (some (target_instance plugin)) h h' o e same =
    evaluate_status-ne-canceled env p (plugin.status t.config) h h' o e same
query_target-ne-canceled env p t (some (apm_instance plugin)) h h' o e same = cc
query_target-ne-canceled env p t (some (strategy_instance plugin)) h h' o e same = cc
query_target-ne-canceled env p t (some other_instance) h h' o e same = cc

generate_evaluation-ne-canceled :
    (env : Surroundings) (policy : Option ScalingPolicy) (h h' : Handler) (o : Outcome)
    → generate_evaluation env policy h ≡ some (o, h')
    → o ≢ canceled
unfolding generate_evaluation
generate_evaluation-ne-canceled env none h h' o e same = cc
generate_evaluation-ne-canceled env (some p) h h' o e same = elim (Option-cases p.target) [
  | inl missing ↦ ground arith
  | inr (t, has) ↦
      let found = dispense t.name target env.instances in
      ground (arith, query_target-ne-canceled env p t found h h' o)
]

check_cooldown-elapsed :
    (now cooldown : ℤ) (last : Option ℤ) (eval : ScalingEvaluation)
    → check_cooldown now elapsed cooldown last eval ≢ canceled
unfolding check_cooldown
check_cooldown-elapsed now cooldown none eval e = cc
check_cooldown-elapsed now cooldown (some last) eval e = ground arith

-- A cooldown that is not cut short does not cancel a tick.
after_generation-elapsed :
    (now : ℤ) (o : Outcome) → after_generation now elapsed o ≡ canceled → o ≡ canceled
unfolding after_generation
after_generation-elapsed now (send eval) e =
    absurd (check_cooldown-elapsed now eval.policy.cooldown (last_event eval.target_status) eval e)
after_generation-elapsed now nothing e = e
after_generation-elapsed now (failure m) e = e
after_generation-elapsed now canceled e = e

handle_tick-elapsed :
    (env : Surroundings) (now : ℤ) (policy : Option ScalingPolicy) (h h' : Handler) (o : Outcome)
    → handle_tick env now elapsed policy h ≡ some (o, h')
    → o ≢ canceled
unfolding handle_tick
handle_tick-elapsed env now policy h h' o e same =
    let (w, given, ends) =
      >>=-some-eq-some (generate_evaluation env policy h)
        (λ w. (after_generation now elapsed w.0, w.1)) e in
    let is_canceled : after_generation now elapsed w.0 ≡ canceled = cc in
    generate_evaluation-ne-canceled env policy h w.1 w.0 (given)
      (after_generation-elapsed now w.0 is_canceled)

round_of_tick-eq-returns : (o : Outcome) → round_of_tick o ≡ returns → o ≡ canceled
unfolding round_of_tick
round_of_tick-eq-returns nothing e = cc
round_of_tick-eq-returns (send eval) e = cc
round_of_tick-eq-returns (failure m) e = cc
round_of_tick-eq-returns canceled e = refl

-- What interrupts a handler.
abbrev pub Interrupts : Event → Type 0
Interrupts context_done = Unit
Interrupts done_closed = Unit
Interrupts (tick env now waking) = waking ≢ elapsed
Interrupts (cooldown_requested t waking) = waking ≢ elapsed
Interrupts _ = ⊥

-- `Run` returns only if its context is done or `doneCh` is closed, be it during a cooldown. An error of
-- the source, an error of an evaluation and a failed target do not end it.
pub run_round-returns_only :
    (event : Event) (h h' : Handler) → run_round event h ≡ some (returns, h') → Interrupts event
unfolding run_round
run_round-returns_only context_done h h' e = tt
run_round-returns_only done_closed h h' e = tt
run_round-returns_only source_error h h' e = cc
run_round-returns_only (policy_received p) h h' e = ground arith
run_round-returns_only (tick env now waking) h h' e = λ is_elapsed.
    let (w, given, ends) =
      >>=-some-eq-some (handle_tick env now waking h.current h) (λ w. (round_of_tick w.0, w.1)) e in
    let is_canceled : w.0 ≡ canceled = round_of_tick-eq-returns w.0 (cc) in
    handle_tick-elapsed env now h.current h w.1 w.0
      (subst (λ x. handle_tick env now x h.current h ≡ some (w.0, w.1)) is_elapsed given)
      is_canceled
run_round-returns_only (cooldown_requested t waking) h h' e = λ w. ground arith
