-- ===== src/Handler/Transitions.antt =====
-- What a round of Run in policy/handler.go may do to its handler.
use nomad_autoscaler.Prelude.{
  ◌≡◌, ◌⊎◌, refl, sym, subst, ap, ◌∙◌, Option, none, some, ℤ, if◌then◌else◌, arith, inl, inr,
  Bool-cases, Option-cases, >>=-some-eq-some,
}
use nomad_autoscaler.Sdk.Policy.{ScalingPolicy, ScalingPolicyTarget, TargetStatus}
use nomad_autoscaler.Plugins.{
  Result, ok, failed, PluginInstance, apm_instance, strategy_instance, target_instance,
  other_instance, target, dispense,
}
use nomad_autoscaler.Handler.Rounds.{HasTicker}
use nomad_autoscaler.Handler.{
  Handler, Surroundings, Waking, Event, context_done, done_closed, source_error, policy_received,
  tick, cooldown_requested, Outcome, Round, stop, evaluate_status, query_target,
  generate_evaluation, after_generation, handle_tick, round_of_tick, run_round, update_handler,
  interval_changed,
}

-- The handler is as it was, or it was stopped.
abbrev pub KeptOrStopped : Handler → Handler → Type 0
KeptOrStopped h h' = (h' ≡ h) ⊎ (stop h ≡ some h')

evaluate_status-KeptOrStopped :
    (env : Surroundings) (p : ScalingPolicy) (status : Result (Option TargetStatus))
    (h h' : Handler) (o : Outcome)
    → evaluate_status env p status h ≡ some (o, h')
    → KeptOrStopped h h'
unfolding evaluate_status
evaluate_status-KeptOrStopped env p (failed message) h h' o e = inl (cc)
evaluate_status-KeptOrStopped env p (ok none) h h' o e =
    let (s, stops, same) = >>=-some-eq-some (stop h) (λ s. (Outcome.nothing, s)) e in
    inr (stops ∙ ap some (cc))
evaluate_status-KeptOrStopped env p (ok (some status)) h h' o e = inl (ground arith)

query_target-KeptOrStopped :
    (env : Surroundings) (p : ScalingPolicy) (t : ScalingPolicyTarget)
    (found : Option PluginInstance) (h h' : Handler) (o : Outcome)
    → query_target env p t found h ≡ some (o, h')
    → KeptOrStopped h h'
unfolding query_target
query_target-KeptOrStopped env p t none h h' o e = inl (cc)
query_target-KeptOrStopped env p t (some (target_instance plugin)) h h' o e =
    evaluate_status-KeptOrStopped env p (plugin.status t.config) h h' o e
query_target-KeptOrStopped env p t (some (apm_instance plugin)) h h' o e = inl (cc)
query_target-KeptOrStopped env p t (some (strategy_instance plugin)) h h' o e = inl (cc)
query_target-KeptOrStopped env p t (some other_instance) h h' o e = inl (cc)

generate_evaluation-KeptOrStopped :
    (env : Surroundings) (policy : Option ScalingPolicy) (h h' : Handler) (o : Outcome)
    → generate_evaluation env policy h ≡ some (o, h')
    → KeptOrStopped h h'
unfolding generate_evaluation
generate_evaluation-KeptOrStopped env none h h' o e = inl (cc)
generate_evaluation-KeptOrStopped env (some p) h h' o e = elim (Bool-cases p.enabled) [
  | inl on ↦ elim (Option-cases p.target) [
    | inl missing ↦ absurd (ground arith)
    | inr (t, has) ↦
        query_target-KeptOrStopped env p t (dispense t.name target env.instances) h h' o
          (ground arith)
  ]
  | inr off ↦ inl (ground arith)
]

pub handle_tick-KeptOrStopped :
    (env : Surroundings) (now : ℤ) (waking : Waking) (policy : Option ScalingPolicy)
    (h h' : Handler) (o : Outcome)
    → handle_tick env now waking policy h ≡ some (o, h')
    → KeptOrStopped h h'
unfolding handle_tick
handle_tick-KeptOrStopped env now waking policy h h' o e =
    let (w, given, ends) =
      >>=-some-eq-some (generate_evaluation env policy h)
        (λ w. (after_generation now waking w.0, w.1)) e in
    generate_evaluation-KeptOrStopped env policy h h' w.0 (given ∙ ap some (ground arith))

-- In the loop of `Run`, `doneCh` is open while the handler is running and was closed once otherwise.
abbrev pub IsLooping : Handler → Type 0
IsLooping h = HasTicker h × (h.closed ≡ (if h.running then 0 else 1))

-- What holds from one round to the next.
abbrev pub Sustains : Handler → Handler → Type 0
Sustains h h' = (h'.policy_id ≡ h.policy_id) × (h'.source ≡ h.source) × (IsLooping h → IsLooping h')

stop-Sustains : (h h' : Handler) → stop h ≡ some h' → Sustains h h'
unfolding stop
stop-Sustains h h' e = (
  ground arith,
  ground arith,
  λ ((interval, ticking), count). ((interval, ground arith), ground arith),
)

KeptOrStopped-Sustains : (h h' : Handler) → KeptOrStopped h h' → Sustains h h'
KeptOrStopped-Sustains h h' (inl same) = subst (Sustains h) (sym same) (refl, refl, λ x. x)
KeptOrStopped-Sustains h h' (inr stops) = stop-Sustains h h' stops

update_handler-Sustains :
    (p : ScalingPolicy) (h h' : Handler) → update_handler p h ≡ some h' → Sustains h h'
unfolding update_handler
update_handler-Sustains p h h' e = (
  ground arith,
  ground arith,
  λ ((interval, ticking), count). elim (Bool-cases (interval_changed h.current p)) [
    | inl changed ↦ ((p.evaluation_interval, ground arith), ground arith)
    | inr same ↦ ((interval, ground arith), ground arith)
  ],
)

-- Every round of a handler keeps its policy, its source and the state of its channel.
pub run_round-Sustains :
    (event : Event) (h h' : Handler) (w : Round) → run_round event h ≡ some (w, h') → Sustains h h'
unfolding run_round
run_round-Sustains context_done h h' w e = KeptOrStopped-Sustains h h' (inl (cc))
run_round-Sustains done_closed h h' w e = KeptOrStopped-Sustains h h' (inl (cc))
run_round-Sustains source_error h h' w e = KeptOrStopped-Sustains h h' (inl (cc))
run_round-Sustains (policy_received p) h h' w e =
    let (u, updated, same) =
      >>=-some-eq-some (update_handler p h)
        (λ u. (Round.goes_on none, record u { current = some p })) e in
    let (same_id, same_source, looping) = update_handler-Sustains p h u updated in
    let is_h' : record u { current = some p } ≡ h' = cc in
    subst (Sustains h) is_h' (same_id, same_source, looping)
run_round-Sustains (tick env now waking) h h' w e =
    let (o, ticked, same) =
      >>=-some-eq-some (handle_tick env now waking h.current h) (λ o. (round_of_tick o.0, o.1)) e in
    KeptOrStopped-Sustains h h' (
      handle_tick-KeptOrStopped env now waking h.current h h' o.0 (ticked ∙ ap some (ground arith)))
run_round-Sustains (cooldown_requested t waking) h h' w e =
    KeptOrStopped-Sustains h h' (inl (ground arith))
