-- ===== src/Handler/Cooldown.antt =====
-- calculateRemainingCooldown and handleTick of policy/handler.go: when a cooldown holds a tick back.
use nomad_autoscaler.Prelude.{
  ℕ, ◌+◌, ◌<◌, ◌≡◌, ap, ◌∙◌, half_range, lt→ltb, true, Option, some, lookup, ℤ, pos, ltb, ltb_ℤ,
  ◌-ℤ◌, arith, if◌then◌else◌, InRange, wrap-eq_of_InRange, format_ℕ, parse_uint-format_ℕ,
}
use nomad_autoscaler.Sdk.Policy.{
  ScalingPolicy, ScalingPolicyTarget, TargetStatus, target_status_meta_key_last_event,
}
use nomad_autoscaler.Sdk.Eval.{ScalingEvaluation, new_scaling_evaluation}
use nomad_autoscaler.Plugins.{ok, Target, target_instance, target, dispense}
use nomad_autoscaler.Handler.{
  cooldown_ignore_time, Handler, Surroundings, Waking, Outcome, after_generation,
  generate_evaluation, nothing, send, canceled, calculate_remaining_cooldown, enforce_cooldown,
  last_event, check_cooldown, handle_tick,
}

-- 2 ^ 62: nanoseconds up to the year 2116.
abbrev pub far_future : ℕ
far_future = 4_611_686_018_427_387_904

near-InRange :
    (cooldown ts last : ℕ)
    → cooldown < far_future
    → ts < far_future
    → last < far_future
    → InRange (pos ts -ℤ pos last) × InRange (pos cooldown -ℤ (pos ts -ℤ pos last))
unfolding ◌-ℤ◌
near-InRange cooldown ts last hc ht hl = ground arith

-- The subtraction of two times and of their distance from a cooldown does not overflow, for times and
-- cooldowns below 2 ^ 62 nanoseconds.
pub calculate_remaining_cooldown-eq :
    (cooldown ts last : ℕ)
    → cooldown < far_future
    → ts < far_future
    → last < far_future
    → calculate_remaining_cooldown (pos cooldown) (pos ts) (pos last)
      ≡ pos cooldown -ℤ (pos ts -ℤ pos last)
unfolding calculate_remaining_cooldown
calculate_remaining_cooldown-eq cooldown ts last hc ht hl =
    let (since, left) = near-InRange cooldown ts last hc ht hl in
    rw (wrap-eq_of_InRange (pos ts -ℤ pos last) since, wrap-eq_of_InRange _ left)

ignore_time-lt_iff :
    (cooldown ts last : ℕ)
    → ltb_ℤ cooldown_ignore_time (pos cooldown -ℤ (pos ts -ℤ pos last))
      ≡ ltb (ts + 1_000_000_000) (last + cooldown)
unfolding ◌-ℤ◌
ignore_time-lt_iff cooldown ts last = ground arith

last_event-format_ℕ :
    (s : TargetStatus) (last : ℕ)
    → lookup target_status_meta_key_last_event s.meta ≡ some (format_ℕ last)
    → last < far_future
    → last_event (some s) ≡ some (pos last)
unfolding last_event
last_event-format_ℕ s last at small =
    let small' : last < half_range = omega arith in
    rw (at, parse_uint-format_ℕ last (omega arith), lt→ltb last half_range small')

check_cooldown_times :
    (now last cooldown : ℕ) (waking : Waking) (eval : ScalingEvaluation)
    → now < far_future
    → last < far_future
    → cooldown < far_future
    → check_cooldown (pos now) waking (pos cooldown) (some (pos last)) eval ≡ (
        if ltb (now + 1_000_000_000) (last + cooldown)
        then (if enforce_cooldown waking then nothing else canceled)
        else send eval)
unfolding check_cooldown
check_cooldown_times now last cooldown waking eval hn hl hc = rw (
  calculate_remaining_cooldown-eq cooldown now last hc hn hl,
  ignore_time-lt_iff cooldown now last,
)

pub generate_evaluation_ready :
    (env : Surroundings) (h : Handler) (p : ScalingPolicy) (t : ScalingPolicyTarget)
    (plugin : Target) (s : TargetStatus)
    → p.enabled ≡ true
    → p.target ≡ some t
    → dispense t.name target env.instances ≡ some (target_instance plugin)
    → plugin.status t.config ≡ ok (some s)
    → s.ready ≡ true
    → generate_evaluation env (some p) h
      ≡ some (send (new_scaling_evaluation env.uuid env.created p (some s)), h)
unfolding generate_evaluation
generate_evaluation_ready env h p t plugin s on has found says ready = ground arith

pub handle_tick_generated :
    (env : Surroundings) (now : ℤ) (waking : Waking) (policy : Option ScalingPolicy) (h : Handler)
    (o : Outcome) (h' : Handler)
    → generate_evaluation env policy h ≡ some (o, h')
    → handle_tick env now waking policy h ≡ some (after_generation now waking o, h')
unfolding handle_tick
handle_tick_generated env now waking policy h o h' e = rw e

-- A tick for an enabled policy, whose target is ready and reports the time `last` of its last event as
-- a decimal, sends the evaluation unless more than a second of the cooldown is left, last + cooldown >
-- now + 1 s. Then the handler waits and sends nothing, and returns if the wait is cut short. Times and
-- cooldowns are below 2 ^ 62 nanoseconds.
pub handle_tick-cooldown :
    (env : Surroundings) (now last cooldown : ℕ) (waking : Waking) (h : Handler) (p : ScalingPolicy)
    (t : ScalingPolicyTarget) (plugin : Target) (s : TargetStatus)
    → p.enabled ≡ true
    → p.cooldown ≡ pos cooldown
    → p.target ≡ some t
    → dispense t.name target env.instances ≡ some (target_instance plugin)
    → plugin.status t.config ≡ ok (some s)
    → s.ready ≡ true
    → lookup target_status_meta_key_last_event s.meta ≡ some (format_ℕ last)
    → now < far_future
    → last < far_future
    → cooldown < far_future
    → handle_tick env (pos now) waking (some p) h
      ≡ some (
        (if ltb (now + 1_000_000_000) (last + cooldown)
            then (if enforce_cooldown waking then nothing else canceled)
            else send (new_scaling_evaluation env.uuid env.created p (some s))),
        h,
      )
unfolding after_generation new_scaling_evaluation lookup
handle_tick-cooldown env now last cooldown waking h p t plugin s on cd has found says ready at hn hl
      hc =
    let eval : ScalingEvaluation = new_scaling_evaluation env.uuid env.created p (some s) in
    handle_tick_generated env (pos now) waking (some p) h _ h
      (generate_evaluation_ready env h p t plugin s on has found says ready)
    ∙ ap (λ o. some (o, h))
        (ap (λ c. check_cooldown (pos now) waking c (last_event (some s)) eval) cd
          ∙ (ap (λ l. check_cooldown (pos now) waking (pos cooldown) l eval)
                (last_event-format_ℕ s last at hl)
              ∙ check_cooldown_times now last cooldown waking eval hn hl hc))
