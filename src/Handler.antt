-- ===== src/Handler.antt =====
-- policy/handler.go: the handler of one policy. The logger, the channels' buffers and the monitoring
-- goroutine are left out; what `Run` receives from a channel is an event. A ticker is its interval.
-- `none` stands for a run-time panic.
pub mod Cooldown
pub mod Rounds
pub mod Transitions
pub mod Stopping
mod Tests
use nomad_autoscaler.Prelude.{
  ℕ, suc, String, str_append, str_eq, Bool, true, false, not, ◌||◌, List, Option, none, some,
  lookup, ℤ, pos, ltb, ltb_ℤ, eqb_ℤ, ◌-ℤ◌, if◌then◌else◌, wrap, of_bits, parse_uint, ◌>>=◌,
}
use nomad_autoscaler.Sdk.Policy.{
  ScalingPolicy, ScalingPolicyTarget, TargetStatus, target_status_meta_key_last_event,
}
use nomad_autoscaler.Sdk.Eval.{ScalingEvaluation, new_scaling_evaluation}
use nomad_autoscaler.Plugins.{
  Result, ok, failed, PluginId, PluginInstance, target_instance, target, dispense,
}

-- One second.
abbrev pub cooldown_ignore_time : ℤ
cooldown_ignore_time = pos 1_000_000_000

-- Three minutes, `policyReadTimeout`.
abbrev pub policy_read_timeout : ℤ
policy_read_timeout = pos 180_000_000_000

-- How often `doneCh` was closed is kept; Go panics when a closed channel is closed again.
pub record Handler : Type 0 where
  pub policy_id : String
  pub source : String
  pub ticker : Option ℤ
  pub running : Bool
  pub closed : ℕ
  -- `currentPolicy`, a variable of `Run`
  pub current : Option ScalingPolicy

unfoldable pub new_handler : String → String → Handler
new_handler id source = record {
  policy_id = id;
  source = source;
  ticker = none;
  running = false;
  closed = 0;
  current = none;
}

-- `h.ticker.Stop()` dereferences the ticker.
unfoldable pub close_done : Handler → Option Handler
close_done h = h.ticker >>= (λ interval.
    if ltb 0 h.closed then none else some (record h { closed = suc h.closed; running = false }))

unfoldable pub stop : Handler → Option Handler
unfolding close_done
stop h = if h.running then close_done h else some h

-- The first lines of `Run`: the flag is set under its lock, and the ticker is made after that.
unfoldable pub mark_running : Handler → Handler
mark_running h = record h { running = true }

unfoldable pub make_ticker : Handler → Handler
make_ticker h = record h { ticker = some policy_read_timeout }

unfoldable pub interval_changed : Option ScalingPolicy → ScalingPolicy → Bool
interval_changed none next = true
interval_changed (some current) next =
    not (eqb_ℤ current.evaluation_interval next.evaluation_interval)

-- `time.NewTicker` panics for an interval that is not positive.
unfoldable pub new_ticker : ℤ → Handler → Option Handler
new_ticker interval h =
    if ltb_ℤ (pos 0) interval then some (record h { ticker = some interval }) else none

unfoldable pub update_handler : ScalingPolicy → Handler → Option Handler
unfolding interval_changed new_ticker
update_handler next h =
    if interval_changed h.current next
    then h.ticker >>= (λ old. new_ticker next.evaluation_interval h)
    else some h

unfoldable pub calculate_remaining_cooldown : ℤ → ℤ → ℤ → ℤ
unfolding wrap
calculate_remaining_cooldown cd ts last_event = wrap (cd -ℤ wrap (ts -ℤ last_event))

-- What the code outside this package gives: the running plugins, the UUID of an evaluation, and the
-- clock at its creation.
pub record Surroundings : Type 0 where
  pub instances : List (PluginId × PluginInstance)
  pub uuid : String
  pub created : ℕ

pub data TickError : Type 0 where
  policy_not_read : TickError
  not_stored not_a_target : String → TickError

-- The results `(nil, nil)`, `(eval, nil)`, `(nil, err)` and `(nil, context.Canceled)`.
pub data Outcome : Type 0 where
  nothing : Outcome
  send : ScalingEvaluation → Outcome
  failure : TickError → Outcome
  canceled : Outcome

unfoldable pub evaluate_status :
    Surroundings
    → ScalingPolicy
    → Result (Option TargetStatus)
    → Handler
    → Option (Outcome × Handler)
unfolding stop new_scaling_evaluation
evaluate_status env policy (failed e) h = some (nothing, h)
evaluate_status env policy (ok none) h = stop h >>= (λ h'. some (nothing, h'))
evaluate_status env policy (ok (some status)) h =
    if not status.ready
    then some (nothing, h)
    else some (send (new_scaling_evaluation env.uuid env.created policy (some status)), h)

unfoldable pub query_target :
    Surroundings
    → ScalingPolicy
    → ScalingPolicyTarget
    → Option PluginInstance
    → Handler
    → Option (Outcome × Handler)
unfolding evaluate_status
query_target env policy t none h = some (failure (not_stored t.name), h)
query_target env policy t (some (target_instance plugin)) h =
    evaluate_status env policy (plugin.status t.config) h
query_target env policy t (some other) h = some (failure (not_a_target t.name), h)

unfoldable pub generate_evaluation :
    Surroundings → Option ScalingPolicy → Handler → Option (Outcome × Handler)
unfolding query_target dispense
generate_evaluation env none h = some (failure policy_not_read, h)
generate_evaluation env (some policy) h =
    if not policy.enabled
    then some (nothing, h)
    else (policy.target
        >>= (λ t. query_target env policy t (dispense t.name target env.instances) h))

-- Which of the three channels ends a cooldown.
pub data Waking : Type 0 where
  elapsed context_done stopped : Waking

unfoldable pub enforce_cooldown : Waking → Bool
enforce_cooldown elapsed = true
enforce_cooldown context_done = false
enforce_cooldown stopped = false

-- The time of the target's last event, if it has a number there.
unfoldable pub last_event : Option TargetStatus → Option ℤ
unfolding parse_uint of_bits
last_event status = do
  s ← status
  ts ← lookup target_status_meta_key_last_event s.meta
  n ← parse_uint ts
  some (of_bits n)

-- The rest of `handleTick` for an evaluation, whose policy is the one that `handleTick` was given.
-- `cur_time` is the clock's reading before the evaluation was made.
unfoldable pub check_cooldown : ℤ → Waking → ℤ → Option ℤ → ScalingEvaluation → Outcome
unfolding calculate_remaining_cooldown enforce_cooldown
check_cooldown cur_time waking cooldown none eval = send eval
check_cooldown cur_time waking cooldown (some last_ts) eval =
    if ltb_ℤ cooldown_ignore_time (calculate_remaining_cooldown cooldown cur_time last_ts)
    then if enforce_cooldown waking then nothing else canceled
    else send eval

unfoldable pub after_generation : ℤ → Waking → Outcome → Outcome
unfolding check_cooldown last_event
after_generation cur_time waking (send eval) =
    check_cooldown cur_time waking eval.policy.cooldown (last_event eval.target_status) eval
after_generation cur_time waking nothing = nothing
after_generation cur_time waking (failure e) = failure e
after_generation cur_time waking canceled = canceled

unfoldable pub handle_tick :
    Surroundings → ℤ → Waking → Option ScalingPolicy → Handler → Option (Outcome × Handler)
unfolding generate_evaluation after_generation
handle_tick env cur_time waking policy h = do
  (outcome, h') ← generate_evaluation env policy h
  some (after_generation cur_time waking outcome, h')

-- What the `select` of `Run` receives.
pub data Event : Type 0 where
  context_done done_closed source_error : Event
  policy_received : ScalingPolicy → Event
  tick : Surroundings → ℤ → Waking → Event
  cooldown_requested : ℤ → Waking → Event

-- How a round of the loop ends, with the evaluation that it sent to `evalCh`.
pub data Round : Type 0 where
  goes_on : Option ScalingEvaluation → Round
  returns : Round

unfoldable pub round_of_tick : Outcome → Round
round_of_tick nothing = goes_on none
round_of_tick (send eval) = goes_on (some eval)
round_of_tick (failure e) = goes_on none
round_of_tick canceled = returns

unfoldable pub run_round : Event → Handler → Option (Round × Handler)
unfolding update_handler handle_tick round_of_tick
run_round Event.context_done h = some (returns, h)
run_round done_closed h = some (returns, h)
run_round source_error h = some (goes_on none, h)
run_round (policy_received p) h = do
  h' ← update_handler p h
  some (goes_on none, record h' { current = some p })
run_round (tick env cur_time waking) h = do
  (outcome, h') ← handle_tick env cur_time waking h.current h
  some (round_of_tick outcome, h')
run_round (cooldown_requested t waking) h =
    some (if enforce_cooldown waking then goes_on none else returns, h)
