-- ===== src/Handler/Tests.antt =====
-- The theorems on handlers at a concrete policy and target.
use nomad_autoscaler.Prelude.{
  ℕ, ◌≡◌, refl, true, [], ◌∷◌, none, some, pos, negsuc, arith, ltb, if◌then◌else◌, ◌-ℤ◌, ◌+◌,
  format_ℕ, lookup,
}
use nomad_autoscaler.Sdk.Policy.{
  ScalingPolicy, TargetStatus, zero_policy, target_status_meta_key_last_event,
}
use nomad_autoscaler.Sdk.Eval.{new_scaling_evaluation}
use nomad_autoscaler.Plugins.{ok, Target, target, target_instance, dispense}
use nomad_autoscaler.Handler.{
  Handler, Surroundings, nothing, send, canceled, elapsed, stopped, enforce_cooldown,
  calculate_remaining_cooldown, handle_tick, policy_received, cooldown_requested, run_round,
}
use nomad_autoscaler.Handler.Cooldown.{handle_tick-cooldown, calculate_remaining_cooldown-eq}
use nomad_autoscaler.Handler.Rounds.{Interrupts, run_round-returns_only}

-- Twenty seconds of cooldown after an event at second 100.
abbrev policy : ScalingPolicy
policy = record zero_policy {
  id = "p";
  enabled = true;
  cooldown = pos 20_000_000_000;
  evaluation_interval = pos 10_000_000_000;
  target = some (record { name = "job"; config = [] });
}

abbrev status : TargetStatus
status = record {
  ready = true;
  count = pos 2;
  meta = (target_status_meta_key_last_event, "100000000000") ∷ [];
}

abbrev job : Target
job = record { status = λ config. ok (some status); scale = λ a config. ok tt }

abbrev surroundings : Surroundings
surroundings = record {
  instances = (record { name = "job"; plugin_type = target }, target_instance job) ∷ [];
  uuid = "u";
  created = 1;
}

abbrev handler : Handler
handler = record {
  policy_id = "p";
  source = "nomad";
  ticker = some (pos 10_000_000_000);
  running = true;
  closed = 0;
  current = some policy;
}

abbrev at_second_110 : ℕ
at_second_110 = 110_000_000_000

handle_tick-cooldown_example :
    handle_tick surroundings (pos at_second_110) elapsed (some policy) handler
    ≡ some (
      (if ltb (at_second_110 + 1_000_000_000) (100_000_000_000 + 20_000_000_000)
          then (if enforce_cooldown elapsed then nothing else canceled)
          else send (new_scaling_evaluation "u" 1 policy (some status))),
      handler,
    )
unfolding format_ℕ dispense lookup
handle_tick-cooldown_example =
    handle_tick-cooldown surroundings at_second_110 100_000_000_000 20_000_000_000 elapsed handler
      policy (record { name = "job"; config = [] }) job status refl refl refl refl refl refl refl
      (omega arith) (omega arith) (omega arith)

calculate_remaining_cooldown-eq_example :
    calculate_remaining_cooldown (pos 20) (pos 30) (pos 15) ≡ pos 20 -ℤ (pos 30 -ℤ pos 15)
calculate_remaining_cooldown-eq_example =
    calculate_remaining_cooldown-eq 20 30 15 (omega arith) (omega arith) (omega arith)

-- A policy with a negative interval.
abbrev hasty : ScalingPolicy
hasty = record policy { evaluation_interval = negsuc 0 }

hasty_panics : run_round (policy_received hasty) handler ≡ none
unfolding run_round
hasty_panics = refl

run_round-returns_only_example : Interrupts (cooldown_requested (pos 5) stopped)
unfolding run_round
run_round-returns_only_example =
    run_round-returns_only (cooldown_requested (pos 5) stopped) handler handler refl
