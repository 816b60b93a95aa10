-- ===== src/Sdk/Tests.antt =====
-- The theorems on scaling actions at concrete actions.
use nomad_autoscaler.Prelude.{◌≡◌, refl, true, [], some, lookup, pos, ◌⊎◌, arith}
use nomad_autoscaler.Sdk.Action.{
  ScalingAction, bare_action, up, down, cap_count, canonicalize, set_dry_run, dry_run_count, number,
  flag, or_empty, meta_key_dry_run, meta_key_dry_run_count, preempt_scaling_action,
}
use nomad_autoscaler.Sdk.Action.Limits.{Capped, cap_count-Capped, set_dry_run-cap_count}
use nomad_autoscaler.Sdk.Action.Precedence.{Yields, preempt-Yields}

abbrev up_to_ten : ScalingAction
up_to_ten = record (bare_action up) { count = pos 10; meta = some [] }

abbrev down_to_two : ScalingAction
down_to_two = record (bare_action down) { count = pos 2; meta = some [] }

cap_count-Capped_example :
    (b : ScalingAction) × (cap_count (pos 1) (pos 5) up_to_ten ≡ some b)
    × Capped (pos 1) (pos 5) up_to_ten b
cap_count-Capped_example =
    cap_count-Capped (pos 1) (pos 5) up_to_ten [] (ground arith) (λ h. cc) refl

set_dry_run-cap_count_example :
    (b : ScalingAction) × (set_dry_run (canonicalize up_to_ten) ≡ some b)
    × (b.count ≡ dry_run_count)
    × (lookup meta_key_dry_run_count (or_empty b.meta) ≡ some (number (pos 10)))
    × (lookup meta_key_dry_run (or_empty b.meta) ≡ some (flag true))
    × (cap_count (pos 1) (pos 5) b ≡ some b)
set_dry_run-cap_count_example = set_dry_run-cap_count (pos 1) (pos 5) up_to_ten

preempt-Yields_example :
    (w : ScalingAction) × (preempt_scaling_action (some down_to_two) (some up_to_ten) ≡ some w)
    × ((w ≡ down_to_two) ⊎ (w ≡ up_to_ten))
    × Yields down_to_two w
    × Yields up_to_ten w
preempt-Yields_example = preempt-Yields (some down_to_two) (some up_to_ten)
