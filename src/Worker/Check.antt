-- ===== src/Worker/Check.antt =====
-- The check handler of policyeval/base_worker.go.
use nomad_autoscaler.Prelude.{
  ℕ, String, Bool, List, [], ◌∷◌, Option, none, some, ℤ, ◌-ℤ◌, ltb_ℤ, eqb_ℤ, if◌then◌else◌,
  str_append, format_ℤ, ◌>>=◌,
}
use nomad_autoscaler.Sdk.Policy.{
  ScalingPolicy, ScalingPolicyCheck, ScalingPolicyStrategy, TargetStatus,
}
use nomad_autoscaler.Sdk.Action.{
  ScalingAction, ScaleDirection, none_needed, up, down, bare_action, canonicalize, cap_count,
}
use nomad_autoscaler.Sdk.Eval.{ScalingCheckEvaluation, TimestampedMetric}
use nomad_autoscaler.Plugins.{
  Result, ok, failed, TimeRange, Apm, Strategy, PluginId, PluginInstance, apm, strategy,
  apm_instance, strategy_instance, dispense,
}

-- The running plugins, the clock, whether the context is done while the query at an index runs, and
-- `sort.Sort`, which leaves the order of equal timestamps open.
pub record Environment : Type 0 where
  pub instances : List (PluginId × PluginInstance)
  pub now : ℤ
  pub stopped : ℕ → Bool
  pub sort : List TimestampedMetric → List TimestampedMetric

pub data CheckError : Type 0 where
  apm_not_initialized not_an_apm strategy_not_initialized not_a_strategy : CheckError
  query_failed run_failed : String → CheckError

-- `cancelled` is the pair of two nils.
pub data CheckOutcome : Type 0 where
  cancelled : CheckOutcome
  check_failed : CheckError → CheckOutcome
  proposed : ScalingAction → CheckOutcome

abbrev pub nothing_to_do : CheckOutcome
nothing_to_do = proposed (bare_action none_needed)

abbrev limit_reason : String → ℤ → ℤ → String
limit_reason side count limit = str_append "current count (" (
    str_append (format_ℤ count)
      (str_append (str_append ") " side) (str_append " limit (" (str_append (format_ℤ limit) ")"))))

-- The action that brings a count that needs no scaling back to its limits.
unfoldable pub min_max_action : ScalingPolicy → ℤ → Option ScalingAction
min_max_action p count =
    if ltb_ℤ count p.min
    then some (record (bare_action up) { count = p.min; reason = limit_reason "below" count p.min })
    else if ltb_ℤ p.max count
    then some
        (record (bare_action down) { count = p.max; reason = limit_reason "above" count p.max })
    else none

-- From the canonicalization of the action on.
unfoldable pub limit_action : ScalingPolicy → ℤ → ScalingAction → Option CheckOutcome
unfolding canonicalize cap_count
limit_action p count a = do
  b ← cap_count p.min p.max (canonicalize a)
  some (if eqb_ℤ count b.count then nothing_to_do else proposed b)

abbrev or_nothing : ScalingPolicy → ℤ → Option ScalingAction → Option CheckOutcome
or_nothing p count none = some nothing_to_do
or_nothing p count (some a) = limit_action p count a

unfoldable pub use_action : ScalingPolicy → ℤ → ScaleDirection → ScalingAction → Option CheckOutcome
unfolding limit_action min_max_action
use_action p count none_needed a = or_nothing p count (min_max_action p count)
use_action p count _ a = limit_action p count a

-- From the strategy's answer on.
unfoldable pub use_answer :
    ScalingPolicy → ℤ → Result (Option ScalingCheckEvaluation) → Option CheckOutcome
unfolding use_action
use_answer p count (failed e) = some (check_failed (run_failed e))
use_answer p count (ok none) = none
use_answer p count (ok (some c)) = use_action p count c.action.direction c.action

unfoldable pub use_sorted :
    Strategy
    → ScalingPolicy
    → ScalingCheckEvaluation
    → ℤ
    → List TimestampedMetric
    → Option CheckOutcome
unfolding use_answer
use_sorted s p c count [] = some nothing_to_do
use_sorted s p c count (m ∷ ms) = use_answer p count (s.run (record c { metrics = m ∷ ms }) count)

unfoldable pub use_metrics :
    Environment
    → Strategy
    → ScalingPolicy
    → ScalingCheckEvaluation
    → ℤ
    → Result (List TimestampedMetric)
    → Option CheckOutcome
unfolding use_sorted
use_metrics env s p c count (failed e) = some (check_failed (query_failed e))
use_metrics env s p c count (ok ms) = use_sorted s p c count (env.sort ms)

unfoldable pub query_range : ScalingPolicyCheck → ℤ → TimeRange
query_range c now = record { from = now -ℤ c.query_window; to = now }

unfoldable pub run_query :
    Environment
    → Apm
    → Strategy
    → ScalingPolicy
    → ScalingCheckEvaluation
    → ℕ
    → ℤ
    → Option CheckOutcome
unfolding use_metrics query_range
run_query env a s p c i count =
    if env.stopped i
    then some cancelled
    else use_metrics env s p c count (a.query c.check.query (query_range c.check env.now))

unfoldable pub with_strategy :
    Environment
    → Apm
    → ScalingPolicy
    → ScalingCheckEvaluation
    → ℕ
    → ℤ
    → Option PluginInstance
    → Option CheckOutcome
unfolding run_query
with_strategy env a p c i count none = some (check_failed strategy_not_initialized)
with_strategy env a p c i count (some (strategy_instance s)) = run_query env a s p c i count
with_strategy env a p c i count (some _) = some (check_failed not_a_strategy)

unfoldable pub with_apm :
    Environment
    → ScalingPolicy
    → ScalingCheckEvaluation
    → ScalingPolicyStrategy
    → ℕ
    → ℤ
    → Option PluginInstance
    → Option CheckOutcome
unfolding with_strategy dispense
with_apm env p c st i count none = some (check_failed apm_not_initialized)
with_apm env p c st i count (some (apm_instance a)) =
    with_strategy env a p c i count (dispense st.name strategy env.instances)
with_apm env p c st i count (some _) = some (check_failed not_an_apm)

-- `newCheckHandler`, which reads the name of the check's strategy, and `start`.
unfoldable pub start :
    Environment → ScalingPolicy → ScalingCheckEvaluation → ℕ → TargetStatus → Option CheckOutcome
unfolding with_apm dispense
start env p c i status = do
  st ← c.check.strategy
  with_apm env p c st i status.count (dispense c.check.source apm env.instances)
