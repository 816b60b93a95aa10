-- ===== src/Worker/Tests.antt =====
-- The worker's theorems at a concrete policy and concrete plugins.
use nomad_autoscaler.Prelude.{◌≡◌, refl, ◌≢◌, true, false, [], ◌∷◌, none, some, pos, arith, subst}
use nomad_autoscaler.Sdk.Policy.{ScalingPolicy, ScalingPolicyTarget, TargetStatus, zero_policy}
use nomad_autoscaler.Sdk.Action.{ScalingAction, bare_action, up, none_needed}
use nomad_autoscaler.Sdk.Eval.{ScalingEvaluation, ScalingCheckEvaluation}
use nomad_autoscaler.Heap
use nomad_autoscaler.Heap.Array.{swap}
use nomad_autoscaler.Broker.{
  Broker, new_broker, enqueue, enqueue_policy, count_new, init_waiting, push_pending, find_work,
}
use nomad_autoscaler.Broker.Counts.{IsKeyed}
use nomad_autoscaler.Worker.Settlement.{AfterRound, run_once-settled}
use nomad_autoscaler.Worker.{Handled, scaled, cooldown, run_once, reconcile_with}
use nomad_autoscaler.Prelude.{lookup, insert}
use nomad_autoscaler.Plugins.{
  ok, Apm, Strategy, Target, apm, strategy, target, apm_instance, strategy_instance,
  target_instance, dispense,
}
use nomad_autoscaler.Worker.Check.{Environment, proposed, start}
use nomad_autoscaler.Worker.Proposal.{Answers, Sound, start-Sound}
use nomad_autoscaler.Worker.Scaling.{HandlesWith}
use nomad_autoscaler.Worker.Handling.{Reports, handle_policy-Handles}
use nomad_autoscaler.Worker.Dominance.{YieldsTo, run_checks-YieldsTo}
use nomad_autoscaler.Worker.{Stops, Winner, no_winner, run_checks, reconcile_with, handle_policy}

abbrev doubles : Strategy
doubles = record {
  run = λ c count. ok (some (record c { action = record (bare_action up) { count = pos 8 } }));
}

abbrev one_metric : Apm
one_metric = record { query = λ query range. ok (record { timestamp = 1; value = 2 } ∷ []) }

abbrev ready_target : Target
ready_target = record {
  status = λ config. ok (some (record { ready = true; count = pos 4; meta = [] }));
  scale = λ a config. ok tt;
}

abbrev environment : Environment
environment = record {
  instances =
      (record { name = "job"; plugin_type = target }, target_instance ready_target)
      ∷ (record { name = "source"; plugin_type = apm }, apm_instance one_metric)
      ∷ (record { name = "double"; plugin_type = strategy }, strategy_instance doubles)
      ∷ [];
  now = pos 100;
  stopped = λ i. false;
  sort = λ ms. ms;
}

abbrev check_evaluation : ScalingCheckEvaluation
check_evaluation = record {
  check = record {
    name = "check";
    source = "source";
    query = "query";
    query_window = pos 10;
    strategy = some (record { name = "double"; config = [] });
  };
  metrics = [];
  action = bare_action none_needed;
}

abbrev destination : ScalingPolicyTarget
destination = record { name = "job"; config = [] }

abbrev limited_policy : ScalingPolicy
limited_policy = record zero_policy { min = pos 1; max = pos 5; target = some destination }

abbrev evaluation : ScalingEvaluation
evaluation = record {
  id = "e";
  policy = limited_policy;
  target_status = none;
  check_evaluations = check_evaluation ∷ [];
  create_time = 0;
}

abbrev never : Stops
never = record { at_check = λ i. false; before_scale = false }

abbrev four : TargetStatus
four = record { ready = true; count = pos 4; meta = [] }

environment-Answers : Answers environment.instances
unfolding dispense
environment-Answers name s c count h m =
    let same : doubles ≡ s = ground arith in
    subst (λ (x : Strategy). x.run c count ≢ ok none) same (λ e. cc)

environment-Reports : Reports environment.instances destination
unfolding dispense
environment-Reports t h =
    let same : ready_target ≡ t = cc in subst (λ (x : Target). x.status [] ≢ ok none) same (λ e. cc)

start-Sound_example :
    Sound limited_policy (pos 4) (start environment limited_policy check_evaluation 0 four)
start-Sound_example =
    start-Sound environment limited_policy check_evaluation 0 four (ground arith)
      environment-Answers refl

handle_policy-Handles_example :
    HandlesWith environment evaluation destination (handle_policy environment never evaluation)
handle_policy-Handles_example =
    handle_policy-Handles environment never evaluation destination (ground arith)
      environment-Answers (refl, tt) refl environment-Reports

abbrev wide_policy : ScalingPolicy
wide_policy = record limited_policy { max = pos 10 }

abbrev to_eight : ScalingAction
to_eight = record (bare_action up) { count = pos 8; meta = some [] }

abbrev eight_wins : Winner
eight_wins = record { action = some to_eight; handler = some "check" }

proposes_eight : start environment wide_policy check_evaluation 0 four ≡ some (proposed to_eight)
unfolding start
proposes_eight = refl

selects_eight :
    run_checks environment never wide_policy four 0 (check_evaluation ∷ []) no_winner
    ≡ some (some eight_wins)
unfolding run_checks reconcile_with
selects_eight = refl

run_checks-YieldsTo_example : YieldsTo to_eight eight_wins
run_checks-YieldsTo_example =
    run_checks-YieldsTo environment never wide_policy four 0 (check_evaluation ∷ []) no_winner
      eight_wins 0 check_evaluation to_eight selects_eight refl proposes_eight

abbrev wide_evaluation : ScalingEvaluation
wide_evaluation = record evaluation { policy = wide_policy }

abbrev waiting_broker : Broker
waiting_broker = enqueue wide_evaluation (new_broker (pos 10) (pos 2))

abbrev scaled_to_eight : Handled
scaled_to_eight = record { error = none; effects = scaled to_eight [] ∷ cooldown "" (pos 0) ∷ [] }

found_waiting :
    find_work "" waiting_broker ≡ (some wide_evaluation, (find_work "" waiting_broker).1)
unfolding find_work enqueue enqueue_policy count_new init_waiting push_pending new_broker Heap.push
    Heap.pop swap lookup insert
found_waiting = refl

handles_wide : handle_policy environment never wide_evaluation ≡ some scaled_to_eight
unfolding handle_policy reconcile_with lookup
handles_wide = refl

waiting_broker-IsKeyed : IsKeyed waiting_broker.unack
unfolding enqueue enqueue_policy count_new init_waiting push_pending new_broker lookup insert
waiting_broker-IsKeyed = tt

run_once-settled_example :
    (d : Broker) × (run_once environment never "" "token" waiting_broker
      ≡ some (some scaled_to_eight, d))
    × AfterRound wide_evaluation scaled_to_eight (find_work "" waiting_broker).1 d
run_once-settled_example =
    run_once-settled environment never "" "token" waiting_broker (find_work "" waiting_broker).1
      wide_evaluation scaled_to_eight found_waiting handles_wide waiting_broker-IsKeyed refl
