-- ===== src/JobTarget/Tests.antt =====
-- The theorems on the target plugin for Nomad jobs, for the job "web" with the group "api".
use nomad_autoscaler.Prelude.{
  ◌≡◌, refl, true, false, List, [], ◌∷◌, none, some, ℤ, pos, ◌-ℤ◌, lookup, contains_text, of_bits,
  arith, inr, if◌then◌else◌,
}
use nomad_autoscaler.Sdk.Policy.{TargetStatus}
use nomad_autoscaler.Plugins.{ok}
use nomad_autoscaler.Handler.{last_event}
use nomad_autoscaler.JobTarget.{
  JobStatus, TaskGroupStatus, JobHandler, Answer, answered, errored, new_job_handler, start, await,
  poll, status, garbage_collect,
}
use nomad_autoscaler.JobTarget.Reports.{last_event-status}
use nomad_autoscaler.JobTarget.Waiting.{with_first, first_status, start-waits}

abbrev api_group : TaskGroupStatus
api_group = record { running = 3; events = 1_700 ∷ 900 ∷ [] }

abbrev web_status : JobStatus
web_status = record { job_stopped = false; task_groups = ("api", api_group) ∷ [] }

abbrev web_handler : JobHandler
web_handler = record {
  namespace = "default";
  job_id = "web";
  scale_status = some web_status;
  scale_status_error = none;
  initialized = true;
  is_running = true;
  last_updated = pos 5;
  wait_index = 7;
}

last_event-status_example :
    (r : TargetStatus) × (status "api" web_handler ≡ ok (some r))
    × (r.ready ≡ true)
    × (r.count ≡ pos 3)
    × (last_event (some r) ≡ some (of_bits 1_700))
unfolding lookup
last_event-status_example =
    last_event-status web_handler "api" web_status api_group 1_700 (900 ∷ []) refl refl refl refl
      (omega arith)

abbrev answers : List (ℤ × Answer)
answers =
    (pos 1, errored "connection refused")
    ∷ (pos 2, answered web_status 7)
    ∷ (pos 3, errored "404")
    ∷ []

start-waits_example : start answers (new_job_handler "default" "web") ≡ (
    if (new_job_handler "default" "web").initialized
    then none
    else with_first
        (record (new_job_handler "default" "web") { is_running = true; wait_index = 1 })
        (first_status answers))
unfolding new_job_handler
start-waits_example = start-waits answers (new_job_handler "default" "web") (inr refl)

-- The first wait goes past an error, and ends with the status.
starts :
    start answers (new_job_handler "default" "web")
    ≡ some (record web_handler { last_updated = pos 2 })
unfolding new_job_handler start await poll contains_text
starts = refl

-- The loop was stopped by an error 404 and is started again.
restarts : start answers (record web_handler { is_running = false; scale_status = none }) ≡ none
unfolding start await poll contains_text
restarts = refl

-- A job that Nomad does not know.
unknown : start ((pos 1, errored "404") ∷ []) (new_job_handler "default" "web") ≡ none
unfolding new_job_handler start await poll contains_text
unknown = refl

-- A handler that has stopped more than four hours ago is removed.
collects :
    garbage_collect
      (pos 20_000_000_000_000)
      ((("default", "web"), record web_handler { is_running = false }) ∷ [])
    ≡ []
unfolding garbage_collect ◌-ℤ◌
collects = refl
