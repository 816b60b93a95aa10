-- ===== src/JobTarget.antt =====
-- plugins/builtin/target/nomad/plugin: the target plugin for task groups of Nomad jobs. What Nomad
-- answers is a parameter: with an error, it gives no status. A wait on `initialDone` that nobody ends is
-- `none`.
pub mod Reports
pub mod Waiting
mod Tests
use nomad_autoscaler.Prelude.{
  ℕ, String, str_append, str_eq, Bool, true, false, not, ◌&&◌, ◌==◌, List, [], ◌∷◌, Option, none,
  some, Map, lookup, insert, ℤ, pos, ltb_ℤ, eqb_ℤ, ◌-ℤ◌, if◌then◌else◌, format_ℕ, contains_text,
}
use nomad_autoscaler.Sdk.Policy.{TargetStatus, target_status_meta_key_last_event}
use nomad_autoscaler.Sdk.Action.{ScalingAction, MetaValue, dry_run_count}
use nomad_autoscaler.Plugins.{Result, ok, failed}

abbrev pub config_key_job_id : String
config_key_job_id = "Job"

abbrev pub config_key_group : String
config_key_group = "Group"

abbrev pub config_key_namespace : String
config_key_namespace = "Namespace"

-- Four hours.
abbrev pub garbage_collection_threshold : ℤ
garbage_collection_threshold = pos 14_400_000_000_000

-- `api.TaskGroupScaleStatus`: the events are their times, the most recent one first.
pub record TaskGroupStatus : Type 0 where
  pub running : ℕ
  pub events : List ℕ

-- `api.JobScaleStatusResponse`
pub record JobStatus : Type 0 where
  pub job_stopped : Bool
  pub task_groups : Map TaskGroupStatus

-- `wait_index` is `q.WaitIndex`, a variable of `start`.
pub record JobHandler : Type 0 where
  pub namespace : String
  pub job_id : String
  pub scale_status : Option JobStatus
  pub scale_status_error : Option String
  pub initialized : Bool
  pub is_running : Bool
  pub last_updated : ℤ
  pub wait_index : ℕ

unfoldable pub new_job_handler : String → String → JobHandler
new_job_handler namespace job = record {
  namespace = namespace;
  job_id = job;
  scale_status = none;
  scale_status_error = none;
  initialized = false;
  is_running = false;
  last_updated = pos 0;
  wait_index = 0;
}

unfoldable pub format_bool : Bool → String
format_bool true = "true"
format_bool false = "false"

unfoldable pub stopped_key : String → String
stopped_key job = str_append (str_append "nomad_autoscaler.target.nomad." job) ".stopped"

unfoldable pub with_last_event : List ℕ → Map String → Map String
with_last_event [] meta = meta
with_last_event (t ∷ ts) meta = insert target_status_meta_key_last_event (format_ℕ t) meta

unfoldable pub group_status : String → JobStatus → TaskGroupStatus → TargetStatus
unfolding with_last_event
group_status job s g = record {
  ready = not s.job_stopped;
  count = pos g.running;
  meta = with_last_event g.events ((stopped_key job, format_bool s.job_stopped) ∷ []);
}

unfoldable pub find_group :
    String → String → JobStatus → Option TaskGroupStatus → Result (Option TargetStatus)
unfolding group_status
find_group group job s none = failed (str_append "task group \"" (str_append group "\" not found"))
find_group group job s (some g) = ok (some (group_status job s g))

unfoldable pub cached_status : String → String → Option JobStatus → Result (Option TargetStatus)
unfolding find_group
cached_status group job none = ok none
cached_status group job (some s) = find_group group job s (lookup group s.task_groups)

unfoldable pub status : String → JobHandler → Result (Option TargetStatus)
unfolding cached_status
status group h = elim h.scale_status_error [
  | some e ↦ failed e
  | none ↦ cached_status group h.job_id h.scale_status
]

-- What a blocking query gives: the status with the last index, or an error's message.
pub data Answer : Type 0 where
  answered : JobStatus → ℕ → Answer
  errored : String → Answer

unfoldable pub update_status_state : ℤ → Option JobStatus → Option String → JobHandler → JobHandler
update_status_state now s e h = record h {
  scale_status = s;
  scale_status_error = e;
  last_updated = now;
}

unfoldable pub set_stop_state : ℤ → JobHandler → JobHandler
set_stop_state now h = record h {
  is_running = false;
  scale_status = none;
  scale_status_error = none;
  last_updated = now;
}

unfoldable pub index_has_changed : ℕ → ℕ → Bool
index_has_changed new old = not (new == old)

-- How a round of the loop of `start` ends: it returns, or it goes on, with or without a send on
-- `initialDone`.
pub data Polled : Type 0 where
  returned : JobHandler → Polled
  goes_on notifies : JobHandler → Polled

unfoldable pub is_unchanged : ℕ → JobHandler → Bool
unfolding index_has_changed
is_unchanged index h =
    (elim h.scale_status [ none ↦ false | some s ↦ true ])
    && not (index_has_changed index h.wait_index)

unfoldable pub poll : ℤ → Answer → JobHandler → Polled
unfolding is_unchanged update_status_state set_stop_state
poll now (errored e) h =
    if contains_text "404" e
    then returned (set_stop_state now h)
    else goes_on (record (update_status_state now none (some e) h) { wait_index = 0 })
poll now (answered s index) h =
    if is_unchanged index h
    then goes_on h
    else if h.initialized
    then goes_on (record (update_status_state now (some s) none h) { wait_index = index })
    else notifies (record (update_status_state now (some s) none h) {
      initialized = true;
      wait_index = index;
    })

-- The wait of `Status` for the first run, along the answers that the loop gets, with their times.
unfoldable pub await : List (ℤ × Answer) → JobHandler → Option JobHandler
await [] h = none
await ((now, answer) ∷ rest) h = elim (poll now answer h) [
  | returned h' ↦ none
  | notifies h' ↦ some h'
  | goes_on h' ↦ await rest h'
]

unfoldable pub start : List (ℤ × Answer) → JobHandler → Option JobHandler
start answers h = await answers (record h { is_running = true; wait_index = 1 })

-- What `Scale` asks of Nomad.
pub record ScaleRequest : Type 0 where
  pub job : String
  pub group : String
  pub count : Option ℤ
  pub message : String
  pub error : Bool
  pub meta : Option (Map MetaValue)
  pub namespace : String

unfoldable pub or_default : String → Option String → String
or_default d none = d
or_default d (some v) = v

unfoldable pub scale_request : ScalingAction → Map String → ScaleRequest
unfolding or_default
scale_request a config = record {
  job = or_default "" (lookup config_key_job_id config);
  group = or_default "" (lookup config_key_group config);
  count = if eqb_ℤ a.count dry_run_count then none else some a.count;
  message = a.reason;
  error = a.error;
  meta = a.meta;
  namespace = or_default "" (lookup config_key_namespace config);
}

-- `statusHandlers`
abbrev pub Handlers : Type 0
Handlers = List ((String × String) × JobHandler)

unfoldable pub is_key : String × String → String × String → Bool
is_key (ns, job) (ns', job') = str_eq ns ns' && str_eq job job'

unfoldable pub find_handler : String × String → Handlers → Option JobHandler
unfolding is_key
find_handler id [] = none
find_handler id ((k, h) ∷ rest) = if is_key k id then some h else find_handler id rest

unfoldable pub store_handler : String × String → JobHandler → Handlers → Handlers
unfolding is_key
store_handler id h [] = (id, h) ∷ []
store_handler id h ((k, old) ∷ rest) =
    if is_key k id then (k, h) ∷ rest else (k, old) ∷ store_handler id h rest

-- A key that is missing or empty.
unfoldable pub required : Option String → Option String
required none = none
required (some v) = if str_eq v "" then none else some v

-- The handler of the job, a new one if there is none.
unfoldable pub handler_of : String → String → Option JobHandler → JobHandler
unfolding new_job_handler
handler_of ns job none = new_job_handler ns job
handler_of ns job (some h) = h

unfoldable pub settle_handler : List (ℤ × Answer) → JobHandler → Option JobHandler
unfolding start
settle_handler answers h = if h.is_running then some h else start answers h

unfoldable pub report :
    String × String
    → String
    → Handlers
    → Option JobHandler
    → Option (Result (Option TargetStatus) × Handlers)
unfolding status
report id group hs none = none
report id group hs (some h) = some (status group h, store_handler id h hs)

unfoldable pub status_of_job :
    List (ℤ × Answer)
    → Map String
    → String
    → Handlers
    → Option String
    → Option (Result (Option TargetStatus) × Handlers)
unfolding report settle_handler handler_of
status_of_job answers config job hs none =
    some (failed "required config key \"Group\" not found", hs)
status_of_job answers config job hs (some group) =
    let ns = or_default "default" (required (lookup config_key_namespace config)) in
    report (ns, job) group hs
      (settle_handler answers (handler_of ns job (find_handler (ns, job) hs)))

-- `Status`. `answers` are those that a loop gets that is started for the call.
unfoldable pub plugin_status :
    List (ℤ × Answer) → Map String → Handlers → Option (Result (Option TargetStatus) × Handlers)
unfolding status_of_job required
plugin_status answers config hs = elim (required (lookup config_key_job_id config)) [
  | none ↦ some (failed "required config key \"Job\" not found", hs)
  | some job ↦ status_of_job answers config job hs (required (lookup config_key_group config))
]

unfoldable pub is_garbage : ℤ → JobHandler → Bool
is_garbage threshold h = if h.is_running then false else ltb_ℤ h.last_updated threshold

unfoldable pub collect : ℤ → Handlers → Handlers
unfolding is_garbage
collect threshold [] = []
collect threshold ((k, h) ∷ rest) =
    if is_garbage threshold h then collect threshold rest else (k, h) ∷ collect threshold rest

unfoldable pub garbage_collect : ℤ → Handlers → Handlers
unfolding collect
garbage_collect now hs = collect (now -ℤ garbage_collection_threshold) hs
