-- ===== src/JobTarget/Reports.antt =====
-- What the target plugin for Nomad jobs reports, and what the policy handler reads of it.
use nomad_autoscaler.Prelude.{
  ℕ, ◌<◌, String, ◌≡◌, refl, not, List, ◌∷◌, none, some, pos, lookup, lookup-insert_self,
  full_range, of_bits, format_ℕ, parse_uint-format_ℕ,
}
use nomad_autoscaler.Sdk.Policy.{TargetStatus, target_status_meta_key_last_event}
use nomad_autoscaler.Plugins.{ok}
use nomad_autoscaler.Handler.{last_event}
use nomad_autoscaler.JobTarget.{
  JobStatus, TaskGroupStatus, JobHandler, status, cached_status, group_status, with_last_event,
}

last_event_lem :
    (job : String) (s : JobStatus) (g : TaskGroupStatus) (t : ℕ) (ts : List ℕ)
    → g.events ≡ t ∷ ts
    → t < full_range
    → last_event (some (group_status job s g)) ≡ some (of_bits t)
unfolding last_event group_status
last_event_lem job s g t ts latest small =
    rw (latest, with_last_event)
      (rw
        (
          lookup-insert_self target_status_meta_key_last_event (format_ℕ t) _,
          parse_uint-format_ℕ t small,
        )
        refl)

-- The time of the latest scaling event of a task group, a number of 64 bits, makes a round trip: the
-- target plugin writes it into the status as a decimal, and the policy handler reads the same number,
-- as an int64, for its cooldown. The status has the running count, and it is ready unless the job is
-- stopped.
pub last_event-status :
    (h : JobHandler) (group : String) (s : JobStatus) (g : TaskGroupStatus) (t : ℕ) (ts : List ℕ)
    → h.scale_status_error ≡ none
    → h.scale_status ≡ some s
    → lookup group s.task_groups ≡ some g
    → g.events ≡ t ∷ ts
    → t < full_range
    → (r : TargetStatus) × (status group h ≡ ok (some r))
      × (r.ready ≡ not s.job_stopped)
      × (r.count ≡ pos g.running)
      × (last_event (some r) ≡ some (of_bits t))
unfolding status group_status
last_event-status h group s g t ts fine cached found latest small = (
  group_status h.job_id s g,
  rw (fine, status, cached, cached_status, found) refl,
  refl,
  refl,
  last_event_lem h.job_id s g t ts latest small,
)
