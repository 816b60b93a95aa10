-- ===== src/Manager/Tests.antt =====
-- The theorems on the manager at states that it reaches.
use nomad_autoscaler.Prelude.{
  String, ◌≡◌, ◌↔◌, refl, true, false, [], ◌∷◌, none, some, length, lookup, get_elem?, arith,
  insert, delete,
}
use nomad_autoscaler.Handler.{
  Handler, new_handler, mark_running, make_ticker, source_error, done_closed,
}
use nomad_autoscaler.Manager.{
  Manager, Routine, starting, marked, looping, leaving, left, new_manager, reconcile, ensure, visit,
  forget, advance, Reach, fresh, next, listed, advanced,
}
use nomad_autoscaler.Manager.Validity.{IsValid}
use nomad_autoscaler.Manager.View.{view, phase_of, managed, contains}
use nomad_autoscaler.Manager.Reachability.{Reach-IsValid}
use nomad_autoscaler.Manager.Refinement.{updated, reconcile-updated}
use nomad_autoscaler.Manager.Panics.{reconcile-eq-none_iff}
use nomad_autoscaler.Manager.Races.{reconcile-lost_stop, forget-orphans}

abbrev unscheduled : Routine
unscheduled = record { phase = starting; handler = new_handler "p" "nomad" }

-- The source "nomad" has listed the policy "p".
abbrev one_policy : Manager
one_policy = record {
  handlers = ("p", 0) ∷ [];
  keep = ("p", true) ∷ [];
  routines = unscheduled ∷ [];
}

one_policy-Reach : Reach one_policy
unfolding new_manager reconcile new_handler lookup insert ensure visit
one_policy-Reach = next fresh (listed "nomad" ("p" ∷ []) refl)

-- Its goroutine has set `running`.
abbrev half_started : Manager
half_started = record one_policy {
  routines = record { phase = marked; handler = mark_running (new_handler "p" "nomad") } ∷ [];
}

half_started-Reach : Reach half_started
unfolding advance new_handler
half_started-Reach = next one_policy-Reach (advanced 0 unscheduled _ source_error refl tt refl refl)

abbrev running_handler : Handler
running_handler = make_ticker (mark_running (new_handler "p" "nomad"))

abbrev started : Manager
started = record one_policy {
  routines = record { phase = looping; handler = running_handler } ∷ [];
}

started-Reach : Reach started
unfolding advance new_handler
started-Reach = next half_started-Reach (advanced 0 _ _ source_error refl tt refl refl)

Reach-IsValid_example : IsValid started
Reach-IsValid_example = Reach-IsValid started-Reach

abbrev stopped_handler : Handler
stopped_handler = record running_handler { running = false; closed = 1 }

-- The policy is not listed any more, and its handler is stopped.
abbrev delisted : Manager
delisted = record {
  handlers = [];
  keep = [];
  routines = record { phase = looping; handler = stopped_handler } ∷ [];
}

delisting : reconcile "nomad" [] started ≡ some delisted
unfolding reconcile new_handler lookup delete mark_running make_ticker ensure visit
delisting = refl

reconcile-updated_example :
    IsValid delisted
    × ((id : String) → managed delisted id ≡ updated "nomad" [] (managed started) id)
reconcile-updated_example =
    reconcile-updated "nomad" [] started delisted (Reach-IsValid started-Reach) delisting

reconcile-eq-none_iff_example : (reconcile "nomad" [] half_started ≡ none) ↔ (
    (id : String) × (contains id [] ≡ false)
    × (managed half_started id ≡ some "nomad")
    × (view phase_of half_started id ≡ some marked))
reconcile-eq-none_iff_example =
    reconcile-eq-none_iff "nomad" [] half_started (Reach-IsValid half_started-Reach)

half_started_panics : reconcile "nomad" [] half_started ≡ none
unfolding reconcile new_handler lookup mark_running ensure visit
half_started_panics = refl

abbrev leaked : Manager
leaked = record { handlers = []; keep = []; routines = unscheduled ∷ [] }

reconcile-lost_stop_example :
    (managed leaked "p" ≡ none)
    × (get_elem? leaked.routines 0 ≡ some unscheduled)
    × (unscheduled.handler.closed ≡ 0)
unfolding reconcile new_handler lookup delete ensure visit
reconcile-lost_stop_example =
    reconcile-lost_stop "nomad" "p" [] 0 unscheduled one_policy leaked
      (Reach-IsValid one_policy-Reach) refl refl refl refl refl refl

-- The policy is listed again before the goroutine of its first handler has ended.
abbrev ended : Routine
ended = record { phase = left; handler = stopped_handler }

abbrev relisted : Manager
relisted = record {
  handlers = ("p", 1) ∷ [];
  keep = ("p", true) ∷ [];
  routines = ended ∷ unscheduled ∷ [];
}

relisted-Reach : Reach relisted
unfolding reconcile new_handler lookup insert advance mark_running make_ticker ensure visit
relisted-Reach =
    next
      (next
        (next (next started-Reach (listed "nomad" [] delisting)) (listed "nomad" ("p" ∷ []) refl))
        (advanced 0 (record { phase = looping; handler = stopped_handler })
          (record { phase = leaving; handler = stopped_handler }) done_closed refl (omega arith)
          refl refl))
      (advanced 0 (record { phase = leaving; handler = stopped_handler }) ended source_error refl tt
        refl refl)

forget-orphans_example :
    (lookup "p" (forget 0 ended relisted).handlers ≡ none)
    × (get_elem? (forget 0 ended relisted).routines 1 ≡ some unscheduled)
    × (lookup "p" (ensure "nomad" "p" (forget 0 ended relisted)).handlers
        ≡ some (length (forget 0 ended relisted).routines))
unfolding lookup mark_running make_ticker new_handler
forget-orphans_example = forget-orphans "nomad" 0 1 ended unscheduled relisted refl refl refl refl
