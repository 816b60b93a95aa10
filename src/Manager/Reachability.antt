-- ===== src/Manager/Reachability.antt =====
-- Every state that the manager of policy/manager.go and its goroutines reach is valid.
use nomad_autoscaler.Prelude.{
  ℕ, String, ◌≡◌, refl, sym, subst, ◌∙◌, false, List, [], ◌∷◌, get_elem?, some, Map, lookup, arith,
  ◌==◌, >>=-eq-some, >>=-some-eq-some, inl, inr, Bool-cases, ==_iff, Option-cases, lookup-delete,
  eq_iff, str_eq, get_elem?-set,
}
use nomad_autoscaler.Handler.{
  Handler, Event, Round, goes_on, returns, stop, mark_running, make_ticker, run_round,
}
use nomad_autoscaler.Handler.Transitions.{IsLooping, run_round-Sustains}
use nomad_autoscaler.Manager.{
  Manager, Routine, Phase, starting, marked, looping, leaving, left, finished, new_manager, advance,
  after_round, forget, stop_entry, stop_entries, stop_handlers, restart, keys, Step, listed,
  restarted, advanced, forgotten, Reach, fresh, next,
}
use nomad_autoscaler.Manager.Pointers.{read-at, read-set_ne}
use nomad_autoscaler.Manager.Validity.{
  in_progress, is_live, policy_of, source_of, PhaseOk, Valid, IsValid, set-Valid,
}
use nomad_autoscaler.Manager.View.{source_of-stable, stop_handler-view}
use nomad_autoscaler.Manager.Refinement.{reconcile-updated}

abbrev Advances : Phase → Handler → Routine → Type 0
Advances p h r =
    (policy_of r ≡ h.policy_id) × (is_live r ≡ in_progress p) × PhaseOk r.phase r.handler

after_round-Advances :
    (h h' : Handler) (w : Round)
    → h'.policy_id ≡ h.policy_id
    → IsLooping h'
    → Advances looping h (after_round (w, h'))
unfolding after_round in_progress
after_round-Advances h h' (goes_on sent) same good = (same, refl, good)
after_round-Advances h h' returns same good = (same, refl, good)

leaving-Advances :
    (h h' : Handler)
    → IsLooping h
    → stop h ≡ some h'
    → Advances leaving h (record { phase = left; handler = h' })
unfolding stop in_progress
leaving-Advances h h' ((interval, ticking), count) e =
    (ground arith, refl, ((interval, ground arith), ground arith, ground arith))

-- A step of a handler's goroutine keeps its policy and the state of its channel.
advance-Advances :
    (e : Event) (p : Phase) (h : Handler) (r : Routine)
    → PhaseOk p h
    → advance e p h ≡ some r
    → Advances p h r
unfolding advance in_progress
advance-Advances e starting h r good at =
    let same : record { phase = marked; handler = mark_running h } ≡ r = cc in
    subst (Advances starting h) same (refl, refl, (good.0, refl, good.2))
advance-Advances e marked h r good at =
    let same : record { phase = looping; handler = make_ticker h } ≡ r = cc in
    subst (Advances marked h) same (refl, refl, ((_, refl), ground arith))
advance-Advances e looping h r good at =
    let ((w, h'), ran, same) = >>=-some-eq-some (run_round e h) after_round at in
    let (same_id, _, still) = run_round-Sustains e h h' w ran in
    subst (Advances looping h) same (after_round-Advances h h' w same_id (still good))
advance-Advances e leaving h r good at =
    let (h', stops, same) =
      >>=-some-eq-some (stop h) (λ h'. record { phase = left; handler = h' }) at in
    subst (Advances leaving h) same (leaving-Advances h h' good stops)
advance-Advances e left h r good at = cc
advance-Advances e finished h r good at = cc

stop_entry-IsValid :
    (k : String) (m m' : Manager) → IsValid m → stop_entry k m ≡ some m' → IsValid m'
unfolding stop_entry
stop_entry-IsValid k m m' valid e = elim (Option-cases (lookup k m.handlers)) [
  | inl missing ↦
      let e' : some m ≡ some m' = rw (missing, stop_entry) at e in
      let same : m ≡ m' = cc in subst IsValid same valid
  | inr (a, at) ↦
      (stop_handler-view source_of source_of-stable k a m m' valid at (rw (at, stop_entry) at e)).0
]

stop_entries-IsValid :
    (ks : List String) (m m' : Manager) → IsValid m → stop_entries ks m ≡ some m' → IsValid m'
unfolding stop_entries
stop_entries-IsValid [] m m' valid e = subst IsValid (let same : m ≡ m' = cc in same) valid
stop_entries-IsValid (k ∷ ks) m m' valid e =
    let (m1, at, e') = >>=-eq-some (stop_entry k m) (λ w. stop_entries ks w) e in
    stop_entries-IsValid ks m1 m' (stop_entry-IsValid k m m1 valid at) e'

apart_of_policies :
    (id : String) (a b : ℕ) (r : Routine) (m : Manager)
    → IsValid m
    → get_elem? m.routines a ≡ some r
    → lookup id m.handlers ≡ some b
    → str_eq (policy_of r) id ≡ false
    → (a == b) ≡ false
apart_of_policies id a b r m valid at there other = elim (Bool-cases (a == b)) [
  | inl here ↦
      let at_a = read-at policy_of m.routines a r at in
      let at_b = (valid.entries id b there).0 in
      let same = (==_iff a b).0 here in
      let is_id : policy_of r ≡ id = cc in
      absurd (ground (arith, (eq_iff (policy_of r) id).1 is_id))
  | inr apart ↦ apart
]

forget-IsValid :
    (a : ℕ) (r : Routine) (m : Manager)
    → IsValid m
    → get_elem? m.routines a ≡ some r
    → r.phase ≡ left
    → IsValid (forget a r m)
unfolding forget
forget-IsValid a r m valid at is_left =
    let r' : Routine = record r { phase = finished } in
    let left_ok : PhaseOk left r.handler =
      subst (λ p. PhaseOk p r.handler) is_left (valid.phases a r at) in
    let pid = policy_of r in
    record {
      entries = λ id b found.
          let there : lookup id m.handlers ≡ some b =
            ground (arith, lookup-delete pid id m.handlers) in
          let other : str_eq pid id ≡ false = ground (arith, lookup-delete pid id m.handlers) in
          let apart : (a == b) ≡ false = apart_of_policies id a b r m valid at there other in
          (
            read-set_ne policy_of m.routines a b r r' at apart ∙ (valid.entries id b there).0,
            read-set_ne is_live m.routines a b r r' at apart ∙ (valid.entries id b there).1,
          );
      phases = λ b q found. elim (Bool-cases (a == b)) [
        | inl here ↦
            let q_is : r' ≡ q = ground (arith, get_elem?-set m.routines a b r' r at) in
            subst (λ x. PhaseOk x.phase x.handler) q_is left_ok
        | inr other ↦ valid.phases b q (ground (arith, get_elem?-set m.routines a b r' r at))
      ];
    }

empty-Valid :
    (routines : List Routine) (handlers : Map ℕ) → Valid handlers routines → Valid [] routines
unfolding lookup
empty-Valid routines handlers valid = record {
  entries = λ id a found. absurd (cc);
  phases = valid.phases;
}

restart-IsValid : (m m' : Manager) → IsValid m → restart m ≡ some m' → IsValid m'
unfolding restart
restart-IsValid m m' valid e =
    let (w, stopped, same) =
      >>=-some-eq-some (stop_handlers m) (λ w. record w { handlers = [] }) e in
    subst IsValid same
      (empty-Valid w.routines w.handlers (stop_entries-IsValid (keys m.handlers) m w valid stopped))

Step-IsValid : {m m' : Manager} → Step m m' → IsValid m → IsValid m'
Step-IsValid {m} {m'} (listed source ids e) valid = (reconcile-updated source ids m m' valid e).0
Step-IsValid {m} {m'} (restarted e) valid = restart-IsValid m m' valid e
Step-IsValid {m} {m'} (advanced a r r' event at receives e same) valid =
    let (same_id, same_life, good) =
      advance-Advances event r.phase r.handler r' (valid.phases a r at) e in
    subst IsValid (sym same) (set-Valid valid a r r' at same_id same_life good)
Step-IsValid {m} {m'} (forgotten a r at is_left same) valid =
    subst IsValid (sym same) (forget-IsValid a r m valid at is_left)

-- In every state that the manager and the goroutines of its handlers reach, an entry of the map points
-- at a handler of its policy whose goroutine has not ended. A handler's `doneCh` is open until the
-- handler is stopped, and it is closed once at most and exactly once when `Run` has returned.
pub Reach-IsValid : {m : Manager} → Reach m → IsValid m
unfolding new_manager lookup
Reach-IsValid fresh = record { entries = λ id a found. absurd (cc); phases = λ a r at. absurd (cc) }
Reach-IsValid (next before step) = Step-IsValid step (Reach-IsValid before)
