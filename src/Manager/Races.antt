-- ===== src/Manager/Races.antt =====
-- Orders of the steps of policy/manager.go in which the map of handlers and the goroutines part.
use nomad_autoscaler.Prelude.{
  ℕ, String, str_eq, ◌≡◌, refl, subst, ap, ◌∙◌, false, not, ◌&&◌, List, [], ◌∷◌, length, get_elem?,
  Option, none, some, lookup, delete, arith, if◌then◌else◌, ◌==◌, >>=-eq-some, inl, inr, Bool-cases,
  Option-cases, lookup-delete, lookup-insert_self, eq_refl, get_elem?-set,
}
use nomad_autoscaler.Handler.{Handler, stop, new_handler}
use nomad_autoscaler.Manager.{
  Manager, Routine, starting, finished, stop_handler, visit, visit_entry, visit_all, kept, ensure,
  ensure_all, keys, reconcile, forget,
}
use nomad_autoscaler.Manager.Pointers.{read, read-at, read-eq-some, read-set, read-append}
use nomad_autoscaler.Manager.Validity.{policy_of, source_of, PhaseOk, IsValid}
use nomad_autoscaler.Manager.View.{view, managed, contains, stop_handler-eq-some}
use nomad_autoscaler.Manager.Refinement.{reconcile-updated}

module _ {ℓ} {A : Type ℓ} (f : Routine → A)
    (stable : (r : Routine) (h : Handler)
      → stop r.handler ≡ some h
      → f (record r { handler = h }) ≡ f r) where
  stop_handler-read :
      (a b : ℕ) (m m' : Manager)
      → stop_handler a m ≡ some m'
      → read f m'.routines b ≡ read f m.routines b
  stop_handler-read a b m m' e =
      let (r, h, at_r, stops, is_m') = stop_handler-eq-some a m m' e in
      rw is_m' (read-set f m.routines a b r (record r { handler = h }) at_r (stable r h stops))

  visit_entry-read :
      (source k : String) (a b : ℕ) (m m' : Manager)
      → visit_entry source k a m ≡ some m'
      → read f m'.routines b ≡ read f m.routines b
  unfolding visit_entry
  visit_entry-read source k a b m m' e =
      let (r, at_r, e') =
        >>=-eq-some (get_elem? m.routines a)
          (λ r.
            if not (kept k m) && str_eq r.handler.source source then stop_handler a m else some m)
          e in
      elim (Bool-cases (not (kept k m) && str_eq r.handler.source source)) [
        | inl goes ↦ stop_handler-read a b m m' (rw goes at e')
        | inr stays ↦ let same : m ≡ m' = ground arith in rw same refl
      ]

  visit-read :
      (source k : String) (b : ℕ) (m m' : Manager)
      → visit source k m ≡ some m'
      → read f m'.routines b ≡ read f m.routines b
  unfolding visit
  visit-read source k b m m' e = elim (Option-cases (lookup k m.handlers)) [
    | inl missing ↦
        let e' : some m ≡ some m' = rw (missing, visit) at e in
        let same : m ≡ m' = cc in rw same refl
    | inr (a, at) ↦ visit_entry-read source k a b m m' (rw (at, visit) at e)
  ]

  visit_all-read :
      (source : String) (ks : List String) (b : ℕ) (m m' : Manager)
      → visit_all source ks m ≡ some m'
      → read f m'.routines b ≡ read f m.routines b
  unfolding visit_all
  visit_all-read source [] b m m' e = let same : m ≡ m' = cc in rw same refl
  visit_all-read source (k ∷ ks) b m m' e =
      let (m1, at, e') = >>=-eq-some (visit source k m) (λ w. visit_all source ks w) e in
      visit_all-read source ks b m1 m' e' ∙ visit-read source k b m m1 at

ensure-read {ℓ} :
    {A : Type ℓ} (f : Routine → A) (source k : String) (b : ℕ) (m : Manager) (x : A)
    → read f m.routines b ≡ some x
    → read f (ensure source k m).routines b ≡ some x
unfolding ensure
ensure-read f source k b m x e = elim (Option-cases (lookup k m.handlers)) [
  | inl missing ↦
      rw (missing, ensure)
        (read-append f m.routines (record { phase = starting; handler = new_handler k source }) b x
          e)
  | inr (a, at) ↦ rw (at, ensure) e
]

ensure_all-read {ℓ} :
    {A : Type ℓ} (f : Routine → A) (source : String) (ids : List String) (b : ℕ) (m : Manager)
    (x : A)
    → read f m.routines b ≡ some x
    → read f (ensure_all source ids m).routines b ≡ some x
unfolding ensure_all
ensure_all-read f source [] b m x e = e
ensure_all-read f source (k ∷ ids) b m x e =
    ensure_all-read f source ids b (ensure source k m) x (ensure-read f source k b m x e)

-- The routine, if its handler was neither started nor stopped.
abbrev unstarted : Routine → Option Routine
unstarted r = if not r.handler.running && (r.handler.closed == 0) then some r else none

unstarted-stable :
    (r : Routine) (h : Handler)
    → stop r.handler ≡ some h
    → unstarted (record r { handler = h }) ≡ unstarted r
unfolding stop
unstarted-stable r h stops = elim (Bool-cases r.handler.running) [
  | inl running ↦ ground arith
  | inr idle ↦ let same : h ≡ r.handler = ground arith in rw same refl
]

unstarted-eq-some : (q r : Routine) → unstarted q ≡ some r → q ≡ r
unstarted-eq-some q r e = ground arith

unstarted_of_starting :
    (r : Routine) → r.phase ≡ starting → PhaseOk r.phase r.handler → unstarted r ≡ some r
unstarted_of_starting r unscheduled good =
    let good' : PhaseOk starting r.handler = subst (λ p. PhaseOk p r.handler) unscheduled good in
    let (_, idle, open_) = good' in rw (idle, open_) refl

-- The stop of a handler is lost if its goroutine has not been scheduled yet: when the policy is not
-- listed any more by its source, the policy loses its entry, but the goroutine and its handler are as
-- before, ready to start and with an open `doneCh`.
pub reconcile-lost_stop :
    (source id : String) (ids : List String) (a : ℕ) (r : Routine) (m m' : Manager)
    → IsValid m
    → lookup id m.handlers ≡ some a
    → get_elem? m.routines a ≡ some r
    → r.phase ≡ starting
    → source_of r ≡ source
    → contains id ids ≡ false
    → reconcile source ids m ≡ some m'
    → (managed m' id ≡ none) × (get_elem? m'.routines a ≡ some r) × (r.handler.closed ≡ 0)
unfolding reconcile view
reconcile-lost_stop source id ids a r m m' valid at at_r unscheduled from unlisted e =
    let (valid', sources) = reconcile-updated source ids m m' valid e in
    let managed_by : managed m id ≡ some source =
      rw at (read-at source_of m.routines a r at_r) ∙ ap some from in
    let good = valid.phases a r at_r in
    let good' : PhaseOk starting r.handler = subst (λ p. PhaseOk p r.handler) unscheduled good in
    let m0 : Manager = record m { keep = [] } in
    let m1 : Manager = ensure_all source ids m0 in
    let before =
      read-at unstarted m.routines a r at_r ∙ ap some (unstarted_of_starting r unscheduled good) in
    let between = ensure_all-read unstarted source ids a m0 (some r) before in
    let after =
      visit_all-read unstarted unstarted-stable source (keys m1.handlers) a m1 m' e ∙ between in
    let (q, at_q, same) = read-eq-some unstarted m'.routines a (some r) after in
    (
      sources id ∙ rw (unlisted, managed_by, eq_refl source) refl,
      at_q ∙ ap some (unstarted-eq-some q r same),
      good'.2,
    )

-- A goroutine that ends takes the entry of its policy out of the map, also if the entry points at
-- another handler, `b`, which was made after its own was stopped. The goroutine of that one goes on
-- without an entry, and the next listing of the policy makes a further handler for it.
pub forget-orphans :
    (source : String) (a b : ℕ) (r q : Routine) (m : Manager)
    → get_elem? m.routines a ≡ some r
    → lookup (policy_of r) m.handlers ≡ some b
    → (a == b) ≡ false
    → get_elem? m.routines b ≡ some q
    → (lookup (policy_of r) (forget a r m).handlers ≡ none)
      × (get_elem? (forget a r m).routines b ≡ some q)
      × (lookup (policy_of r) (ensure source (policy_of r) (forget a r m)).handlers
          ≡ some (length (forget a r m).routines))
unfolding forget ensure
forget-orphans source a b r q m at_a entry apart at_b =
    let pid = policy_of r in
    let r' : Routine = record r { phase = finished } in
    let gone : lookup pid (delete pid m.handlers) ≡ none =
      rw (lookup-delete pid pid m.handlers, eq_refl pid) refl in
    (
      gone,
      rw (get_elem?-set m.routines a b r' r at_a, apart) at_b,
      rw (gone, ensure) (lookup-insert_self pid _ (delete pid m.handlers)),
    )
