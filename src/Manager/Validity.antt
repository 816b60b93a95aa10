-- ===== src/Manager/Validity.antt =====
-- The invariant of policy/manager.go's handlers and of their goroutines, and the writes that keep it.
use nomad_autoscaler.Prelude.{
  ℕ, String, ◌↔◌, ◌≡◌, refl, subst, sym, Bool, true, false, List, [], ◌∷◌, ◌++◌, length, get_elem?,
  set, none, some, Map, lookup, insert, delete, arith, ◌==◌, inl, inr, ◌∙◌, Bool-cases,
  get_elem?-set, get_elem?-append_last, lookup-delete, lookup-insert_cases, ap,
}
use nomad_autoscaler.Handler.{Handler, stop, new_handler}
use nomad_autoscaler.Handler.Stopping.{IsSound}
use nomad_autoscaler.Handler.Rounds.{HasTicker}
use nomad_autoscaler.Handler.Transitions.{IsLooping}
use nomad_autoscaler.Manager.{
  Manager, Routine, Phase, starting, marked, looping, leaving, left, finished,
}
use nomad_autoscaler.Manager.Pointers.{read, read-set, read-append, read-append_last}

unfoldable pub in_progress : Phase → Bool
in_progress finished = false
in_progress _ = true

abbrev pub is_live : Routine → Bool
is_live r = in_progress r.phase

abbrev pub policy_of : Routine → String
policy_of r = r.handler.policy_id

abbrev pub source_of : Routine → String
source_of r = r.handler.source

-- `doneCh` is open while the handler is running, closed once when it was stopped or has returned.
abbrev pub PhaseOk : Phase → Handler → Type 0
PhaseOk starting h = (h.ticker ≡ none) × (h.running ≡ false) × (h.closed ≡ 0)
PhaseOk marked h = (h.ticker ≡ none) × (h.running ≡ true) × (h.closed ≡ 0)
PhaseOk looping h = IsLooping h
PhaseOk leaving h = IsLooping h
PhaseOk left h = HasTicker h × (h.running ≡ false) × (h.closed ≡ 1)
PhaseOk finished h = HasTicker h × (h.running ≡ false) × (h.closed ≡ 1)

pub PhaseOk-IsSound : (p : Phase) (h : Handler) → PhaseOk p h → IsSound h
PhaseOk-IsSound starting h good = ground arith
PhaseOk-IsSound marked h good = ground arith
PhaseOk-IsSound looping h (ticking, count) = ground arith
PhaseOk-IsSound leaving h (ticking, count) = ground arith
PhaseOk-IsSound left h (ticking, count, done) = ground arith
PhaseOk-IsSound finished h (ticking, count, done) = ground arith

pub stop-PhaseOk : (p : Phase) (h h' : Handler) → PhaseOk p h → stop h ≡ some h' → PhaseOk p h'
unfolding stop
stop-PhaseOk starting h h' good e = ground arith
stop-PhaseOk marked h h' good e = ground arith
stop-PhaseOk looping h h' ((interval, ticking), count) e = ((interval, ground arith), ground arith)
stop-PhaseOk leaving h h' ((interval, ticking), count) e = ((interval, ground arith), ground arith)
stop-PhaseOk left h h' ((interval, ticking), idle, once) e =
    ((interval, ground arith), ground arith, ground arith)
stop-PhaseOk finished h h' ((interval, ticking), idle, once) e =
    ((interval, ground arith), ground arith, ground arith)

-- A handler can be stopped without a panic exactly if its goroutine is not between the assignment of
-- `running` and the creation of the ticker.
pub stop-eq-none_iff : (p : Phase) (h : Handler) → PhaseOk p h → (stop h ≡ none) ↔ (p ≡ marked)
unfolding stop
stop-eq-none_iff starting h good = (λ e. ground arith, λ e. cc)
stop-eq-none_iff marked h good = (λ e. refl, λ e. ground arith)
stop-eq-none_iff looping h good = (λ e. ground arith, λ e. cc)
stop-eq-none_iff leaving h good = (λ e. ground arith, λ e. cc)
stop-eq-none_iff left h good = (λ e. ground arith, λ e. cc)
stop-eq-none_iff finished h good = (λ e. ground arith, λ e. cc)

pub record Valid (handlers : Map ℕ) (routines : List Routine) : Type 0 where
  pub entries :
      (id : String) (a : ℕ)
      → lookup id handlers ≡ some a
      → (read policy_of routines a ≡ some id) × (read is_live routines a ≡ some true)
  pub phases : (a : ℕ) (r : Routine) → get_elem? routines a ≡ some r → PhaseOk r.phase r.handler

abbrev pub IsValid : Manager → Type 0
IsValid m = Valid m.handlers m.routines

module _ {handlers : Map ℕ} {routines : List Routine} (valid : Valid handlers routines) where
  pub delete-Valid : (k : String) → Valid (delete k handlers) routines
  delete-Valid k = record {
    entries = λ id a at. valid.entries id a (ground (arith, lookup-delete k id handlers));
    phases = valid.phases;
  }

  pub set-Valid :
      (a : ℕ) (r r' : Routine)
      → get_elem? routines a ≡ some r
      → policy_of r' ≡ policy_of r
      → is_live r' ≡ is_live r
      → PhaseOk r'.phase r'.handler
      → Valid handlers (set routines a r')
  set-Valid a r r' at same_id same_life good = record {
    entries = λ id b found. (
      read-set policy_of routines a b r r' at same_id ∙ (valid.entries id b found).0,
      read-set is_live routines a b r r' at same_life ∙ (valid.entries id b found).1,
    );
    phases = λ b q found. elim (Bool-cases (a == b)) [
      | inl here ↦
          let q_is : r' ≡ q = ground (arith, get_elem?-set routines a b r' r at) in
          subst (λ x. PhaseOk x.phase x.handler) q_is good
      | inr other ↦ valid.phases b q (ground (arith, get_elem?-set routines a b r' r at))
    ];
  }

  pub create-Valid :
      (id source : String)
      → Valid
          (insert id (length routines) handlers)
          (routines ++ record { phase = starting; handler = new_handler id source } ∷ [])
  unfolding new_handler in_progress
  create-Valid id source =
      let r : Routine = record { phase = starting; handler = new_handler id source } in
      record {
        entries = λ q b found. elim (lookup-insert_cases id q (length routines) b handlers found) [
          | inl (same, at_end) ↦ (
            subst (λ k. read policy_of (routines ++ r ∷ []) k ≡ some q) (sym at_end)
                (read-append_last policy_of routines r ∙ ap some same),
            subst (λ k. read is_live (routines ++ r ∷ []) k ≡ some true) (sym at_end)
                (read-append_last is_live routines r),
          )
          | inr before ↦ (
            read-append policy_of routines r b q (valid.entries q b before).0,
            read-append is_live routines r b true (valid.entries q b before).1,
          )
        ];
        phases = λ b q found. elim (Bool-cases (length routines == b)) [
          | inl here ↦
              let q_is : r ≡ q = ground (arith, get_elem?-append_last routines r b) in
              subst (λ x. PhaseOk x.phase x.handler) q_is (refl, refl, refl)
          | inr other ↦ valid.phases b q (ground (arith, get_elem?-append_last routines r b))
        ];
      }
