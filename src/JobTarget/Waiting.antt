-- ===== src/JobTarget/Waiting.antt =====
-- When Status of the target plugin for Nomad jobs waits for ever.
use nomad_autoscaler.Prelude.{
  ℕ, String, Bool, ◌≡◌, ◌⊎◌, refl, ap, sym, ◌∙◌, true, false, List, [], ◌∷◌, Option, none, some, ℤ,
  contains_text, if◌then◌else◌, arith, Bool-cases, inl, inr,
}
use nomad_autoscaler.JobTarget.{
  JobHandler, JobStatus, Answer, answered, errored, Polled, returned, goes_on, notifies, poll,
  await, start, is_unchanged, update_status_state, set_stop_state,
}

-- The first answer that is no error, unless there is the error 404 before.
unfoldable pub first_status : List (ℤ × Answer) → Option (ℤ × JobStatus × ℕ)
first_status [] = none
first_status ((now, answered s index) ∷ rest) = some (now, s, index)
first_status ((now, errored e) ∷ rest) = if contains_text "404" e then none else first_status rest

-- One round of a loop that has sent its signal before.
poll-initialized :
    (now : ℤ) (answer : Answer) (h : JobHandler)
    → h.initialized ≡ true
    → ((h' : JobHandler) × (poll now answer h ≡ returned h'))
      ⊎ ((h' : JobHandler) × (poll now answer h ≡ goes_on h') × (h'.initialized ≡ true))
unfolding poll update_status_state
poll-initialized now (answered s index) h old = elim (Bool-cases (is_unchanged index h)) [
  | inl same ↦ inr (h, ground arith, old)
  | inr new ↦
      inr
        (record (update_status_state now (some s) none h) { wait_index = index }, ground arith, old)
]
poll-initialized now (errored e) h old = elim (Bool-cases (contains_text "404" e)) [
  | inl missing ↦ inl (set_stop_state now h, ground arith)
  | inr other ↦
      inr (record (update_status_state now none (some e) h) { wait_index = 0 }, ground arith, old)
]

await-initialized :
    (answers : List (ℤ × Answer)) (h : JobHandler) → h.initialized ≡ true → await answers h ≡ none
unfolding await
await-initialized [] h old = refl
await-initialized ((now, answer) ∷ rest) h old = elim (poll-initialized now answer h old) [
  | inl (h', ends) ↦ rw (ends, await) refl
  | inr (h', goes, old') ↦ rw (goes, await) (await-initialized rest h' old')
]

-- The handler after the first status, if there is one.
abbrev pub with_first : JobHandler → Option (ℤ × JobStatus × ℕ) → Option JobHandler
with_first h none = none
with_first h (some (now, s, index)) = some (record h {
  scale_status = some s;
  scale_status_error = none;
  initialized = true;
  last_updated = now;
  wait_index = index;
})

poll-first :
    (now : ℤ) (s : JobStatus) (index : ℕ) (h : JobHandler)
    → h.initialized ≡ false
    → h.scale_status ≡ none
    → poll now (answered s index) h
      ≡ notifies (record (update_status_state now (some s) none h) {
        initialized = true;
        wait_index = index;
      })
unfolding poll
poll-first now s index h fresh empty = ground arith

poll-missing :
    (now : ℤ) (e : String) (h : JobHandler)
    → contains_text "404" e ≡ true
    → poll now (errored e) h ≡ returned (set_stop_state now h)
unfolding poll
poll-missing now e h missing = rw (missing, poll) refl

poll-error :
    (now : ℤ) (e : String) (h : JobHandler)
    → contains_text "404" e ≡ false
    → poll now (errored e) h
      ≡ goes_on (record (update_status_state now none (some e) h) { wait_index = 0 })
unfolding poll
poll-error now e h other = rw (other, poll) refl

with_first_error :
    (now : ℤ) (e : String) (h : JobHandler) (found : Option (ℤ × JobStatus × ℕ))
    → with_first (record (update_status_state now none (some e) h) { wait_index = 0 }) found
      ≡ with_first h found
unfolding update_status_state
with_first_error now e h none = refl
with_first_error now e h (some (later, s, index)) = refl

abbrev after_poll : List (ℤ × Answer) → Polled → Option JobHandler
after_poll rest (returned h) = none
after_poll rest (notifies h) = some h
after_poll rest (goes_on h) = await rest h

await-cons :
    (now : ℤ) (answer : Answer) (rest : List (ℤ × Answer)) (h : JobHandler) (w : Polled)
    → poll now answer h ≡ w
    → await ((now, answer) ∷ rest) h ≡ after_poll rest w
unfolding await
await-cons now answer rest h (returned h') e = rw (e, await) refl
await-cons now answer rest h (notifies h') e = rw (e, await) refl
await-cons now answer rest h (goes_on h') e = rw (e, await) refl

first_status-missing :
    (now : ℤ) (e : String) (rest : List (ℤ × Answer))
    → contains_text "404" e ≡ true
    → first_status ((now, errored e) ∷ rest) ≡ none
unfolding first_status
first_status-missing now e rest missing = rw (missing, first_status) refl

first_status-other :
    (now : ℤ) (e : String) (rest : List (ℤ × Answer))
    → contains_text "404" e ≡ false
    → first_status ((now, errored e) ∷ rest) ≡ first_status rest
unfolding first_status
first_status-other now e rest other = rw (other, first_status) refl

await-fresh :
    (answers : List (ℤ × Answer)) (h : JobHandler)
    → h.initialized ≡ false
    → h.scale_status ≡ none
    → await answers h ≡ with_first h (first_status answers)
unfolding first_status update_status_state
await-fresh [] h fresh empty = unfold await in refl
await-fresh ((now, answered s index) ∷ rest) h fresh empty =
    await-cons now (answered s index) rest h _ (poll-first now s index h fresh empty)
await-fresh ((now, errored e) ∷ rest) h fresh empty = elim (Bool-cases (contains_text "404" e)) [
  | inl missing ↦
      await-cons now (errored e) rest h _ (poll-missing now e h missing)
      ∙ ap (with_first h) (sym (first_status-missing now e rest missing))
  | inr other ↦
      let h' : JobHandler = record (update_status_state now none (some e) h) { wait_index = 0 } in
      await-cons now (errored e) rest h _ (poll-error now e h other)
      ∙ (await-fresh rest h' fresh refl
          ∙ (with_first_error now e h (first_status rest)
              ∙ ap (with_first h) (sym (first_status-other now e rest other))))
]

abbrev waiting : JobHandler → List (ℤ × Answer) → Bool → Option JobHandler
waiting h answers b =
    if b
    then none
    else with_first (record h { is_running = true; wait_index = 1 }) (first_status answers)

-- A call of `Status` that starts the loop waits for ever if the loop of the job was initialized by an
-- earlier call: it signals its first run once only. It waits for ever too if Nomad reports the error 404
-- before it gives a status, or gives none. Otherwise it goes on with the first status that Nomad gives.
-- A handler that is not initialized has no status yet.
pub start-waits :
    (answers : List (ℤ × Answer)) (h : JobHandler)
    → (h.initialized ≡ true) ⊎ (h.scale_status ≡ none)
    → start answers h ≡ (
        if h.initialized
        then none
        else with_first (record h { is_running = true; wait_index = 1 }) (first_status answers))
unfolding start
start-waits answers h known = elim (Bool-cases h.initialized) [
  | inl old ↦
      await-initialized answers (record h { is_running = true; wait_index = 1 }) old
      ∙ ap (waiting h answers) (sym old)
  | inr fresh ↦
      let empty : h.scale_status ≡ none = elim known [
        | inl old ↦ absurd (cc)
        | inr empty ↦ empty
      ] in
      await-fresh answers (record h { is_running = true; wait_index = 1 }) fresh empty
      ∙ ap (waiting h answers) (sym fresh)
]
