-- ===== src/Broker/Counter.antt =====
-- What the calls of the broker but `Dequeue` do to the counter of an evaluation.
use nomad_autoscaler.Prelude.{
  ℕ, ◌≡◌, refl, ◌∙◌, String, ◌⊎◌, inl, inr, Option, none, some, lookup, lookup-insert,
  lookup-delete, str_eq, arith, Map, Bool-cases, Option-cases, [], ◌∷◌, delete, eq_iff,
}
use nomad_autoscaler.Sdk.Eval.{ScalingEvaluation}
use nomad_autoscaler.Broker.{
  Broker, UnackEval, NackTimer, running, expired, dequeues_of, count_new, init_waiting,
  push_pending, replace_pending, enqueue_policy, enqueue_locked, find_work, pop_pending, forget,
  withdraw, ack, ack_found, ack_by_timer, nack, nack_found, exhausted,
}
use nomad_autoscaler.Broker.Enqueue.{enqueue_policy_cases, enqueue_locked_cases}

abbrev pub count_of : Option ℕ → ℕ
count_of none = 0
count_of (some n) = n

pub dequeues_of-count_of : (id : String) (m : Map ℕ) → dequeues_of id m ≡ count_of (lookup id m)
dequeues_of-count_of id m = elim (Option-cases (lookup id m)) [
  | inl e ↦ rw (e, dequeues_of) refl
  | inr (n, e) ↦ rw (e, dequeues_of) refl
]

-- What the calls but `Dequeue` do to a counter: they keep it, drop it or start it.
abbrev pub CounterStep : Option ℕ → Option ℕ → Type 0
CounterStep before after = (after ≡ before) ⊎ (after ≡ none) ⊎ ((before ≡ none) × (after ≡ some 0))

abbrev pub KeepsOrDrops : Option ℕ → Option ℕ → Type 0
KeepsOrDrops before after = (after ≡ before) ⊎ (after ≡ none)

pub weaker : (x y : Option ℕ) → KeepsOrDrops x y → CounterStep x y
weaker x y (inl e) = inl e
weaker x y (inr e) = inr (inl e)

delete-KeepsOrDrops :
    (k id : String) (m : Map ℕ) → KeepsOrDrops (lookup id m) (lookup id (delete k m))
delete-KeepsOrDrops k id m = elim (Bool-cases (str_eq k id)) [
  | inl same ↦ inr (lookup-delete k id m ∙ rw same refl)
  | inr other ↦ inl (lookup-delete k id m ∙ rw other refl)
]

enqueue_policy-KeepsOrDrops :
    (id : String) (e : ScalingEvaluation) (b : Broker)
    → KeepsOrDrops (lookup id b.enqueued_evals) (lookup id (enqueue_policy e b).enqueued_evals)
unfolding push_pending replace_pending
enqueue_policy-KeepsOrDrops id e b =
    enqueue_policy_cases
      (λ c. KeepsOrDrops (lookup id b.enqueued_evals) (lookup id c.enqueued_evals)) e b
      (λ m. inl refl) (λ k i old found. delete-KeepsOrDrops e.id id b.enqueued_evals)
      (λ k i old known found not_older. inl refl)

prepared-counter :
    (id : String) (e : ScalingEvaluation) (b : Broker)
    → let c = init_waiting e.policy.type (count_new e b) in
      (lookup id c.enqueued_evals ≡ lookup id b.enqueued_evals)
      ⊎ ((lookup id b.enqueued_evals ≡ none) × (lookup id c.enqueued_evals ≡ some 0))
unfolding init_waiting count_new
prepared-counter id e b =
    ground (arith, lookup-insert e.id id (let z : ℕ = 0 in z) b.enqueued_evals, eq_iff e.id id)

after_start :
    (x y z : Option ℕ) → (y ≡ x) ⊎ ((x ≡ none) × (y ≡ some 0)) → KeepsOrDrops y z → CounterStep x z
after_start x y z (inl e) (inl f) = inl (f ∙ e)
after_start x y z (inr (e, f)) (inl g) = inr (inr (e, g ∙ f))
after_start x y z s (inr f) = inr (inl f)

pub enqueue_locked-CounterStep :
    (id : String) (e : ScalingEvaluation) (token : String) (b : Broker)
    → CounterStep (lookup id b.enqueued_evals) (lookup id (enqueue_locked e token b).enqueued_evals)
enqueue_locked-CounterStep id e token b =
    enqueue_locked_cases
      (λ c. CounterStep (lookup id b.enqueued_evals) (lookup id c.enqueued_evals)) e token b
      (inl refl) (after_start _ _ _ (prepared-counter id e b) (enqueue_policy-KeepsOrDrops id e _))

forget-KeepsOrDrops :
    (id k : String) (u : UnackEval) (b : Broker)
    → KeepsOrDrops (lookup id b.enqueued_evals) (lookup id (forget k u b).enqueued_evals)
unfolding forget
forget-KeepsOrDrops id k u b = delete-KeepsOrDrops k id b.enqueued_evals

ack_by_timer-KeepsOrDrops :
    (t : NackTimer) (id k : String) (u : UnackEval) (b : Broker)
    → KeepsOrDrops (lookup id b.enqueued_evals) (lookup id (ack_by_timer t k u b).1.enqueued_evals)
unfolding ack_by_timer
ack_by_timer-KeepsOrDrops running id k u b = forget-KeepsOrDrops id k u b
ack_by_timer-KeepsOrDrops expired id k u b = inl refl

pub ack-KeepsOrDrops :
    (id k token : String) (b : Broker)
    → KeepsOrDrops (lookup id b.enqueued_evals) (lookup id (ack k token b).1.enqueued_evals)
unfolding ack ack_found
ack-KeepsOrDrops id k token b = elim (Option-cases (lookup k b.unack)) [
  | inl absent ↦ rw (absent, ack) (inl refl)
  | inr (u, present) ↦ elim (Bool-cases (str_eq u.token token)) [
    | inl same ↦ rw (present, ack, same) (ack_by_timer-KeepsOrDrops u.nack_timer id k u b)
    | inr other ↦ rw (present, ack, other) (inl refl)
  ]
]

pub nack-CounterStep :
    (id k token : String) (b : Broker)
    → CounterStep (lookup id b.enqueued_evals) (lookup id (nack k token b).1.enqueued_evals)
unfolding nack nack_found withdraw
nack-CounterStep id k token b = elim (Option-cases (lookup k b.unack)) [
  | inl absent ↦ rw (absent, nack) (inl refl)
  | inr (u, present) ↦ elim (Bool-cases (str_eq u.token token)) [
    | inr other ↦ rw (present, nack, other) (inl refl)
    | inl same ↦ elim (Bool-cases (exhausted k b)) [
      | inl done ↦ rw (present, nack, same, done) (weaker _ _ (forget-KeepsOrDrops id k u b))
      | inr more ↦
          rw (present, nack, same, more) (enqueue_locked-CounterStep id u.eval token (withdraw k b))
    ]
  ]
]

pub find_work-counters :
    (queue : String) (b : Broker) → (find_work queue b).1.enqueued_evals ≡ b.enqueued_evals
unfolding find_work pop_pending
find_work-counters queue b = elim (Option-cases (lookup queue b.pending_evals)) [
  | inl empty ↦ rw (empty, find_work) refl
  | inr ([], at) ↦ rw (at, find_work) refl
  | inr (x ∷ p, at) ↦ rw (at, find_work) refl
]
