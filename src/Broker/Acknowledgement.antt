-- ===== src/Broker/Acknowledgement.antt =====
-- `Ack` and `Nack`: when they succeed, and what they leave.
use nomad_autoscaler.Prelude.{
  ◌≤ℤ◌, ◌<ℤ◌, pos, if◌then◌else◌, arith, String, ◌≡◌, refl, sym, ◌∙◌, true, false, ◌⊎◌, inl, inr,
  Option, none, some, lookup, lookup-delete, ap, is_some, str_eq, eq_refl, eq_iff, Bool-cases,
  Option-cases, ◌≢◌,
}
use nomad_autoscaler.Broker.Retry.{IsPresent, enqueue_locked-IsPresent}
use nomad_autoscaler.Broker.Frame.{enqueue_locked-Framed}
use nomad_autoscaler.Broker.Counter.{CounterStep, enqueue_locked-CounterStep}
use nomad_autoscaler.Broker.Counts.{IsKeyed, lookup-IsKeyed}
use nomad_autoscaler.Broker.{
  Broker, UnackEval, NackTimer, running, expired, BrokerError, forget, withdraw, ack_by_timer, ack,
  ack_found, nack, nack_found, exhausted, enqueue_locked, dequeues_of,
}

-- The evaluation is unacknowledged, and handed out under the token.
abbrev pub IsOwner : String → String → UnackEval → Broker → Type 0
IsOwner id token u b = (lookup id b.unack ≡ some u) × (u.token ≡ token)

-- What is left when an evaluation is done with: no trace of it and its policy, and all else as before.
pub record Forgotten (id : String) (u : UnackEval) (b c : Broker) : Type 0 where
  pub no_unack : lookup id c.unack ≡ none
  pub no_counter : lookup id c.enqueued_evals ≡ none
  pub no_policy : lookup u.eval.policy.id c.enqueued_policies ≡ none
  pub others_unack : (j : String) → str_eq id j ≡ false → lookup j c.unack ≡ lookup j b.unack
  pub others_counter :
      (j : String) → str_eq id j ≡ false → lookup j c.enqueued_evals ≡ lookup j b.enqueued_evals
  pub others_policy :
      (j : String)
      → str_eq u.eval.policy.id j ≡ false
      → lookup j c.enqueued_policies ≡ lookup j b.enqueued_policies
  pub pending_kept : c.pending_evals ≡ b.pending_evals
  pub waiting_kept : c.waiting ≡ b.waiting
  pub limit_kept : c.delivery_limit ≡ b.delivery_limit
  pub timeout_kept : c.nack_timeout ≡ b.nack_timeout

pub forget-Forgotten : (id : String) (u : UnackEval) (b : Broker) → Forgotten id u b (forget id u b)
unfolding forget
forget-Forgotten id u b = record {
  no_unack = lookup-delete id id b.unack ∙ rw (eq_refl id) refl;
  no_counter = lookup-delete id id b.enqueued_evals ∙ rw (eq_refl id) refl;
  no_policy =
      lookup-delete u.eval.policy.id u.eval.policy.id b.enqueued_policies
      ∙ rw (eq_refl u.eval.policy.id) refl;
  others_unack = λ j h. lookup-delete id j b.unack ∙ rw h refl;
  others_counter = λ j h. lookup-delete id j b.enqueued_evals ∙ rw h refl;
  others_policy = λ j h. lookup-delete u.eval.policy.id j b.enqueued_policies ∙ rw h refl;
  pending_kept = refl;
  waiting_kept = refl;
  limit_kept = refl;
  timeout_kept = refl;
}

module _ (id token : String) (b : Broker) (u : UnackEval) where
  -- A success that forgets, or a failure that changes nothing, with its reason.
  abbrev Outcome : Option BrokerError × Broker → Type 0
  Outcome r =
      ((u.token ≡ token) × (u.nack_timer ≡ running) × (r.0 ≡ none) × Forgotten id u b r.1)
      ⊎ (is_some r.0 ≡ true) × (r.1 ≡ b) × ((u.token ≢ token) ⊎ (u.nack_timer ≡ expired))

  ack_by_timer-Outcome :
      (t : NackTimer) → u.nack_timer ≡ t → u.token ≡ token → Outcome (ack_by_timer t id u b)
  unfolding ack_by_timer
  ack_by_timer-Outcome running e same = inl (same, e, refl, forget-Forgotten id u b)
  ack_by_timer-Outcome expired e same = inr (refl, refl, inr e)

  ack_found-Outcome : Outcome (ack_found id token u b)
  unfolding ack_found
  ack_found-Outcome = elim (Bool-cases (str_eq u.token token)) [
    | inl same ↦ rw same (ack_by_timer-Outcome u.nack_timer refl ((eq_iff u.token token).0 same))
    | inr other ↦ rw other (inr (refl, refl, inl (λ k. cc (other, (eq_iff u.token token).1 k))))
  ]

-- It succeeds and forgets, or it fails and changes nothing.
abbrev pub AckOutcome : String → String → Broker → Type 0
AckOutcome id token b =
    ((u : UnackEval) × IsOwner id token u b
      × (u.nack_timer ≡ running)
      × ((ack id token b).0 ≡ none)
      × Forgotten id u b (ack id token b).1)
    ⊎ (is_some (ack id token b).0 ≡ true)
      × ((ack id token b).1 ≡ b)
      × ((u : UnackEval) → IsOwner id token u b → u.nack_timer ≡ expired)

-- `Ack` succeeds where the evaluation is unacknowledged under the token and its timer still runs;
-- then it is neither unacknowledged nor counted any more, its policy is not recorded, and all else is
-- as before. In every
-- other case it gives an error and changes nothing, and the token is wrong, the evaluation is not
-- unacknowledged, or its timer has run out.
pub ack-outcome : (id token : String) (b : Broker) → AckOutcome id token b
unfolding ack
ack-outcome id token b = elim (Option-cases (lookup id b.unack)) [
  | inl absent ↦ inr (rw (absent, ack) refl, rw (absent, ack) refl, λ u k. cc (absent, k.0))
  | inr (u, present) ↦
      rw (present, ack)
        (elim (ack_found-Outcome id token b u) [
          | inl (same, runs, ok, done) ↦ inl (u, (refl, same), runs, ok, done)
          | inr (failed, kept, why) ↦ inr (
            failed,
            kept,
            λ w (at, token_at).
                let same : u ≡ w = cc in
                elim why [
                  | inl other ↦ absurd (other (ap (λ x. x.token) same ∙ token_at))
                  | inr late ↦ sym (ap (λ x. x.nack_timer) same) ∙ late
                ],
          )
        ])
]

-- What is left when an evaluation is to be tried again: it is not unacknowledged, it is pending or another
-- one of its policy that is not older is, its counter is kept, dropped or, if there is none, started at 0,
-- and all else is as before but the entries of its policy and of the type of its policy.
pub record Retried (id : String) (u : UnackEval) (b c : Broker) : Type 0 where
  pub own_id : u.eval.id ≡ id
  pub no_unack : lookup id c.unack ≡ none
  pub present : IsPresent u.eval c
  pub own_counter : CounterStep (lookup id b.enqueued_evals) (lookup id c.enqueued_evals)
  pub others_unack : (j : String) → str_eq id j ≡ false → lookup j c.unack ≡ lookup j b.unack
  pub others_counter :
      (j : String) → str_eq id j ≡ false → lookup j c.enqueued_evals ≡ lookup j b.enqueued_evals
  pub others_policy :
      (j : String)
      → str_eq u.eval.policy.id j ≡ false
      → lookup j c.enqueued_policies ≡ lookup j b.enqueued_policies
  pub other_queues :
      (j : String)
      → str_eq u.eval.policy.type j ≡ false
      → lookup j c.pending_evals ≡ lookup j b.pending_evals
  pub others_waiting :
      (j : String) → str_eq u.eval.policy.type j ≡ false → lookup j c.waiting ≡ lookup j b.waiting
  pub limit_kept : c.delivery_limit ≡ b.delivery_limit
  pub timeout_kept : c.nack_timeout ≡ b.nack_timeout

retried :
    (id token : String) (u : UnackEval) (b : Broker)
    → u.eval.id ≡ id
    → str_eq token "" ≡ false
    → Retried id u b (enqueue_locked u.eval token (withdraw id b))
unfolding withdraw
retried id token u b name h =
    let f = enqueue_locked-Framed u.eval token (withdraw id b) in
    let gone : (j : String)
        → lookup j (enqueue_locked u.eval token (withdraw id b)).unack
          ≡ (if str_eq id j then none else lookup j b.unack) =
      λ j. ap (lookup j) f.unack_kept ∙ lookup-delete id j b.unack in
    record {
      own_id = name;
      no_unack = gone id ∙ rw (eq_refl id) refl;
      present = enqueue_locked-IsPresent u.eval token (withdraw id b) h;
      own_counter = enqueue_locked-CounterStep id u.eval token (withdraw id b);
      others_unack = λ j other. gone j ∙ rw other refl;
      others_counter = λ j other. f.others_counter j (rw name other);
      others_policy = f.others_policy;
      other_queues = f.other_queues;
      others_waiting = f.others_waiting;
      limit_kept = f.limit_kept;
      timeout_kept = f.timeout_kept;
    }

-- At the delivery limit the evaluation is forgotten, and below it is tried again.
abbrev pub Returned : String → UnackEval → Broker → Broker → Type 0
Returned id u b c =
    ((b.delivery_limit ≤ℤ pos (dequeues_of id b.enqueued_evals)) × Forgotten id u b c)
    ⊎ ((pos (dequeues_of id b.enqueued_evals) <ℤ b.delivery_limit) × Retried id u b c)

pub nack_found-outcome :
    (id token : String) (b : Broker) (u : UnackEval)
    → IsKeyed b.unack
    → IsOwner id token u b
    → str_eq token "" ≡ false
    → ((nack id token b).0 ≡ none) × Returned id u b (nack id token b).1
unfolding nack nack_found
nack_found-outcome id token b u keyed owner h =
    let same : str_eq u.token token ≡ true = (eq_iff u.token token).1 owner.1 in
    let name = (lookup-IsKeyed id u b.unack keyed owner.0).0 in
    rw (owner.0, nack, same)
      (elim (Bool-cases (exhausted id b)) [
        | inl done ↦ rw done (refl, inl (ground arith, forget-Forgotten id u b))
        | inr more ↦ rw more (refl, inr (ground arith, retried id token u b name h))
      ])

-- It succeeds and forgets or retries, or it fails and changes nothing.
abbrev pub NackOutcome : String → String → Broker → Type 0
NackOutcome id token b =
    ((u : UnackEval) × IsOwner id token u b
      × ((nack id token b).0 ≡ none)
      × Returned id u b (nack id token b).1)
    ⊎ (is_some (nack id token b).0 ≡ true)
      × ((nack id token b).1 ≡ b)
      × ((u : UnackEval) → ¬ (IsOwner id token u b))

-- Where each evaluation is recorded under its own ID and the token is not empty, `Nack` succeeds
-- where the evaluation is unacknowledged under the token, whether or not its timer has run out:
-- at the delivery limit the evaluation is neither unacknowledged nor counted any more, its policy is not
-- recorded, and all else is as before, and below it the evaluation is not unacknowledged any more, it is pending again or an evaluation that is
-- not older is pending as the one of its policy, its counter is kept, dropped or, if there is none,
-- started at 0, and all else is as before but the entry of its policy, and the queue and the channel of
-- the type of its policy. In every other case `Nack` gives an error and changes nothing.
pub nack-outcome :
    (id token : String) (b : Broker)
    → IsKeyed b.unack
    → str_eq token "" ≡ false
    → NackOutcome id token b
unfolding nack nack_found
nack-outcome id token b keyed h = elim (Option-cases (lookup id b.unack)) [
  | inl absent ↦ inr (rw (absent, nack) refl, rw (absent, nack) refl, λ u k. cc (absent, k.0))
  | inr (u, present) ↦ elim (Bool-cases (str_eq u.token token)) [
    | inl same ↦
        let owner : IsOwner id token u b = (present, (eq_iff u.token token).0 same) in
        let r = nack_found-outcome id token b u keyed owner h in inl (u, owner, r.0, r.1)
    | inr other ↦ inr (
      rw (present, nack, other) refl,
      rw (present, nack, other) refl,
      λ w (at, token_at).
          let here : u ≡ w = cc in
          cc (other, (eq_iff u.token token).1 (ap (λ x. x.token) here ∙ token_at)),
    )
  ]
]
