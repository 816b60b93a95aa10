-- ===== src/Broker/Frame.antt =====
-- What a call of `enqueueLocked` keeps of the broker.
use nomad_autoscaler.Prelude.{
  ℕ, ◌∙◌, true, is_some, Bool-cases, Option-cases, Bool, List, Option, none, lookup-insert,
  lookup-delete, Map, insert, String, ◌≡◌, refl, false, inl, inr, some, lookup, set, str_eq, arith,
  ltb,
}
use nomad_autoscaler.Sdk.Eval.{ScalingEvaluation}
use nomad_autoscaler.Heap
use nomad_autoscaler.Broker.{
  Broker, pending_of, init_waiting, push_pending, replace_pending, update_pending, signal,
  count_new, enqueue_policy, enqueue_locked,
}
use nomad_autoscaler.Broker.Pending.{no_eval, less}
use nomad_autoscaler.Broker.Enqueue.{enqueue_locked_cases}

-- What a call of `enqueueLocked` leaves as it was.
pub record Framed (e : ScalingEvaluation) (b c : Broker) : Type 0 where
  pub unack_kept : c.unack ≡ b.unack
  pub others_counter :
      (j : String) → str_eq e.id j ≡ false → lookup j c.enqueued_evals ≡ lookup j b.enqueued_evals
  pub others_policy :
      (j : String)
      → str_eq e.policy.id j ≡ false
      → lookup j c.enqueued_policies ≡ lookup j b.enqueued_policies
  pub other_queues :
      (j : String)
      → str_eq e.policy.type j ≡ false
      → lookup j c.pending_evals ≡ lookup j b.pending_evals
  pub others_waiting :
      (j : String) → str_eq e.policy.type j ≡ false → lookup j c.waiting ≡ lookup j b.waiting
  pub limit_kept : c.delivery_limit ≡ b.delivery_limit
  pub timeout_kept : c.nack_timeout ≡ b.nack_timeout

module _ (e : ScalingEvaluation) (b : Broker) (counters : Map ℕ) (policies : Map String)
    (pending : Map (List ScalingEvaluation)) (waiting : Map Bool) where
  Framed-maps :
      ((j : String) → str_eq e.id j ≡ false → lookup j counters ≡ lookup j b.enqueued_evals)
      → ((j : String)
          → str_eq e.policy.id j ≡ false
          → lookup j policies ≡ lookup j b.enqueued_policies)
      → ((j : String)
          → str_eq e.policy.type j ≡ false
          → lookup j pending ≡ lookup j b.pending_evals)
      → ((j : String) → str_eq e.policy.type j ≡ false → lookup j waiting ≡ lookup j b.waiting)
      → Framed e b (record b {
        enqueued_evals = counters;
        enqueued_policies = policies;
        pending_evals = pending;
        waiting = waiting;
      })
  Framed-maps c p q w = record {
    unack_kept = refl;
    others_counter = c;
    others_policy = p;
    other_queues = q;
    others_waiting = w;
    limit_kept = refl;
    timeout_kept = refl;
  }

Framed-refl : (e : ScalingEvaluation) (b : Broker) → Framed e b b
Framed-refl e b = Framed-maps e b _ _ _ _ (λ j h. refl) (λ j h. refl) (λ j h. refl) (λ j h. refl)

Framed-trans : (e : ScalingEvaluation) (b c d : Broker) → Framed e b c → Framed e c d → Framed e b d
Framed-trans e b c d f g = record {
  unack_kept = g.unack_kept ∙ f.unack_kept;
  others_counter = λ j h. g.others_counter j h ∙ f.others_counter j h;
  others_policy = λ j h. g.others_policy j h ∙ f.others_policy j h;
  other_queues = λ j h. g.other_queues j h ∙ f.other_queues j h;
  others_waiting = λ j h. g.others_waiting j h ∙ f.others_waiting j h;
  limit_kept = g.limit_kept ∙ f.limit_kept;
  timeout_kept = g.timeout_kept ∙ f.timeout_kept;
}

push_pending-Framed :
    (e : ScalingEvaluation) (b : Broker) (m : Map String)
    → ((j : String) → str_eq e.policy.id j ≡ false → lookup j m ≡ lookup j b.enqueued_policies)
    → Framed e b (push_pending e (record b { enqueued_policies = m }))
unfolding push_pending signal
push_pending-Framed e b m others =
    let queue = e.policy.type in
    let p = Heap.push no_eval less (pending_of queue b.pending_evals) e in
    Framed-maps e b _ m _ _ (λ j h. refl) others
      (λ j h. lookup-insert queue j p b.pending_evals ∙ rw h refl)
      (λ j h. ground (arith, lookup-insert queue j true b.waiting))

replace_pending-Framed :
    (e : ScalingEvaluation) (i : ℕ) (b : Broker) → Framed e b (replace_pending e i b)
unfolding replace_pending
replace_pending-Framed e i b =
    let queue = e.policy.type in
    let p = Heap.fix no_eval less (set (pending_of queue b.pending_evals) i e) i in
    Framed-maps e b _ _ _ _ (λ j h. lookup-delete e.id j b.enqueued_evals ∙ rw h refl)
      (λ j h. lookup-insert e.policy.id j e.id b.enqueued_policies ∙ rw h refl)
      (λ j h. lookup-insert queue j p b.pending_evals ∙ rw h refl) (λ j h. refl)

count_new-Framed : (e : ScalingEvaluation) (b : Broker) → Framed e b (count_new e b)
unfolding count_new
count_new-Framed e b = elim (Bool-cases (is_some (lookup e.id b.enqueued_evals))) [
  | inl known ↦ rw known (Framed-refl e b)
  | inr new ↦ rw new (
      Framed-maps e b _ _ _ _
        (λ j h. lookup-insert e.id j (let z : ℕ = 0 in z) b.enqueued_evals ∙ rw h refl)
        (λ j h. refl) (λ j h. refl) (λ j h. refl))
]

init_waiting-Framed :
    (e : ScalingEvaluation) (b : Broker) → Framed e b (init_waiting e.policy.type b)
unfolding init_waiting
init_waiting-Framed e b = elim (Bool-cases (is_some (lookup e.policy.type b.pending_evals))) [
  | inl known ↦ rw known (Framed-refl e b)
  | inr new ↦ elim (Bool-cases (is_some (lookup e.policy.type b.waiting))) [
    | inl opened ↦ rw (new, opened) (Framed-refl e b)
    | inr shut ↦
        rw (new, shut)
          (Framed-maps e b _ _ _ _ (λ j h. refl) (λ j h. refl) (λ j h. refl)
            (λ j h. lookup-insert e.policy.type j false b.waiting ∙ rw h refl))
  ]
]

update_pending-Framed :
    (e : ScalingEvaluation) (b : Broker) (found : Option (ℕ × ScalingEvaluation))
    → Framed e b (update_pending e found b)
unfolding update_pending
update_pending-Framed e b none = push_pending-Framed e b b.enqueued_policies (λ j h. refl)
update_pending-Framed e b (some (i, old)) = elim (Bool-cases (ltb old.create_time e.create_time)) [
  | inl newer ↦ rw newer (replace_pending-Framed e i b)
  | inr older ↦ rw older (Framed-refl e b)
]

enqueue_policy-Framed : (e : ScalingEvaluation) (b : Broker) → Framed e b (enqueue_policy e b)
unfolding enqueue_policy
enqueue_policy-Framed e b = elim (Option-cases (lookup e.policy.id b.enqueued_policies)) [
  | inl new ↦
      rw (new, enqueue_policy)
        (push_pending-Framed e b (insert e.policy.id e.id b.enqueued_policies)
          (λ j h. lookup-insert e.policy.id j e.id b.enqueued_policies ∙ rw h refl))
  | inr (id, known) ↦
      rw (known, enqueue_policy)
        (elim (Bool-cases (str_eq id e.id)) [
          | inl same ↦ rw same (push_pending-Framed e b b.enqueued_policies (λ j h. refl))
          | inr other ↦ rw other (update_pending-Framed e b _)
        ])
]

pub enqueue_locked-Framed :
    (e : ScalingEvaluation) (token : String) (b : Broker) → Framed e b (enqueue_locked e token b)
enqueue_locked-Framed e token b =
    let c = count_new e b in
    let d = init_waiting e.policy.type c in
    enqueue_locked_cases (Framed e b) e token b (Framed-refl e b) (
      Framed-trans e b c _ (count_new-Framed e b)
        (Framed-trans e c d _ (init_waiting-Framed e c) (enqueue_policy-Framed e d)))
