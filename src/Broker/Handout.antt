-- ===== src/Broker/Handout.antt =====
-- `Dequeue` with no other call in between.
use nomad_autoscaler.Prelude.{
  ℕ, suc, ◌<◌, ◌≡◌, ◌∙◌, ap, String, str_eq, Bool, false, ◌⊎◌, inl, inr, ◌∷◌, [], none, some, Map,
  lookup, lookup-insert, lookup-insert_self, Perm, length, Option-cases,
}
use nomad_autoscaler.Heap.Array.{entry}
use nomad_autoscaler.Sdk.Eval.{ScalingEvaluation}
use nomad_autoscaler.Broker.{
  Broker, UnackEval, running, pending_of, dequeues_of, find_work, dequeue, deliver,
}
use nomad_autoscaler.Broker.Pending.{no_eval, GoesFirst}
use nomad_autoscaler.Broker.Validity.{IsValid}
use nomad_autoscaler.Broker.Dequeue.{
  Found, find_work-Found, find_work-eq-none_iff, dequeue_loop-found, dequeue_loop-empty,
}

-- The evaluation went from the pending ones of its queue, where it was first, to the unacknowledged ones,
-- under the token and with its timer running. It is counted once more. All else is as before.
pub record HandedOut (queue token : String) (e : ScalingEvaluation) (b c : Broker) : Type 0 where
  pub typed : e.policy.type ≡ queue
  pub first :
      (i : ℕ)
      → i < length (pending_of queue b.pending_evals)
      → GoesFirst e (entry no_eval (pending_of queue b.pending_evals) i)
  pub taken : Perm (e ∷ pending_of queue c.pending_evals) (pending_of queue b.pending_evals)
  pub other_queues :
      (j : String) → str_eq queue j ≡ false → lookup j c.pending_evals ≡ lookup j b.pending_evals
  pub recorded :
      lookup e.id c.unack ≡ some (record { eval = e; token = token; nack_timer = running })
  pub counted : lookup e.id c.enqueued_evals ≡ some (suc (dequeues_of e.id b.enqueued_evals))
  pub others_unack : (j : String) → str_eq e.id j ≡ false → lookup j c.unack ≡ lookup j b.unack
  pub others_counter :
      (j : String) → str_eq e.id j ≡ false → lookup j c.enqueued_evals ≡ lookup j b.enqueued_evals
  pub policies_kept : c.enqueued_policies ≡ b.enqueued_policies
  pub waiting_kept : c.waiting ≡ b.waiting
  pub limit_kept : c.delivery_limit ≡ b.delivery_limit
  pub timeout_kept : c.nack_timeout ≡ b.nack_timeout

deliver-HandedOut :
    (queue token : String) (e : ScalingEvaluation) (b c : Broker)
    → Found queue e b c
    → HandedOut queue token e b (deliver e token c)
unfolding deliver
deliver-HandedOut queue token e b c f =
    let u : UnackEval = record { eval = e; token = token; nack_timer = running } in
    let n = suc (dequeues_of e.id c.enqueued_evals) in
    let counters : c.enqueued_evals ≡ b.enqueued_evals = ap (λ x. x.enqueued_evals) f.rest_kept in
    let unack : c.unack ≡ b.unack = ap (λ x. x.unack) f.rest_kept in
    record {
      typed = f.typed;
      first = f.best;
      taken = f.taken;
      other_queues = f.other_queues;
      recorded = lookup-insert_self e.id u c.unack;
      counted =
          lookup-insert_self e.id n c.enqueued_evals
          ∙ ap (λ m. some (suc (dequeues_of e.id m))) counters;
      others_unack = λ j other. lookup-insert e.id j u c.unack ∙ (rw other (ap (lookup j) unack));
      others_counter =
          λ j other. lookup-insert e.id j n c.enqueued_evals ∙ (rw other (ap (lookup j) counters));
      policies_kept = ap (λ x. x.enqueued_policies) f.rest_kept;
      waiting_kept = ap (λ x. x.waiting) f.rest_kept;
      limit_kept = ap (λ x. x.delivery_limit) f.rest_kept;
      timeout_kept = ap (λ x. x.nack_timeout) f.rest_kept;
    }

found_or_not :
    (queue : String) (b : Broker)
    → ((find_work queue b).0 ≡ none)
      ⊎ ((e : ScalingEvaluation) × (find_work queue b ≡ (some e, (find_work queue b).1)))
found_or_not queue b = elim (Option-cases (find_work queue b).0) [
  | inl nothing ↦ inl nothing
  | inr (e, found) ↦ inr (e, ap (λ r. (r, (find_work queue b).1)) found)
]

-- It hands an evaluation out, or nothing is pending and it blocks.
abbrev pub DequeueOutcome : String → String → Broker → Type 0
DequeueOutcome queue token b =
    ((e : ScalingEvaluation) × (c : Broker) × (dequeue queue token b ≡ (some e, c))
      × HandedOut queue token e b c)
    ⊎ (pending_of queue b.pending_evals ≡ [])
      × ((m : Map Bool) × (dequeue queue token b ≡ (none, record b { waiting = m })))

-- In a valid broker, and with no other call in between, `Dequeue` hands out an evaluation that is pending
-- in the queue, with the highest priority and, among these, the earliest creation: it moves it to
-- the unacknowledged ones, under the token and with its timer running, counts it once more, and leaves all
-- else as before. Where none is pending in the queue it blocks, and changes only channels.
pub dequeue-outcome : (queue token : String) (b : Broker) → IsValid b → DequeueOutcome queue token b
unfolding dequeue
dequeue-outcome queue token b v = elim (found_or_not queue b) [
  | inl nothing ↦
      let empty = (find_work-eq-none_iff queue b).0 nothing in
      inr (empty, dequeue_loop-empty 0 queue token b empty)
  | inr (e, found) ↦
      let after = (find_work queue b).1 in
      inl (
        e,
        deliver e token after,
        dequeue_loop-found 1 queue token b after e found,
        deliver-HandedOut queue token e b after (find_work-Found queue e b after v found),
      )
]
