-- ===== src/Broker/Tests.antt =====
-- The broker's theorems at concrete evaluations.
use nomad_autoscaler.Prelude.{
  ℕ, String, ◌≡◌, refl, [], ◌∷◌, none, some, inl, delete, lookup, insert, ◌≤◌, ◌<◌, ◌+◌, Perm,
  length, pos,
}
use nomad_autoscaler.Sdk.Policy.{zero_policy}
use nomad_autoscaler.Sdk.Eval.{ScalingEvaluation}
use nomad_autoscaler.Heap
use nomad_autoscaler.Heap.Array.{entry, swap}
use nomad_autoscaler.Broker.{
  Broker, new_broker, running, pending_of, enqueue, enqueue_policy, count_new, push_pending,
  init_waiting, find_work, deliver, dequeue, nack, nack_found, withdraw, update_pending,
  replace_pending,
}
use nomad_autoscaler.Broker.Pending.{no_eval, GoesFirst, get_evaluation}
use nomad_autoscaler.Broker.Counts.{has_id, count_pending}
use nomad_autoscaler.Broker.System.{
  System, Reach, start, held, here, next, enqueues, takes, delivers,
}
use nomad_autoscaler.Broker.Invariant.{delivery_bound, start-Inv}
use nomad_autoscaler.Broker.Deliveries.{hand_outs, IsCounted}
use nomad_autoscaler.Broker.Safety.{Reach-held, Reach-delivery_bound, Reach-find_work, Reach-Inv}
use nomad_autoscaler.Broker.Acknowledgement.{AckOutcome, NackOutcome, ack-outcome, nack-outcome}
use nomad_autoscaler.Broker.Handout.{DequeueOutcome, dequeue-outcome}
use nomad_autoscaler.Broker.Replacement.{IsRival, enqueue-newer, enqueue-handed_out}

-- Two evaluations of one policy.

abbrev first : ScalingEvaluation
first = record no_eval {
  id = "first";
  policy = record zero_policy { id = "p"; type = "cluster" };
  create_time = 1;
}

abbrev second : ScalingEvaluation
second = record first { id = "second"; create_time = 2 }

abbrev empty_broker : Broker
empty_broker = new_broker (pos 10) (pos 2)

abbrev with_first : Broker
with_first = enqueue first empty_broker

abbrev handed_out : Broker
handed_out = deliver first "token" (find_work "cluster" with_first).1

abbrev s1 : System
s1 = record { broker = with_first; in_flight = [] }

abbrev s2 : System
s2 = record { broker = (find_work "cluster" with_first).1; in_flight = first ∷ [] }

abbrev s3 : System
s3 = record { broker = handed_out; in_flight = [] }

s1_reached : Reach (start (pos 10) (pos 2)) s1
unfolding new_broker
s1_reached = next here (enqueues first refl)

s1_takes : find_work "cluster" with_first ≡ (some first, (find_work "cluster" with_first).1)
unfolding find_work enqueue enqueue_policy count_new init_waiting push_pending new_broker Heap.push
    Heap.pop swap lookup insert
s1_takes = refl

s3_reached : Reach (start (pos 10) (pos 2)) s3
s3_reached =
    next (next s1_reached (takes "cluster" first (find_work "cluster" with_first).1 s1_takes))
      (delivers first "token" [] [] refl)

s3_owner :
    lookup "first" handed_out.unack
    ≡ some (record { eval = first; token = "token"; nack_timer = running })
unfolding deliver find_work enqueue enqueue_policy count_new init_waiting push_pending new_broker
    Heap.push Heap.pop swap lookup insert
s3_owner = refl

Reach-held_example : held "first" s3 ≤ 1
Reach-held_example = Reach-held (pos 10) (pos 2) s3 "first" s3_reached

abbrev s3_steps : Reach (start (pos 10) (pos 2)) s3
unfolding new_broker
s3_steps =
    next
      (next (next here (enqueues first refl))
        (takes "cluster" first (find_work "cluster" with_first).1 s1_takes))
      (delivers first "token" [] [] refl)

s3-IsCounted : IsCounted "first" s3_steps
unfolding IsCounted deliver find_work enqueue enqueue_policy count_new init_waiting push_pending
    new_broker Heap.push Heap.pop swap lookup insert
s3-IsCounted = (((tt, inl refl), inl refl), inl refl)

Reach-delivery_bound_example : hand_outs "first" s3_steps ≤ delivery_bound handed_out.delivery_limit
Reach-delivery_bound_example =
    Reach-delivery_bound (pos 10) (pos 2) s3 "first"
      (record { eval = first; token = "token"; nack_timer = running }) s3_steps s3-IsCounted
      s3_owner

-- A worker takes the next evaluation of the queue.
abbrev handed : Broker → Broker
handed b = (dequeue "cluster" "token" b).1

abbrev nacked : String → Broker → Broker
nacked id b = (nack id "token" b).1

-- With the limit 2, the second evaluation is handed out a third time: when it replaces the first one after
-- its own first failure, its counter is dropped.
abbrev both_failed : Broker
both_failed = nacked "second" (nacked "first" (handed (enqueue second (handed with_first))))

second_again : (dequeue "cluster" "token" (nacked "second" (handed both_failed))).0 ≡ some second
unfolding nack dequeue deliver enqueue find_work enqueue_policy count_new init_waiting push_pending
    new_broker Heap.push Heap.pop swap lookup insert update_pending get_evaluation nack_found
    withdraw delete replace_pending Heap.fix
second_again = refl

Reach-find_work_example :
    (first.policy.type ≡ "cluster")
    × ((i : ℕ)
        → i < length (pending_of "cluster" with_first.pending_evals)
        → GoesFirst first (entry no_eval (pending_of "cluster" with_first.pending_evals) i))
    × Perm
        (first ∷ pending_of "cluster" (find_work "cluster" with_first).1.pending_evals)
        (pending_of "cluster" with_first.pending_evals)
Reach-find_work_example =
    Reach-find_work (pos 10) (pos 2) s1 "cluster" first (find_work "cluster" with_first).1
      s1_reached s1_takes

dequeue-outcome_example : DequeueOutcome "cluster" "token" with_first
dequeue-outcome_example =
    dequeue-outcome "cluster" "token" with_first
      (Reach-Inv (start-Inv (pos 10) (pos 2)) s1_reached).valid

ack-outcome_example : AckOutcome "first" "token" handed_out
ack-outcome_example = ack-outcome "first" "token" handed_out

nack-outcome_example : NackOutcome "first" "token" handed_out
nack-outcome_example =
    nack-outcome "first" "token" handed_out
      (Reach-Inv (start-Inv (pos 10) (pos 2)) s3_reached).keyed refl

pending_first :
    get_evaluation "first" (pending_of "cluster" with_first.pending_evals) ≡ some (0, first)
unfolding get_evaluation enqueue enqueue_policy count_new init_waiting push_pending new_broker
    Heap.push lookup insert
pending_first = refl

IsRival-of_pending : IsRival second "first" with_first
unfolding enqueue enqueue_policy count_new init_waiting push_pending new_broker Heap.push lookup
    insert
IsRival-of_pending = record { uncounted = refl; known = refl; other = refl }

enqueue-newer_example :
    ((j : String)
      → count_pending j (enqueue second with_first).pending_evals + has_id j first
        ≡ count_pending j with_first.pending_evals + has_id j second)
    × (lookup "p" (enqueue second with_first).enqueued_policies ≡ some "second")
    × ((j : String)
        → lookup j (enqueue second with_first).enqueued_evals ≡ lookup j with_first.enqueued_evals)
enqueue-newer_example =
    enqueue-newer second first "first" 0 with_first IsRival-of_pending pending_first refl

missing_first : get_evaluation "first" (pending_of "cluster" handed_out.pending_evals) ≡ none
unfolding get_evaluation deliver find_work enqueue enqueue_policy count_new init_waiting
    push_pending new_broker Heap.push Heap.pop swap lookup insert
missing_first = refl

IsRival-of_handed_out : IsRival second "first" handed_out
unfolding deliver find_work enqueue enqueue_policy count_new init_waiting push_pending new_broker
    Heap.push Heap.pop swap lookup insert
IsRival-of_handed_out = record { uncounted = refl; known = refl; other = refl }

enqueue-handed_out_example :
    ((j : String)
      → count_pending j (enqueue second handed_out).pending_evals
        ≡ count_pending j handed_out.pending_evals + has_id j second)
    × (lookup "p" (enqueue second handed_out).enqueued_policies ≡ some "first")
    × (lookup "second" (enqueue second handed_out).enqueued_evals ≡ some 0)
enqueue-handed_out_example =
    enqueue-handed_out second "first" handed_out IsRival-of_handed_out missing_first
