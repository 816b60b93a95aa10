-- ===== src/Broker/Safety.antt =====
-- The broker after any steps.
use nomad_autoscaler.Prelude.{
  ℕ, ◌≤◌, ◌<◌, String, ◌≡◌, inl, inr, ◌∷◌, some, lookup, arith, Option-cases, ℤ,
}
use nomad_autoscaler.Prelude.{Perm, length}
use nomad_autoscaler.Heap.Array.{entry}
use nomad_autoscaler.Broker.Pending.{no_eval, GoesFirst}
use nomad_autoscaler.Broker.{pending_of}
use nomad_autoscaler.Broker.Invariant.{start-Inv}
use nomad_autoscaler.Sdk.Eval.{ScalingEvaluation}
use nomad_autoscaler.Broker.{Broker, UnackEval, find_work, dequeues_of}
use nomad_autoscaler.Broker.Counts.{lookup-IsKeyed}
use nomad_autoscaler.Broker.Dequeue.{find_work-Found}
use nomad_autoscaler.Broker.System.{
  System, Step, Reach, held, start, enqueues, takes, opens, waits, delivers, acks, nacks, expires,
  here, next,
}
use nomad_autoscaler.Broker.Invariant.{
  Inv, delivery_bound, enqueues-Inv, takes-Inv, opens-Inv, waits-Inv,
}
use nomad_autoscaler.Broker.Deliveries.{hand_outs, IsCounted, hand_outs-counter}
use nomad_autoscaler.Broker.Delivery.{delivers-Inv}
use nomad_autoscaler.Broker.Removal.{acks-Inv, nacks-Inv, expires-Inv}

-- Every step of the broker and its callers keeps the invariant.
pub Step-Inv : {s t : System} → Step s t → Inv s → Inv t
Step-Inv {s} (enqueues e fresh) v = enqueues-Inv e s v fresh
Step-Inv {s} (takes queue e b h) v = takes-Inv queue e b s v h
Step-Inv {s} (opens queue) v = opens-Inv queue s v
Step-Inv {s} (waits queue b h) v = waits-Inv queue b s v h
Step-Inv {s} (delivers e token before after h) v = delivers-Inv e token before after s v h
Step-Inv {s} (acks id token) v = acks-Inv id token s v
Step-Inv {s} (nacks id token) v = nacks-Inv id token s v
Step-Inv {s} (expires id) v = expires-Inv id s v

pub Reach-Inv : {s t : System} → Inv s → Reach s t → Inv t
Reach-Inv v here = v
Reach-Inv v (next r st) = Step-Inv st (Reach-Inv v r)

-- From an empty broker, whatever calls follow in whatever order, where each evaluation is enqueued
-- under an ID that no held one has, no evaluation is held twice: it is pending once, in flight
-- once, unacknowledged once, or not held.
pub Reach-held :
    (timeout limit : ℤ) (s : System) (id : String) → Reach (start timeout limit) s → held id s ≤ 1
Reach-held timeout limit s id r = (Reach-Inv (start-Inv timeout limit) r).once id

-- The counter of an unacknowledged evaluation.
counter_bound :
    (timeout limit : ℤ) (s : System) (id : String) (u : UnackEval)
    → Reach (start timeout limit) s
    → lookup id s.broker.unack ≡ some u
    → dequeues_of id s.broker.enqueued_evals ≤ delivery_bound s.broker.delivery_limit
counter_bound timeout limit s id u r h =
    let v = Reach-Inv (start-Inv timeout limit) r in
    let there = lookup-IsKeyed id u s.broker.unack v.keyed h in
    elim (Option-cases (lookup id s.broker.enqueued_evals)) [
      | inl e ↦ rw (e, dequeues_of) (omega arith)
      | inr (n, e) ↦ rw (e, dequeues_of) (v.unack_bound id n e there.1)
    ]

-- From an empty broker, and with such calls, an evaluation that is unacknowledged was handed out at most
-- as often as the delivery limit says, or once where the limit is not positive, if no step dropped its
-- counter.
pub Reach-delivery_bound :
    (timeout limit : ℤ) (s : System) (id : String) (u : UnackEval)
    (r : Reach (start timeout limit) s)
    → IsCounted id r
    → lookup id s.broker.unack ≡ some u
    → hand_outs id r ≤ delivery_bound s.broker.delivery_limit
Reach-delivery_bound timeout limit s id u r kept h =
    rw (hand_outs-counter timeout limit id r kept) (counter_bound timeout limit s id u r h)

-- From an empty broker, and with such calls, an evaluation that a worker takes from a queue is of
-- the queue's type, no pending evaluation of the queue has a higher priority or the same priority and
-- an earlier creation, and the queue keeps the others.
pub Reach-find_work :
    (timeout limit : ℤ) (s : System) (queue : String) (e : ScalingEvaluation) (b : Broker)
    → Reach (start timeout limit) s
    → find_work queue s.broker ≡ (some e, b)
    → (e.policy.type ≡ queue)
      × ((i : ℕ)
          → i < length (pending_of queue s.broker.pending_evals)
          → GoesFirst e (entry no_eval (pending_of queue s.broker.pending_evals) i))
      × Perm (e ∷ pending_of queue b.pending_evals) (pending_of queue s.broker.pending_evals)
Reach-find_work timeout limit s queue e b r h =
    let v = (Reach-Inv (start-Inv timeout limit) r).valid in
    let found = find_work-Found queue e s.broker b v h in (found.typed, found.best, found.taken)
