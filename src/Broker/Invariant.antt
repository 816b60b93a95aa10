-- ===== src/Broker/Invariant.antt =====
-- What holds of the broker among its callers, after any steps.
use nomad_autoscaler.Prelude.{
  ℕ, ◌+◌, ◌≤◌, ◌<◌, String, ◌≡◌, refl, sym, inl, inr, ◌∷◌, some, lookup, ap, subst, if◌then◌else◌,
  str_eq, eq_iff, arith, Bool-cases, Option-cases, ltb, ℤ, pos_part,
}
use nomad_autoscaler.Sdk.Eval.{ScalingEvaluation}
use nomad_autoscaler.Broker.{
  Broker, enqueue, enqueue_locked, find_work, wait_for_work, open_waiting, new_broker,
}
use nomad_autoscaler.Broker.Counts.{has_id, count, count_pending, count_unack, IsKeyed}
use nomad_autoscaler.Broker.Validity.{IsValid}
use nomad_autoscaler.Broker.Enqueue.{
  enqueue_locked-IsValid, enqueue_locked-Enqueued, enqueue_locked-known,
}
use nomad_autoscaler.Broker.Dequeue.{
  find_work-Found, woken, wait_for_work-eq-woken, woken-IsValid, open_waiting-IsValid,
  open_waiting-kept,
}
use nomad_autoscaler.Broker.System.{System, held, start}

-- How often an evaluation is handed out at most: once even where the limit is not positive.
abbrev pub delivery_bound : ℤ → ℕ
delivery_bound limit = if ltb 1 (pos_part limit) then pos_part limit else 1

pub record Inv (s : System) : Type 0 where
  pub valid : IsValid s.broker
  pub keyed : IsKeyed s.broker.unack
  -- No evaluation is held twice: it is pending, in flight or unacknowledged.
  pub once : (id : String) → held id s ≤ 1
  pub waiting_bound :
      (id : String) (n : ℕ)
      → lookup id s.broker.enqueued_evals ≡ some n
      → 0 < count_pending id s.broker.pending_evals + count id s.in_flight
      → n < delivery_bound s.broker.delivery_limit
  pub unack_bound :
      (id : String) (n : ℕ)
      → lookup id s.broker.enqueued_evals ≡ some n
      → 0 < count_unack id s.broker.unack
      → n ≤ delivery_bound s.broker.delivery_limit

pub start-Inv : (timeout limit : ℤ) → Inv (start timeout limit)
unfolding new_broker lookup
start-Inv timeout limit = record {
  valid = record { queues = λ queue p h. cc; channels = λ queue p h. cc };
  keyed = tt;
  once = λ id. omega arith;
  waiting_bound = λ id n h. cc;
  unack_bound = λ id n h. cc;
}

-- A fresh evaluation fits in.
held-fresh :
    (e : ScalingEvaluation) (s : System)
    → held e.id s ≡ 0
    → ((id : String) → held id s ≤ 1)
    → (id : String) → held id s + has_id id e ≤ 1
held-fresh e s h once id = elim (Bool-cases (str_eq e.id id)) [
  | inl same ↦
      let e1 : held id s ≡ 0 = subst (λ (j : String). held j s ≡ 0) ((eq_iff e.id id).0 same) h in
      rw same (omega (arith, e1))
  | inr other ↦ rw other (omega (arith, once id))
]

pub delivery_bound-pos : (limit : ℤ) → 0 < delivery_bound limit
delivery_bound-pos limit = ground arith

enqueued_waiting :
    (e : ScalingEvaluation) (token : String) (s : System)
    → Inv s
    → ((n : ℕ)
        → lookup e.id s.broker.enqueued_evals ≡ some n
        → n < delivery_bound s.broker.delivery_limit)
    → (id : String) (n : ℕ) → lookup id (enqueue_locked e token s.broker).enqueued_evals ≡ some n
    → 0 < count_pending id (enqueue_locked e token s.broker).pending_evals + count id s.in_flight
    → n < delivery_bound s.broker.delivery_limit
enqueued_waiting e token s v low id n h k =
    let w = enqueue_locked-Enqueued e token s.broker in
    elim (w.counters id n h) [
      | inl old ↦ elim (Bool-cases (str_eq e.id id)) [
        | inl same ↦ low n (rw ((eq_iff e.id id).0 same) old)
        | inr other ↦
            let none_added : has_id id e ≡ 0 = rw other refl in
            v.waiting_bound id n old (omega (arith, w.adds id, none_added))
      ]
      | inr zero_now ↦ omega (arith, zero_now, delivery_bound-pos s.broker.delivery_limit)
    ]

pub enqueued-Inv :
    (e : ScalingEvaluation) (token : String) (s : System)
    → Inv s
    → held e.id s ≡ 0
    → ((n : ℕ)
        → lookup e.id s.broker.enqueued_evals ≡ some n
        → n < delivery_bound s.broker.delivery_limit)
    → Inv (record s { broker = enqueue_locked e token s.broker })
enqueued-Inv e token s v fresh low =
    let b = s.broker in
    let c = enqueue_locked e token b in
    let w = enqueue_locked-Enqueued e token b in
    record {
      valid = enqueue_locked-IsValid e token b v.valid;
      keyed = subst IsKeyed (sym w.unack_kept) v.keyed;
      once = λ id.
          omega
            (arith, held-fresh e s fresh v.once id, w.adds id, ap (count_unack id) w.unack_kept);
      waiting_bound = λ id n h k.
          subst (λ l. n < delivery_bound l) (sym w.limit_kept)
            (enqueued_waiting e token s v low id n h k);
      unack_bound = λ id n h k.
          subst (λ l. n ≤ delivery_bound l) (sym w.limit_kept)
            (elim (w.counters id n h) [
              | inl old ↦ v.unack_bound id n old (rw w.unack_kept at k)
              | inr zero_now ↦ omega (arith, zero_now)
            ]);
    }

-- `Enqueue` of a fresh evaluation; one whose counter is still there changes nothing.
pub enqueues-Inv :
    (e : ScalingEvaluation) (s : System)
    → Inv s
    → held e.id s ≡ 0
    → Inv (record s { broker = enqueue e s.broker })
unfolding enqueue
enqueues-Inv e s v fresh = elim (Option-cases (lookup e.id s.broker.enqueued_evals)) [
  | inl new ↦ enqueued-Inv e "" s v fresh (λ n h. cc)
  | inr (n, known) ↦ rw (enqueue_locked-known e n s.broker known) v
]

-- A step that leaves the counters and the unacknowledged evaluations alone, and adds none.
pub Inv-frame :
    (s t : System)
    → Inv s
    → IsValid t.broker
    → t.broker.unack ≡ s.broker.unack
    → t.broker.enqueued_evals ≡ s.broker.enqueued_evals
    → t.broker.delivery_limit ≡ s.broker.delivery_limit
    → ((id : String)
        → count_pending id t.broker.pending_evals + count id t.in_flight
          ≤ count_pending id s.broker.pending_evals + count id s.in_flight)
    → Inv t
Inv-frame s t v valid unack counters limit fewer = record {
  valid = valid;
  keyed = subst IsKeyed (sym unack) v.keyed;
  once = λ id. omega (arith, v.once id, fewer id, ap (count_unack id) unack);
  waiting_bound = λ id n l k.
      subst (λ m. n < delivery_bound m) (sym limit)
        (v.waiting_bound id n (rw counters at l) (omega (arith, fewer id)));
  unack_bound = λ id n l k.
      subst (λ m. n ≤ delivery_bound m) (sym limit)
        (v.unack_bound id n (rw counters at l) (rw unack at k));
}

pub takes-Inv :
    (queue : String) (e : ScalingEvaluation) (b : Broker) (s : System)
    → Inv s
    → find_work queue s.broker ≡ (some e, b)
    → Inv (record { broker = b; in_flight = e ∷ s.in_flight })
takes-Inv queue e b s v h =
    let f = find_work-Found queue e s.broker b v.valid h in
    Inv-frame s (record { broker = b; in_flight = e ∷ s.in_flight }) v f.valid
      (ap (λ d. d.unack) f.rest_kept) (ap (λ d. d.enqueued_evals) f.rest_kept)
      (ap (λ d. d.delivery_limit) f.rest_kept) (λ id. omega (arith, f.moved id))

pub opens-Inv :
    (queue : String) (s : System) → Inv s → Inv (record s { broker = open_waiting queue s.broker })
opens-Inv queue s v =
    let kept = open_waiting-kept queue s.broker in
    Inv-frame s (record s { broker = open_waiting queue s.broker }) v
      (open_waiting-IsValid queue s.broker v.valid) (ap (λ d. d.unack) kept)
      (ap (λ d. d.enqueued_evals) kept) (ap (λ d. d.delivery_limit) kept)
      (λ id. omega (arith, ap (λ d. count_pending id d.pending_evals) kept))

pub waits-Inv :
    (queue : String) (b : Broker) (s : System)
    → Inv s
    → wait_for_work queue s.broker ≡ some b
    → Inv (record s { broker = b })
waits-Inv queue b s v h =
    subst (λ c. Inv (record s { broker = c })) (sym (wait_for_work-eq-woken queue s.broker b h))
      (Inv-frame s (record s { broker = woken queue s.broker }) v
        (woken-IsValid queue s.broker v.valid) refl refl refl (λ id. omega arith))
