-- ===== src/Broker/Deliveries.antt =====
-- How often an evaluation is handed out, beside the counter that the broker keeps of it.
use nomad_autoscaler.Prelude.{
  ℕ, suc, ◌+◌, ◌≡◌, refl, sym, ◌∙◌, ap, ℤ, String, ◌⊎◌, inl, inr, true, Option, none, is_some,
  lookup, lookup-insert, str_eq, arith, Map, Bool-cases, Option-cases, eq_iff,
}
use nomad_autoscaler.Sdk.Eval.{ScalingEvaluation}
use nomad_autoscaler.Broker.{
  Broker, dequeues_of, enqueue, open_waiting, deliver, expire, new_broker,
}
use nomad_autoscaler.Broker.Counts.{has_id}
use nomad_autoscaler.Broker.Dequeue.{open_waiting-kept, wait_for_work-eq-woken}
use nomad_autoscaler.Broker.System.{
  System, Step, Reach, start, here, next, enqueues, takes, opens, waits, delivers, acks, nacks,
  expires,
}
use nomad_autoscaler.Broker.Counter.{
  count_of, dequeues_of-count_of, CounterStep, weaker, enqueue_locked-CounterStep, ack-KeepsOrDrops,
  nack-CounterStep, find_work-counters,
}

-- A step hands out the evaluations with the ID that it delivers.
unfoldable pub hands_out : {s t : System} → String → Step s t → ℕ
hands_out id (delivers e token before after h) = has_id id e
hands_out id (enqueues e fresh) = 0
hands_out id (takes queue e b h) = 0
hands_out id (opens queue) = 0
hands_out id (waits queue b h) = 0
hands_out id (acks i token) = 0
hands_out id (nacks i token) = 0
hands_out id (expires i) = 0

unfoldable pub hand_outs : {s t : System} → String → Reach s t → ℕ
unfolding hands_out
hand_outs id here = 0
hand_outs id (next r st) = hand_outs id r + hands_out id st

-- No step drops the counter of the evaluation.
unfoldable pub IsCounted : {s t : System} → String → Reach s t → Type 0
IsCounted id here = Unit
IsCounted id (next {t} {u} r st) =
    IsCounted id r
    × ((is_some (lookup id u.broker.enqueued_evals) ≡ true)
        ⊎ (lookup id t.broker.enqueued_evals ≡ none))

-- A counter that is not dropped stays, or starts at 0.
counted_step :
    (x y : Option ℕ) → CounterStep x y → (is_some y ≡ true) ⊎ (x ≡ none) → count_of y ≡ count_of x
counted_step x y (inl e) h = ap count_of e
counted_step x y (inr (inl gone)) (inl there) = absurd (cc (gone, there))
counted_step x y (inr (inl gone)) (inr new) = ap count_of gone ∙ sym (ap count_of new)
counted_step x y (inr (inr (new, started))) h = ap count_of started ∙ sym (ap count_of new)

deliver-counter :
    (id : String) (e : ScalingEvaluation) (token : String) (b : Broker)
    → count_of (lookup id (deliver e token b).enqueued_evals)
      ≡ count_of (lookup id b.enqueued_evals) + has_id id e
unfolding deliver
deliver-counter id e token b = elim (Bool-cases (str_eq e.id id)) [
  | inr other ↦
      rw (lookup-insert e.id id (suc (dequeues_of e.id b.enqueued_evals)) b.enqueued_evals, other)
        (omega arith)
  | inl same ↦
      let is_id : e.id ≡ id = (eq_iff e.id id).0 same in
      let n : dequeues_of e.id b.enqueued_evals ≡ count_of (lookup id b.enqueued_evals) =
        ap (λ k. dequeues_of k b.enqueued_evals) is_id ∙ dequeues_of-count_of id b.enqueued_evals in
      rw (lookup-insert e.id id (suc (dequeues_of e.id b.enqueued_evals)) b.enqueued_evals, same)
        (omega (arith, n))
]

expire-counters : (i : String) (b : Broker) → (expire i b).enqueued_evals ≡ b.enqueued_evals
unfolding expire
expire-counters i b = elim (Option-cases (lookup i b.unack)) [
  | inl absent ↦ rw (absent, expire) refl
  | inr (u, present) ↦ rw (present, expire) refl
]

open_waiting-counters :
    (queue : String) (b : Broker) → (open_waiting queue b).enqueued_evals ≡ b.enqueued_evals
open_waiting-counters queue b = ap (λ x. x.enqueued_evals) (open_waiting-kept queue b)

kept_counter :
    (id : String) (m n : Map ℕ) → n ≡ m → count_of (lookup id n) ≡ count_of (lookup id m) + 0
kept_counter id m n e = ap (λ k. count_of (lookup id k)) e ∙ omega arith

Step-counter :
    {t u : System} (id : String) (st : Step t u)
    → (is_some (lookup id u.broker.enqueued_evals) ≡ true)
      ⊎ (lookup id t.broker.enqueued_evals ≡ none)
    → count_of (lookup id u.broker.enqueued_evals)
      ≡ count_of (lookup id t.broker.enqueued_evals) + hands_out id st
unfolding hands_out enqueue
Step-counter {t} id (enqueues e fresh) h =
    counted_step _ _ (enqueue_locked-CounterStep id e "" t.broker) h ∙ omega arith
Step-counter {t} id (takes queue e b found) h =
    kept_counter id t.broker.enqueued_evals b.enqueued_evals
      (sym (ap (λ x. x.1.enqueued_evals) found) ∙ find_work-counters queue t.broker)
Step-counter {t} id (opens queue) h =
    kept_counter id t.broker.enqueued_evals _ (open_waiting-counters queue t.broker)
Step-counter {t} id (waits queue b on) h =
    kept_counter id t.broker.enqueued_evals b.enqueued_evals
      (ap (λ x. x.enqueued_evals) (wait_for_work-eq-woken queue t.broker b on))
Step-counter {t} id (delivers e token before after at) h = deliver-counter id e token t.broker
Step-counter {t} id (acks i token) h =
    counted_step _ _ (weaker _ _ (ack-KeepsOrDrops id i token t.broker)) h ∙ omega arith
Step-counter {t} id (nacks i token) h =
    counted_step _ _ (nack-CounterStep id i token t.broker) h ∙ omega arith
Step-counter {t} id (expires i) h =
    kept_counter id t.broker.enqueued_evals _ (expire-counters i t.broker)

-- As long as the counter is not dropped, it tells how often the evaluation was handed out.
pub hand_outs-counter :
    (timeout limit : ℤ) {s : System} (id : String) (r : Reach (start timeout limit) s)
    → IsCounted id r
    → hand_outs id r ≡ dequeues_of id s.broker.enqueued_evals
unfolding hand_outs IsCounted new_broker lookup
hand_outs-counter timeout limit id here kept = refl
hand_outs-counter timeout limit id (next {t} {u} r st) (kept, h) =
    ap (λ n. n + hands_out id st)
      (hand_outs-counter timeout limit id r kept ∙ dequeues_of-count_of id t.broker.enqueued_evals)
    ∙ (sym (Step-counter id st h) ∙ sym (dequeues_of-count_of id u.broker.enqueued_evals))
