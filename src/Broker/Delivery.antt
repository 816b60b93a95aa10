-- ===== src/Broker/Delivery.antt =====
-- The last section of `Dequeue` under the invariant.
use nomad_autoscaler.Prelude.{
  ℕ, suc, ◌+◌, ◌≤◌, ◌<◌, String, ◌≡◌, refl, sym, ◌∙◌, inl, inr, List, ◌∷◌, ◌++◌, none, some, lookup,
  lookup-insert, ap, str_eq, eq_refl, arith, Bool-cases, Option-cases, total-append,
}
use nomad_autoscaler.Sdk.Eval.{ScalingEvaluation}
use nomad_autoscaler.Broker.{deliver, dequeues_of}
use nomad_autoscaler.Broker.Counts.{
  has_id, count, count_pending, count_unack, insert-IsKeyed, lookup-IsKeyed, count_unack-insert,
}
use nomad_autoscaler.Broker.Validity.{IsValid-frame}
use nomad_autoscaler.Broker.System.{System}
use nomad_autoscaler.Broker.Invariant.{Inv, delivery_bound, delivery_bound-pos}

has_id_self : (e : ScalingEvaluation) → has_id e.id e ≡ 1
has_id_self e = ground (arith, eq_refl e.id)

module _ (e : ScalingEvaluation) (token : String) (before after : List ScalingEvaluation)
    (s : System) (v : Inv s) (flying : s.in_flight ≡ before ++ e ∷ after) where
  flying-count : (id : String) → count id s.in_flight ≡ count id (before ++ after) + has_id id e
  flying-count id = omega (
    arith,
    ap (count id) flying,
    total-append (has_id id) before (e ∷ after),
    total-append (has_id id) before after,
  )

  not_unack : lookup e.id s.broker.unack ≡ none
  not_unack = elim (Option-cases (lookup e.id s.broker.unack)) [
    | inl absent ↦ absent
    | inr (u, present) ↦ absurd (
        omega (
          arith,
          v.once e.id,
          flying-count e.id,
          has_id_self e,
          (lookup-IsKeyed e.id u s.broker.unack v.keyed present).1,
        ))
  ]

  delivered-count :
      (id : String)
      → count_unack id (deliver e token s.broker).unack
        ≡ count_unack id s.broker.unack + has_id id e
  unfolding deliver
  delivered-count id = count_unack-insert id e.id _ s.broker.unack v.keyed refl not_unack

  delivered_waiting :
      (id : String) (n : ℕ)
      → lookup id (deliver e token s.broker).enqueued_evals ≡ some n
      → 0 < count_pending id s.broker.pending_evals + count id (before ++ after)
      → n < delivery_bound s.broker.delivery_limit
  unfolding deliver
  delivered_waiting id n l k = elim (Bool-cases (str_eq e.id id)) [
    | inl same ↦
        let one : has_id id e ≡ 1 = rw same refl in
        absurd (omega (arith, v.once id, flying-count id, one))
    | inr other ↦
        v.waiting_bound id n
          (sym (lookup-insert e.id id _ s.broker.enqueued_evals ∙ rw other refl) ∙ l)
          (omega (arith, flying-count id))
  ]

  -- The counter of the evaluation before it is handed out.
  dequeues-lt : dequeues_of e.id s.broker.enqueued_evals < delivery_bound s.broker.delivery_limit
  dequeues-lt = elim (Option-cases (lookup e.id s.broker.enqueued_evals)) [
    | inl new ↦ rw (new, dequeues_of) (delivery_bound-pos s.broker.delivery_limit)
    | inr (m, old) ↦
        rw (old, dequeues_of)
          (v.waiting_bound e.id m old (omega (arith, flying-count e.id, has_id_self e)))
  ]

  delivered_unack :
      (id : String) (n : ℕ)
      → lookup id (deliver e token s.broker).enqueued_evals ≡ some n
      → 0 < count_unack id (deliver e token s.broker).unack
      → n ≤ delivery_bound s.broker.delivery_limit
  unfolding deliver
  delivered_unack id n l k = elim (Bool-cases (str_eq e.id id)) [
    | inl same ↦
        let now : some (suc (dequeues_of e.id s.broker.enqueued_evals)) ≡ some n =
          sym (lookup-insert e.id id _ s.broker.enqueued_evals ∙ rw same refl) ∙ l in
        ground (arith, dequeues-lt, now)
    | inr other ↦
        let none_added : has_id id e ≡ 0 = rw other refl in
        v.unack_bound id n
          (sym (lookup-insert e.id id _ s.broker.enqueued_evals ∙ rw other refl) ∙ l)
          (omega (arith, k, delivered-count id, none_added))
  ]

  pub delivers-Inv : Inv (record { broker = deliver e token s.broker; in_flight = before ++ after })
  unfolding deliver
  delivers-Inv = record {
    valid = IsValid-frame s.broker (deliver e token s.broker) v.valid refl (λ j h. h);
    keyed = insert-IsKeyed e.id _ s.broker.unack refl v.keyed;
    once = λ id. omega (arith, v.once id, flying-count id, delivered-count id);
    waiting_bound = λ id n l k. delivered_waiting id n l k;
    unack_bound = λ id n l k. delivered_unack id n l k;
  }
