-- ===== src/Broker/Removal.antt =====
-- `Ack`, `Nack` and the expiry of a timer, under the invariant.
use nomad_autoscaler.Prelude.{
  ℕ, ◌<◌, String, ◌≡◌, refl, ◌∙◌, false, inl, inr, some, Map, lookup, insert, delete, lookup-delete,
  str_eq, eq_refl, arith, Bool-cases, Option-cases,
}
use nomad_autoscaler.Broker.{
  Broker, UnackEval, NackTimer, running, forget, withdraw, ack_by_timer, expired, ack, ack_found,
  nack, nack_found, expire, exhausted, dequeues_of,
}
use nomad_autoscaler.Broker.Counts.{
  count_unack, delete-IsKeyed, insert-IsKeyed, lookup-IsKeyed, count_unack-delete,
  count_unack-overwrite,
}
use nomad_autoscaler.Broker.Validity.{IsValid-frame}
use nomad_autoscaler.Broker.System.{System, held}
use nomad_autoscaler.Broker.Invariant.{Inv, delivery_bound, enqueued-Inv}

-- An unacknowledged evaluation is taken out, and counters may go with it.
removes-Inv :
    (id : String) (s : System) (counters : Map ℕ) (policies : Map String)
    → Inv s
    → ((j : String) (n : ℕ)
        → lookup j counters ≡ some n
        → lookup j s.broker.enqueued_evals ≡ some n)
    → Inv (record s {
      broker = record (s.broker) {
        unack = delete id s.broker.unack;
        enqueued_evals = counters;
        enqueued_policies = policies;
      };
    })
removes-Inv id s counters policies v old = record {
  valid = IsValid-frame s.broker _ v.valid refl (λ j h. h);
  keyed = delete-IsKeyed id s.broker.unack v.keyed;
  once = λ j. ground (arith, v.once j, count_unack-delete j id s.broker.unack v.keyed);
  waiting_bound = λ j n l k. v.waiting_bound j n (old j n l) k;
  unack_bound = λ j n l k.
      v.unack_bound j n (old j n l)
        (ground (arith, count_unack-delete j id s.broker.unack v.keyed));
}

cleared-counters :
    (id : String) (m : Map ℕ) (j : String) (n : ℕ)
    → lookup j (delete id m) ≡ some n
    → lookup j m ≡ some n
cleared-counters id m j n h = ground (arith, lookup-delete id j m)

forget-Inv :
    (id : String) (u : UnackEval) (s : System)
    → Inv s
    → Inv (record s { broker = forget id u s.broker })
unfolding forget
forget-Inv id u s v =
    removes-Inv id s (delete id s.broker.enqueued_evals)
      (delete u.eval.policy.id s.broker.enqueued_policies) v
      (cleared-counters id s.broker.enqueued_evals)

ack_by_timer-Inv :
    (t : NackTimer) (id : String) (u : UnackEval) (s : System)
    → Inv s
    → Inv (record s { broker = (ack_by_timer t id u s.broker).1 })
unfolding ack_by_timer
ack_by_timer-Inv expired id u s v = v
ack_by_timer-Inv running id u s v = forget-Inv id u s v

ack_found-Inv :
    (id token : String) (u : UnackEval) (s : System)
    → Inv s
    → Inv (record s { broker = (ack_found id token u s.broker).1 })
unfolding ack_found
ack_found-Inv id token u s v = elim (Bool-cases (str_eq u.token token)) [
  | inr other ↦ rw other v
  | inl same ↦ rw same (ack_by_timer-Inv u.nack_timer id u s v)
]

pub acks-Inv :
    (id token : String) (s : System) → Inv s → Inv (record s { broker = (ack id token s.broker).1 })
unfolding ack
acks-Inv id token s v = elim (Option-cases (lookup id s.broker.unack)) [
  | inl absent ↦ rw (absent, ack) v
  | inr (u, present) ↦ rw (present, ack) (ack_found-Inv id token u s v)
]

withdraw-Inv : (id : String) (s : System) → Inv s → Inv (record s { broker = withdraw id s.broker })
unfolding withdraw
withdraw-Inv id s v =
    removes-Inv id s s.broker.enqueued_evals s.broker.enqueued_policies v (λ j n h. h)

withdrawn-held :
    (id : String) (u : UnackEval) (s : System)
    → Inv s
    → lookup id s.broker.unack ≡ some u
    → held u.eval.id (record s { broker = withdraw id s.broker }) ≡ 0
unfolding withdraw
withdrawn-held id u s v present =
    let (keyed, counted) = lookup-IsKeyed id u s.broker.unack v.keyed present in
    let gone : count_unack id (delete id s.broker.unack) ≡ 0 =
      count_unack-delete id id s.broker.unack v.keyed ∙ rw (eq_refl id) refl in
    rw keyed (omega (arith, v.once id, counted, gone))

low_counter :
    (id : String) (b : Broker) (n : ℕ)
    → exhausted id b ≡ false
    → lookup id b.enqueued_evals ≡ some n
    → n < delivery_bound b.delivery_limit
low_counter id b n h e =
    let d : dequeues_of id b.enqueued_evals ≡ n = rw (e, dequeues_of) refl in ground (arith, d)

nack_found-Inv :
    (id token : String) (u : UnackEval) (s : System)
    → Inv s
    → lookup id s.broker.unack ≡ some u
    → Inv (record s { broker = (nack_found id token u s.broker).1 })
unfolding nack_found withdraw
nack_found-Inv id token u s v present = elim (Bool-cases (str_eq u.token token)) [
  | inr other ↦ rw other v
  | inl same ↦ rw same (elim (Bool-cases (exhausted id s.broker)) [
    | inl done ↦ rw done (forget-Inv id u s v)
    | inr more ↦ rw more (
        enqueued-Inv u.eval token (record s { broker = withdraw id s.broker }) (withdraw-Inv id s v)
          (withdrawn-held id u s v present)
          (λ n h.
            low_counter id s.broker n more
              (rw (lookup-IsKeyed id u s.broker.unack v.keyed present).0 at h)))
  ])
]

pub nacks-Inv :
    (id token : String) (s : System)
    → Inv s
    → Inv (record s { broker = (nack id token s.broker).1 })
unfolding nack
nacks-Inv id token s v = elim (Option-cases (lookup id s.broker.unack)) [
  | inl absent ↦ rw (absent, nack) v
  | inr (u, present) ↦ rw (present, nack) (nack_found-Inv id token u s v present)
]

expired-Inv :
    (id : String) (u : UnackEval) (s : System)
    → Inv s
    → lookup id s.broker.unack ≡ some u
    → Inv (record s {
      broker = record (s.broker) {
        unack = insert id (record u { nack_timer = expired }) s.broker.unack;
      };
    })
expired-Inv id u s v present =
    let keyed = (lookup-IsKeyed id u s.broker.unack v.keyed present).0 in
    let same = λ (j : String).
      count_unack-overwrite j id u (record u { nack_timer = expired }) s.broker.unack v.keyed keyed
        present in
    record {
      valid = IsValid-frame s.broker _ v.valid refl (λ j h. h);
      keyed = insert-IsKeyed id _ s.broker.unack keyed v.keyed;
      once = λ j. omega (arith, v.once j, same j);
      waiting_bound = v.waiting_bound;
      unack_bound = λ j n l k. v.unack_bound j n l (omega (arith, same j));
    }

pub expires-Inv :
    (id : String) (s : System) → Inv s → Inv (record s { broker = expire id s.broker })
unfolding expire
expires-Inv id s v = elim (Option-cases (lookup id s.broker.unack)) [
  | inl absent ↦ rw (absent, expire) v
  | inr (u, present) ↦ rw (present, expire) (expired-Inv id u s v present)
]
