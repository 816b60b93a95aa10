-- ===== src/Broker/Enqueue.antt =====
-- `enqueueLocked`: its ways, and what they keep.
use nomad_autoscaler.Prelude.{
  ℕ, ◌+◌, ◌≤◌, String, ◌≡◌, refl, true, false, ◌⊎◌, inl, inr, Option, none, some, Map, lookup,
  insert, lookup-insert, lookup-delete, is_some, set, str_eq, arith, Bool-cases, Option-cases,
  total-perm, total-set, ltb, length-set, ◌&&◌,
}
use nomad_autoscaler.Sdk.Eval.{ScalingEvaluation}
use nomad_autoscaler.Heap
use nomad_autoscaler.Heap.Queue.{push-perm, fix-perm}
use nomad_autoscaler.Broker.{
  Broker, pending_of, init_waiting, push_pending, replace_pending, update_pending, count_new,
  enqueue_policy, enqueue_locked,
}
use nomad_autoscaler.Broker.Pending.{no_eval, less, get_evaluation, get_evaluation-entry}
use nomad_autoscaler.Broker.Counts.{has_id, count_pending, count_pending-insert}
use nomad_autoscaler.Broker.Validity.{
  IsValid, push_pending-IsValid, replace_pending-IsValid, init_waiting-IsValid, IsValid-frame,
}

module _ {ℓ} (P : Broker → Type ℓ) (e : ScalingEvaluation) (b : Broker) where
  update_pending_cases :
      (id : String) (found : Option (ℕ × ScalingEvaluation))
      → get_evaluation id (pending_of e.policy.type b.pending_evals) ≡ found
      → P (push_pending e b)
      → ((i : ℕ) (old : ScalingEvaluation)
          → get_evaluation id (pending_of e.policy.type b.pending_evals) ≡ some (i, old)
          → P (replace_pending e i b))
      → ((i : ℕ) (old : ScalingEvaluation)
          → get_evaluation id (pending_of e.policy.type b.pending_evals) ≡ some (i, old)
          → ltb old.create_time e.create_time ≡ false
          → P b)
      → P (update_pending e found b)
  unfolding update_pending
  update_pending_cases id none h pushed replaced kept = pushed
  update_pending_cases id (some (i, old)) h pushed replaced kept =
      elim (Bool-cases (ltb old.create_time e.create_time)) [
        | inl newer ↦ rw newer (replaced i old h)
        | inr older ↦ rw older (kept i old h older)
      ]

  -- A property of what `enqueueLocked` leaves, by its ways from the look at `enqueuedPolicies` on.
  pub enqueue_policy_cases :
      ((m : Map String) → P (push_pending e (record b { enqueued_policies = m })))
      → ((id : String) (i : ℕ) (old : ScalingEvaluation)
          → get_evaluation id (pending_of e.policy.type b.pending_evals) ≡ some (i, old)
          → P (replace_pending e i b))
      → ((id : String) (i : ℕ) (old : ScalingEvaluation)
          → lookup e.policy.id b.enqueued_policies ≡ some id
          → get_evaluation id (pending_of e.policy.type b.pending_evals) ≡ some (i, old)
          → ltb old.create_time e.create_time ≡ false
          → P b)
      → P (enqueue_policy e b)
  unfolding enqueue_policy
  enqueue_policy_cases pushed replaced kept =
      elim (Option-cases (lookup e.policy.id b.enqueued_policies)) [
        | inl new ↦ rw (new, enqueue_policy) (pushed (insert e.policy.id e.id b.enqueued_policies))
        | inr (id, known) ↦
            rw (known, enqueue_policy)
              (elim (Bool-cases (str_eq id e.id)) [
                | inl same ↦ rw same (pushed b.enqueued_policies)
                | inr other ↦ rw other (
                    update_pending_cases id
                      (get_evaluation id (pending_of e.policy.type b.pending_evals)) refl
                      (pushed b.enqueued_policies) (replaced id) (λ i old. kept id i old known))
              ])
      ]

-- The call does nothing for a known evaluation without a token, and else goes through
-- `enqueue_policy`.
pub enqueue_locked_cases {ℓ} :
    (P : Broker → Type ℓ) (e : ScalingEvaluation) (token : String) (b : Broker)
    → P b
    → P (enqueue_policy e (init_waiting e.policy.type (count_new e b)))
    → P (enqueue_locked e token b)
unfolding enqueue_locked
enqueue_locked_cases P e token b known entered =
    elim (Bool-cases (is_some (lookup e.id b.enqueued_evals) && str_eq token "")) [
      | inl yes_known ↦ rw yes_known known
      | inr not_known ↦ rw not_known entered
    ]

count_new-IsValid : (e : ScalingEvaluation) (b : Broker) → IsValid b → IsValid (count_new e b)
unfolding count_new
count_new-IsValid e b v = elim (Bool-cases (is_some (lookup e.id b.enqueued_evals))) [
  | inl known ↦ rw known v
  | inr new ↦ rw new (
      IsValid-frame b (record b { enqueued_evals = insert e.id 0 b.enqueued_evals }) v refl
        (λ j h. h))
]

enqueue_policy-IsValid :
    (e : ScalingEvaluation) (b : Broker)
    → IsValid b × (is_some (lookup e.policy.type b.waiting) ≡ true)
    → IsValid (enqueue_policy e b)
enqueue_policy-IsValid e b (v, h) =
    enqueue_policy_cases IsValid e b
      (λ m.
        push_pending-IsValid e (record b { enqueued_policies = m })
          (IsValid-frame b (record b { enqueued_policies = m }) v refl (λ j k. k)) h)
      (λ id i old found. replace_pending-IsValid e old id i b v h found) (λ id i old k f o. v)

pub enqueue_locked-IsValid :
    (e : ScalingEvaluation) (token : String) (b : Broker)
    → IsValid b
    → IsValid (enqueue_locked e token b)
enqueue_locked-IsValid e token b v = enqueue_locked_cases IsValid e token b v (
    enqueue_policy-IsValid e _
      (init_waiting-IsValid e.policy.type (count_new e b) (count_new-IsValid e b v)))

-- What `enqueueLocked` may change: it adds at most one evaluation with the ID of `e`, starts at
-- most the counter of `e`, at 0, and leaves the unacknowledged evaluations and the limit alone.
pub record Enqueued (e : ScalingEvaluation) (b c : Broker) : Type 0 where
  pub adds :
      (id : String)
      → count_pending id c.pending_evals ≤ count_pending id b.pending_evals + has_id id e
  pub counters :
      (id : String) (n : ℕ)
      → lookup id c.enqueued_evals ≡ some n
      → (lookup id b.enqueued_evals ≡ some n) ⊎ (n ≡ 0)
  pub unack_kept : c.unack ≡ b.unack
  pub limit_kept : c.delivery_limit ≡ b.delivery_limit

push_pending-Enqueued :
    (e : ScalingEvaluation) (b : Broker) (m : Map String)
    → Enqueued e b (push_pending e (record b { enqueued_policies = m }))
unfolding push_pending
push_pending-Enqueued e b m =
    let queue = e.policy.type in
    let p = pending_of queue b.pending_evals in
    record {
      adds = λ id. omega (
        arith,
        count_pending-insert id queue (Heap.push no_eval less p e) b.pending_evals,
        total-perm (has_id id) (push-perm no_eval less p e),
      );
      counters = λ id n h. inl h;
      unack_kept = refl;
      limit_kept = refl;
    }

replace_pending-Enqueued :
    (e old : ScalingEvaluation) (b : Broker) (id : String) (i : ℕ)
    → get_evaluation id (pending_of e.policy.type b.pending_evals) ≡ some (i, old)
    → Enqueued e b (replace_pending e i b)
unfolding replace_pending
replace_pending-Enqueued e old b id i found =
    let queue = e.policy.type in
    let p = pending_of queue b.pending_evals in
    let inside = (get_evaluation-entry id p i old found).0 in
    record {
      adds = λ j. omega (
        arith,
        count_pending-insert j queue (Heap.fix no_eval less (set p i e) i) b.pending_evals,
        total-perm (has_id j)
            (fix-perm no_eval less (set p i e) i (omega (arith, length-set p i e, inside))),
        total-set (has_id j) p i e no_eval inside,
      );
      counters = λ j n h. ground (arith, lookup-delete e.id j b.enqueued_evals);
      unack_kept = refl;
      limit_kept = refl;
    }

count_new-Enqueued :
    (e : ScalingEvaluation) (b c : Broker)
    → Enqueued e (init_waiting e.policy.type (count_new e b)) c
    → Enqueued e b c
unfolding init_waiting count_new
count_new-Enqueued e b c v = record {
  adds = λ id. ground (arith, v.adds id);
  counters = λ id n h.
      ground
        (arith, v.counters id n h, lookup-insert e.id id (let z : ℕ = 0 in z) b.enqueued_evals);
  unack_kept = ground (arith, v.unack_kept);
  limit_kept = ground (arith, v.limit_kept);
}

pub enqueue_locked-Enqueued :
    (e : ScalingEvaluation) (token : String) (b : Broker) → Enqueued e b (enqueue_locked e token b)
enqueue_locked-Enqueued e token b = enqueue_locked_cases (Enqueued e b) e token b (same b) (
    count_new-Enqueued e b _ (
      enqueue_policy_cases (Enqueued e b') e b' (push_pending-Enqueued e b')
        (λ id i old found. replace_pending-Enqueued e old b' id i found)
        (λ id i old k f o. same b')))
  where
    b' : Broker
    b' = init_waiting e.policy.type (count_new e b)

    same : (c : Broker) → Enqueued e c c
    same c = record {
      adds = λ id. omega arith;
      counters = λ id n h. inl h;
      unack_kept = refl;
      limit_kept = refl;
    }

-- Without a token, as in `Enqueue`, a known evaluation changes nothing.
pub enqueue_locked-known :
    (e : ScalingEvaluation) (n : ℕ) (b : Broker)
    → lookup e.id b.enqueued_evals ≡ some n
    → enqueue_locked e "" b ≡ b
unfolding enqueue_locked
enqueue_locked-known e n b h = rw h
