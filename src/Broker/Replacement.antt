-- ===== src/Broker/Replacement.antt =====
-- `Enqueue` for a policy that the broker knows already.
use nomad_autoscaler.Prelude.{
  ℕ, ◌+◌, String, ◌≡◌, refl, ◌∙◌, Bool, true, false, none, some, Map, lookup, insert, delete,
  lookup-insert, lookup-delete, lookup-insert_self, set, str_eq, eq_iff, arith, total-perm,
  total-set, ltb, length-set, ap,
}
use nomad_autoscaler.Sdk.Eval.{ScalingEvaluation}
use nomad_autoscaler.Heap
use nomad_autoscaler.Heap.Queue.{fix-perm, push-perm}
use nomad_autoscaler.Broker.{
  Broker, pending_of, init_waiting, push_pending, replace_pending, count_new, update_pending,
  enqueue_policy, enqueue_locked, enqueue,
}
use nomad_autoscaler.Broker.Pending.{no_eval, less, get_evaluation, get_evaluation-entry}
use nomad_autoscaler.Broker.Counts.{has_id, count_pending, count_pending-insert}

-- A new evaluation of a policy which the broker knows by another evaluation.
pub record IsRival (e : ScalingEvaluation) (id : String) (b : Broker) : Type 0 where
  pub uncounted : lookup e.id b.enqueued_evals ≡ none
  pub known : lookup e.policy.id b.enqueued_policies ≡ some id
  pub other : str_eq id e.id ≡ false

init_waiting-kept :
    (queue : String) (b : Broker)
    → init_waiting queue b ≡ record b { waiting = (init_waiting queue b).waiting }
unfolding init_waiting
init_waiting-kept queue b = ground arith

enqueue_policy-rival :
    (e : ScalingEvaluation) (id : String) (b : Broker)
    → lookup e.policy.id b.enqueued_policies ≡ some id
    → str_eq id e.id ≡ false
    → enqueue_policy e b
      ≡ update_pending e (get_evaluation id (pending_of e.policy.type b.pending_evals)) b
unfolding enqueue_policy
enqueue_policy-rival e id b known other = rw (known, enqueue_policy, other) refl

-- Such a call comes to the search for the known evaluation.
enqueue-rival :
    (e : ScalingEvaluation) (id : String) (b : Broker)
    → IsRival e id b
    → (m : Map Bool) × (enqueue e b
        ≡ update_pending e
            (get_evaluation id (pending_of e.policy.type b.pending_evals))
            (record b { enqueued_evals = insert e.id 0 b.enqueued_evals; waiting = m }))
unfolding enqueue enqueue_locked count_new
enqueue-rival e id b v =
    let c = record b { enqueued_evals = insert e.id 0 b.enqueued_evals } in
    let m = (init_waiting e.policy.type c).waiting in
    let goes_on : enqueue e b ≡ enqueue_policy e (init_waiting e.policy.type c) =
      rw v.uncounted refl in
    (
      m,
      goes_on
          ∙ ap (enqueue_policy e) (init_waiting-kept e.policy.type c)
          ∙ enqueue_policy-rival e id (record c { waiting = m }) v.known v.other,
    )

counters_back :
    (e : ScalingEvaluation) (m : Map ℕ) (j : String)
    → lookup e.id m ≡ none
    → lookup j (delete e.id (insert e.id 0 m)) ≡ lookup j m
counters_back e m j h = ground (
  arith,
  eq_iff e.id j,
  lookup-delete e.id j (insert e.id (let z : ℕ = 0 in z) m),
  lookup-insert e.id j (let z : ℕ = 0 in z) m,
)

-- Where the evaluation that the broker knows for the policy is pending and older, `Enqueue` of a new
-- evaluation puts the new one in its place and records it for the policy, but every counter of
-- `enqueuedEvals` is as before: the replaced evaluation keeps its entry, and the new one has none.
pub enqueue-newer :
    (e old : ScalingEvaluation) (id : String) (i : ℕ) (b : Broker)
    → IsRival e id b
    → get_evaluation id (pending_of e.policy.type b.pending_evals) ≡ some (i, old)
    → ltb old.create_time e.create_time ≡ true
    → ((j : String)
        → count_pending j (enqueue e b).pending_evals + has_id j old
          ≡ count_pending j b.pending_evals + has_id j e)
      × (lookup e.policy.id (enqueue e b).enqueued_policies ≡ some e.id)
      × ((j : String) → lookup j (enqueue e b).enqueued_evals ≡ lookup j b.enqueued_evals)
unfolding update_pending replace_pending
enqueue-newer e old id i b v found newer =
    let queue = e.policy.type in
    let p = pending_of queue b.pending_evals in
    let (at, old_at, _) = get_evaluation-entry id p i old found in
    rw ((enqueue-rival e id b v).1, found, newer)
      (
        λ j. omega (
          arith,
          count_pending-insert j queue (Heap.fix no_eval less (set p i e) i) b.pending_evals,
          total-perm (has_id j)
              (fix-perm no_eval less (set p i e) i (omega (arith, length-set p i e, at))),
          total-set (has_id j) p i e no_eval at,
          ap (has_id j) old_at,
        ),
        lookup-insert_self e.policy.id e.id b.enqueued_policies,
        λ j. counters_back e b.enqueued_evals j v.uncounted,
      )

-- Where the evaluation that the broker knows for the policy is not pending, because it is handed
-- out, `Enqueue` of a new evaluation makes the new one pending too, and the broker goes on knowing
-- the policy by the first.
pub enqueue-handed_out :
    (e : ScalingEvaluation) (id : String) (b : Broker)
    → IsRival e id b
    → get_evaluation id (pending_of e.policy.type b.pending_evals) ≡ none
    → ((j : String)
        → count_pending j (enqueue e b).pending_evals
          ≡ count_pending j b.pending_evals + has_id j e)
      × (lookup e.policy.id (enqueue e b).enqueued_policies ≡ some id)
      × (lookup e.id (enqueue e b).enqueued_evals ≡ some 0)
unfolding update_pending push_pending
enqueue-handed_out e id b v missing =
    let queue = e.policy.type in
    let p = pending_of queue b.pending_evals in
    rw ((enqueue-rival e id b v).1, missing)
      (
        λ j. omega (
          arith,
          count_pending-insert j queue (Heap.push no_eval less p e) b.pending_evals,
          total-perm (has_id j) (push-perm no_eval less p e),
        ),
        v.known,
        lookup-insert_self e.id 0 b.enqueued_evals,
      )
