-- ===== src/Broker/Retry.antt =====
-- What a call of `enqueueLocked` with a token leaves pending.
use nomad_autoscaler.Prelude.{
  ℕ, ◌<◌, String, ◌≡◌, refl, false, ◌⊎◌, inl, inr, some, lookup, eq_refl, total-get_or, set, str_eq,
  arith, total-perm, total-set, ltb, length-set,
}
use nomad_autoscaler.Sdk.Eval.{ScalingEvaluation}
use nomad_autoscaler.Heap
use nomad_autoscaler.Heap.Queue.{push-perm, fix-perm}
use nomad_autoscaler.Broker.{
  Broker, pending_of, init_waiting, push_pending, replace_pending, count_new, enqueue_policy,
  enqueue_locked,
}
use nomad_autoscaler.Broker.Pending.{no_eval, less, get_evaluation, get_evaluation-entry}
use nomad_autoscaler.Broker.Counts.{has_id, count_pending, count_pending-insert, count_pending_of}
use nomad_autoscaler.Broker.Enqueue.{enqueue_policy_cases}

-- A pending evaluation of the policy's queue that is not older than `e`, and which is the one that
-- the broker knows for the policy.
pub record Superseded (e : ScalingEvaluation) (b : Broker) : Type 0 where
  pub known_id : String
  pub place : ℕ
  pub newer : ScalingEvaluation
  pub known : lookup e.policy.id b.enqueued_policies ≡ some known_id
  pub pending :
      get_evaluation known_id (pending_of e.policy.type b.pending_evals) ≡ some (place, newer)
  pub not_older : ltb newer.create_time e.create_time ≡ false

-- The evaluation is pending, or another one of its policy that is not older is.
abbrev pub IsPresent : ScalingEvaluation → Broker → Type 0
IsPresent e b = (0 < count_pending e.id b.pending_evals) ⊎ Superseded e b

push_pending_present :
    (e : ScalingEvaluation) (b : Broker) → 0 < count_pending e.id (push_pending e b).pending_evals
unfolding push_pending
push_pending_present e b =
    let queue = e.policy.type in
    let p = pending_of queue b.pending_evals in
    let own : has_id e.id e ≡ 1 = rw (eq_refl e.id) refl in
    omega (
      arith,
      own,
      count_pending-insert e.id queue (Heap.push no_eval less p e) b.pending_evals,
      total-perm (has_id e.id) (push-perm no_eval less p e),
      count_pending_of e.id queue b.pending_evals,
    )

replace_pending_present :
    (e old : ScalingEvaluation) (b : Broker) (id : String) (i : ℕ)
    → get_evaluation id (pending_of e.policy.type b.pending_evals) ≡ some (i, old)
    → 0 < count_pending e.id (replace_pending e i b).pending_evals
unfolding replace_pending
replace_pending_present e old b id i found =
    let queue = e.policy.type in
    let p = pending_of queue b.pending_evals in
    let inside = (get_evaluation-entry id p i old found).0 in
    let own : has_id e.id e ≡ 1 = rw (eq_refl e.id) refl in
    omega (
      arith,
      own,
      count_pending-insert e.id queue (Heap.fix no_eval less (set p i e) i) b.pending_evals,
      total-perm (has_id e.id)
          (fix-perm no_eval less (set p i e) i (omega (arith, length-set p i e, inside))),
      total-set (has_id e.id) p i e no_eval inside,
      count_pending_of e.id queue b.pending_evals,
      total-get_or (has_id e.id) p i no_eval inside,
    )

enqueue_policy-IsPresent : (e : ScalingEvaluation) (b : Broker) → IsPresent e (enqueue_policy e b)
enqueue_policy-IsPresent e b =
    enqueue_policy_cases (IsPresent e) e b
      (λ m. inl (push_pending_present e (record b { enqueued_policies = m })))
      (λ id i old found. inl (replace_pending_present e old b id i found))
      (λ id i old k f o.
        inr
          (record { known_id = id; place = i; newer = old; known = k; pending = f; not_older = o }))

-- With a token, as in `Nack`, the evaluation is pending afterwards, or another one of its policy
-- that is not older is.
pub enqueue_locked-IsPresent :
    (e : ScalingEvaluation) (token : String) (b : Broker)
    → str_eq token "" ≡ false
    → IsPresent e (enqueue_locked e token b)
unfolding enqueue_locked
enqueue_locked-IsPresent e token b h =
    let c = init_waiting e.policy.type (count_new e b) in
    let goes_on : enqueue_locked e token b ≡ enqueue_policy e c = ground arith in
    rw goes_on (enqueue_policy-IsPresent e c)
