-- ===== src/Broker/Validity.antt =====
-- A broker is valid where every pending queue is a heap of evaluations of its own type with a channel.
use nomad_autoscaler.Prelude.{
  ℕ, ◌<◌, String, ◌≡◌, refl, ◌∙◌, subst, Bool, true, false, inl, inr, List, some, Map, lookup,
  insert, lookup-insert_cases, lookup-insert_self, ap, is_some-insert, is_some, length, length-set,
  set, if◌then◌else◌, str_eq, eq_refl, arith, total, total-perm, total-set, Bool-cases,
  Option-cases,
}
use nomad_autoscaler.Sdk.Eval.{ScalingEvaluation}
use nomad_autoscaler.Heap
use nomad_autoscaler.Heap.Queue.{
  IsQueue, push-perm, push-IsQueue, pop-perm, pop-IsQueue, fix-perm, fix-set-IsQueue,
}
use nomad_autoscaler.Broker.{
  Broker, pending_of, signal, init_waiting, push_pending, replace_pending,
}
use nomad_autoscaler.Broker.Pending.{
  no_eval, less, get_evaluation, get_evaluation-entry, less-IsStrictOrder,
}

abbrev pub foreign_to : String → ScalingEvaluation → ℕ
foreign_to queue e = if str_eq e.policy.type queue then 0 else 1

-- The number of evaluations of another type.
abbrev pub mistyped : String → List ScalingEvaluation → ℕ
mistyped queue = total (foreign_to queue)

pub record IsValidQueue (queue : String) (p : List ScalingEvaluation) : Type 0 where
  pub heap : IsQueue no_eval less p
  pub typed : mistyped queue p ≡ 0

pub record IsValid (b : Broker) : Type 0 where
  pub queues :
      (queue : String) (p : List ScalingEvaluation)
      → lookup queue b.pending_evals ≡ some p
      → IsValidQueue queue p
  pub channels :
      (queue : String) (p : List ScalingEvaluation)
      → lookup queue b.pending_evals ≡ some p
      → is_some (lookup queue b.waiting) ≡ true

pub pending_of-IsValidQueue :
    (b : Broker) (queue : String)
    → IsValid b
    → IsValidQueue queue (pending_of queue b.pending_evals)
pending_of-IsValidQueue b queue v = elim (Option-cases (lookup queue b.pending_evals)) [
  | inl e ↦ rw (e, pending_of) (record { heap = λ c z h. absurd (omega arith); typed = refl })
  | inr (p, e) ↦ rw (e, pending_of) (v.queues queue p e)
]

push-IsValidQueue :
    (p : List ScalingEvaluation) (e : ScalingEvaluation)
    → IsValidQueue e.policy.type p
    → IsValidQueue e.policy.type (Heap.push no_eval less p e)
push-IsValidQueue p e v = record {
  heap = push-IsQueue no_eval less less-IsStrictOrder p e v.heap;
  typed =
      total-perm (foreign_to e.policy.type) (push-perm no_eval less p e)
      ∙ ground (arith, eq_refl e.policy.type, v.typed);
}

fix-IsValidQueue :
    (p : List ScalingEvaluation) (i : ℕ) (e : ScalingEvaluation)
    → i < length p
    → IsValidQueue e.policy.type p
    → IsValidQueue e.policy.type (Heap.fix no_eval less (set p i e) i)
fix-IsValidQueue p i e h v = record {
  heap = fix-set-IsQueue no_eval less less-IsStrictOrder p i e h v.heap;
  typed =
      total-perm (foreign_to e.policy.type)
        (fix-perm no_eval less (set p i e) i (omega (arith, length-set p i e)))
      ∙ ground (arith, eq_refl e.policy.type, total-set (foreign_to e.policy.type) p i e no_eval h);
}

pub pop-IsValidQueue :
    (queue : String) (p : List ScalingEvaluation)
    → 0 < length p
    → IsValidQueue queue p
    → IsValidQueue queue (Heap.pop no_eval less p).1
pop-IsValidQueue queue p h v = record {
  heap = pop-IsQueue no_eval less less-IsStrictOrder p h v.heap;
  typed = omega (arith, total-perm (foreign_to queue) (pop-perm no_eval less p h).1, v.typed);
}

-- A write of a valid queue, whose channel is there.
pub store-IsValid :
    (queue : String) (p : List ScalingEvaluation) (b c : Broker)
    → IsValid b
    → IsValidQueue queue p
    → is_some (lookup queue c.waiting) ≡ true
    → ((j : String) → is_some (lookup j b.waiting) ≡ true → is_some (lookup j c.waiting) ≡ true)
    → c.pending_evals ≡ insert queue p b.pending_evals
    → IsValid c
store-IsValid queue p b c v w channel keeps e = record {
  queues = λ j q h. elim (lookup-insert_cases queue j p q b.pending_evals (rw e at h)) [
    | inl (same, written) ↦ subst (λ k. IsValidQueue k q) same (rw written w)
    | inr old ↦ v.queues j q old
  ];
  channels = λ j q h. elim (lookup-insert_cases queue j p q b.pending_evals (rw e at h)) [
    | inl (same, written) ↦ rw same at channel
    | inr old ↦ keeps j (v.channels j q old)
  ];
}

is_some-signal :
    (queue j : String) (m : Map Bool)
    → is_some (lookup j m) ≡ true
    → is_some (lookup j (signal queue m)) ≡ true
unfolding signal
is_some-signal queue j m h = ground (arith, is_some-insert queue j true m h)

pub push_pending-IsValid :
    (e : ScalingEvaluation) (b : Broker)
    → IsValid b
    → is_some (lookup e.policy.type b.waiting) ≡ true
    → IsValid (push_pending e b)
unfolding push_pending
push_pending-IsValid e b v h =
    let queue = e.policy.type in
    store-IsValid queue (Heap.push no_eval less (pending_of queue b.pending_evals) e) b _ v
      (push-IsValidQueue (pending_of queue b.pending_evals) e (pending_of-IsValidQueue b queue v))
      (is_some-signal queue queue b.waiting h) (λ j k. is_some-signal queue j b.waiting k) refl

pub replace_pending-IsValid :
    (e old : ScalingEvaluation) (id : String) (i : ℕ) (b : Broker)
    → IsValid b
    → is_some (lookup e.policy.type b.waiting) ≡ true
    → get_evaluation id (pending_of e.policy.type b.pending_evals) ≡ some (i, old)
    → IsValid (replace_pending e i b)
unfolding replace_pending
replace_pending-IsValid e old id i b v h found =
    let queue = e.policy.type in
    let p = pending_of queue b.pending_evals in
    store-IsValid queue (Heap.fix no_eval less (set p i e) i) b _ v
      (fix-IsValidQueue p i e (get_evaluation-entry id p i old found).0
        (pending_of-IsValidQueue b queue v))
      h (λ j k. k) refl

-- Validity looks only at the queues and their channels.
pub IsValid-frame :
    (b c : Broker)
    → IsValid b
    → c.pending_evals ≡ b.pending_evals
    → ((j : String) → is_some (lookup j b.waiting) ≡ true → is_some (lookup j c.waiting) ≡ true)
    → IsValid c
IsValid-frame b c v e keeps = record {
  queues = λ j q h. v.queues j q (rw e at h);
  channels = λ j q h. keeps j (v.channels j q (rw e at h));
}

init_waiting_channel :
    (queue : String) (b : Broker)
    → IsValid b
    → is_some (lookup queue b.pending_evals) ≡ true
    → is_some (lookup queue b.waiting) ≡ true
init_waiting_channel queue b v h = elim (Option-cases (lookup queue b.pending_evals)) [
  | inl e ↦ cc (ap is_some e)
  | inr (p, e) ↦ v.channels queue p e
]

-- After its first steps `enqueueLocked` has a channel for the queue.
pub init_waiting-IsValid :
    (queue : String) (b : Broker)
    → IsValid b
    → IsValid (init_waiting queue b)
      × (is_some (lookup queue (init_waiting queue b).waiting) ≡ true)
unfolding init_waiting
init_waiting-IsValid queue b v = elim (Bool-cases (is_some (lookup queue b.pending_evals))) [
  | inl known ↦ rw known (v, init_waiting_channel queue b v known)
  | inr new ↦ rw new (elim (Bool-cases (is_some (lookup queue b.waiting))) [
    | inl open_already ↦ rw open_already (v, open_already)
    | inr closed ↦ rw closed (
      IsValid-frame b (record b { waiting = insert queue false b.waiting }) v refl
          (λ j h. is_some-insert queue j false b.waiting h),
      ap is_some (lookup-insert_self queue false b.waiting),
    )
  ])
]
