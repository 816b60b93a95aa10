-- ===== src/Broker/Dequeue.antt =====
-- `findWork`, `waitForWork` and `Dequeue`.
use mathlib.Core.Path.{subst₂}
use nomad_autoscaler.Prelude.{
  ℕ, suc, ◌+◌, ◌<◌, String, ◌≡◌, refl, sym, ◌∙◌, Bool, true, false, ◌⊎◌, inl, inr, List, [], ◌∷◌,
  Perm, Option, none, some, Map, lookup, insert, lookup-insert_self, ap, subst, ◌↔◌, is_some-insert,
  is_some, arith, Bool-cases, Option-cases, total-perm, length, lookup-insert, str_eq, eq_iff,
}
use nomad_autoscaler.Sdk.Eval.{ScalingEvaluation}
use nomad_autoscaler.Heap
use nomad_autoscaler.Heap.Array.{entry}
use nomad_autoscaler.Heap.Queue.{pop-perm, pop-least}
use nomad_autoscaler.Broker.{
  Broker, pending_of, find_work, pop_pending, wait_for_work, open_waiting, dequeue_loop, deliver,
}
use nomad_autoscaler.Broker.Pending.{no_eval, less, less-IsStrictOrder, GoesFirst, less-GoesFirst}
use nomad_autoscaler.Broker.Counts.{has_id, count, count_pending, count_pending-insert}
use nomad_autoscaler.Broker.Validity.{
  foreign_to, IsValid, pop-IsValidQueue, store-IsValid, IsValid-frame,
}

-- What a successful `findWork` does: it gives an evaluation of the queue that no pending one is
-- before, keeps the others in a valid state, and changes nothing else.
pub record Found (queue : String) (e : ScalingEvaluation) (b c : Broker) : Type 0 where
  pub valid : IsValid c
  pub taken : Perm (e ∷ pending_of queue c.pending_evals) (pending_of queue b.pending_evals)
  pub best :
      (i : ℕ)
      → i < length (pending_of queue b.pending_evals)
      → GoesFirst e (entry no_eval (pending_of queue b.pending_evals) i)
  pub moved :
      (id : String)
      → count_pending id c.pending_evals + has_id id e ≡ count_pending id b.pending_evals
  pub other_queues :
      (j : String) → str_eq queue j ≡ false → lookup j c.pending_evals ≡ lookup j b.pending_evals
  pub typed : e.policy.type ≡ queue
  pub rest_kept : c ≡ record b { pending_evals = c.pending_evals }

popped-Found :
    (queue : String) (x : ScalingEvaluation) (p : List ScalingEvaluation) (b : Broker)
    → IsValid b
    → lookup queue b.pending_evals ≡ some (x ∷ p)
    → let (top, rest) = Heap.pop no_eval less (x ∷ p) in
      Found queue top b (record b { pending_evals = insert queue rest b.pending_evals })
popped-Found queue x p b v e =
    let q = (Heap.pop no_eval less (x ∷ p)).1 in
    let top = (Heap.pop no_eval less (x ∷ p)).0 in
    let w = v.queues queue (x ∷ p) e in
    let popped = (pop-perm no_eval less (x ∷ p) (omega arith)).1 in
    let before : pending_of queue b.pending_evals ≡ x ∷ p = rw (e, pending_of) refl in
    let stored = lookup-insert_self queue q b.pending_evals in
    let after : pending_of queue (insert queue q b.pending_evals) ≡ q =
      rw (stored, pending_of) refl in
    record {
      valid =
          store-IsValid queue q b (record b { pending_evals = insert queue q b.pending_evals }) v
            (pop-IsValidQueue queue (x ∷ p) (omega arith) w) (v.channels queue (x ∷ p) e) (λ j h. h)
            refl;
      taken =
          subst (λ l. Perm (top ∷ l) (pending_of queue b.pending_evals)) (sym after)
            (subst (λ l. Perm (top ∷ q) l) (sym before) popped);
      best =
          subst (λ l. (i : ℕ) → i < length l → GoesFirst top (entry no_eval l i)) (sym before)
            (λ i h.
              less-GoesFirst top _ (pop-least no_eval less less-IsStrictOrder (x ∷ p) i w.heap h));
      moved = λ id. omega (
        arith,
        count_pending-insert id queue q b.pending_evals,
        total-perm (has_id id) popped,
        ap (count id) before,
      );
      other_queues = λ j other. lookup-insert queue j q b.pending_evals ∙ rw other refl;
      typed =
          let own : foreign_to queue top ≡ 0 =
            omega (arith, w.typed, total-perm (foreign_to queue) popped) in
          ground (arith, own, eq_iff top.policy.type queue);
      rest_kept = refl;
    }

pop_pending-Found :
    (queue : String) (p : List ScalingEvaluation) (e : ScalingEvaluation) (b c : Broker)
    → IsValid b
    → lookup queue b.pending_evals ≡ some p
    → pop_pending queue p b ≡ (some e, c)
    → Found queue e b c
unfolding pop_pending
pop_pending-Found queue [] e b c v at h = cc (ap (λ r. r.0) h)
pop_pending-Found queue (x ∷ p) e b c v at h =
    let top : (Heap.pop no_eval less (x ∷ p)).0 ≡ e =
      cc (ap (λ (r : Option ScalingEvaluation × Broker). r.0) h) in
    subst₂ (λ t d. Found queue t b d) top (ap (λ r. r.1) h) (popped-Found queue x p b v at)

-- If `findWork` gives an evaluation, it is one that no pending evaluation of the queue is before, and
-- it is taken out of the queue and nothing else is changed.
pub find_work-Found :
    (queue : String) (e : ScalingEvaluation) (b c : Broker)
    → IsValid b
    → find_work queue b ≡ (some e, c)
    → Found queue e b c
unfolding find_work
find_work-Found queue e b c v h = elim (Option-cases (lookup queue b.pending_evals)) [
  | inl nothing ↦ cc (ap (λ r. r.0) (rw (nothing, find_work) at h))
  | inr (p, at) ↦ pop_pending-Found queue p e b c v at (rw (at, find_work) at h)
]

pop_pending-none :
    (queue : String) (p : List ScalingEvaluation) (b : Broker)
    → (pop_pending queue p b).0 ≡ none ↔ (p ≡ [])
unfolding pop_pending
pop_pending-none queue [] b = (λ _. refl, λ _. refl)
pop_pending-none queue (x ∷ p) b = (λ h. cc, λ h. cc)

-- `findWork` gives nothing exactly when nothing is pending in the queue.
pub find_work-eq-none_iff :
    (queue : String) (b : Broker)
    → ((find_work queue b).0 ≡ none) ↔ (pending_of queue b.pending_evals ≡ [])
unfolding find_work
find_work-eq-none_iff queue b = elim (Option-cases (lookup queue b.pending_evals)) [
  | inl e ↦ rw (e, find_work, pending_of) (λ _. refl, λ _. refl)
  | inr (p, e) ↦ rw (e, find_work, pending_of) (pop_pending-none queue p b)
]

-- The state after a call of `waitForWork` that goes on.
abbrev pub woken : String → Broker → Broker
woken queue b = record b { waiting = insert queue false b.waiting }

-- `waitForWork` goes on at once exactly where the channel's place is taken.
wait_for_work_cases :
    (queue : String) (b : Broker)
    → (wait_for_work queue b ≡ none)
      ⊎ ((lookup queue b.waiting ≡ some true) × (wait_for_work queue b ≡ some (woken queue b)))
unfolding wait_for_work
wait_for_work_cases queue b = elim (Option-cases (lookup queue b.waiting)) [
  | inl e ↦ inl (rw (e, open_waiting, lookup-insert_self queue false b.waiting))
  | inr (true, e) ↦ inr (e, rw (e, open_waiting) (rw e))
  | inr (false, e) ↦ inl (rw (e, open_waiting) (rw e))
]

wait_for_work-woken : (queue : String) (b : Broker) → wait_for_work queue (woken queue b) ≡ none
wait_for_work-woken queue b = elim (wait_for_work_cases queue (woken queue b)) [
  | inl blocked ↦ blocked
  | inr (full, _) ↦ cc (lookup-insert_self queue false b.waiting, full)
]

-- A round of waiting that goes on changes the channel alone.
pub wait_for_work-eq-woken :
    (queue : String) (b c : Broker) → wait_for_work queue b ≡ some c → c ≡ woken queue b
wait_for_work-eq-woken queue b c h = elim (wait_for_work_cases queue b) [
  | inl blocked ↦ cc
  | inr (_, on) ↦ cc
]

pub woken-IsValid : (queue : String) (b : Broker) → IsValid b → IsValid (woken queue b)
woken-IsValid queue b v =
    IsValid-frame b (woken queue b) v refl (λ j h. is_some-insert queue j false b.waiting h)

pub open_waiting-IsValid :
    (queue : String) (b : Broker) → IsValid b → IsValid (open_waiting queue b)
unfolding open_waiting
open_waiting-IsValid queue b v = elim (Bool-cases (is_some (lookup queue b.waiting))) [
  | inl known ↦ rw known v
  | inr new ↦ rw new (
      IsValid-frame b (record b { waiting = insert queue false b.waiting }) v refl
        (λ j h. is_some-insert queue j false b.waiting h))
]

pop_pending-empty :
    (queue : String) (p : List ScalingEvaluation) (b : Broker)
    → p ≡ []
    → pop_pending queue p b ≡ (none, b)
unfolding pop_pending
pop_pending-empty queue [] b h = refl
pop_pending-empty queue (x ∷ p) b h = cc

find_work-empty :
    (queue : String) (b : Broker)
    → pending_of queue b.pending_evals ≡ []
    → find_work queue b ≡ (none, b)
unfolding find_work
find_work-empty queue b h = elim (Option-cases (lookup queue b.pending_evals)) [
  | inl e ↦ rw (e, find_work)
  | inr (p, e) ↦ rw (e, find_work) (pop_pending-empty queue p b (rw (e, pending_of) at h))
]

module _ (f : ℕ) (queue token : String) (b c : Broker) where
  -- With something pending `Dequeue` hands out what `findWork` takes.
  pub dequeue_loop-found :
      (e : ScalingEvaluation)
      → find_work queue b ≡ (some e, c)
      → dequeue_loop (suc f) queue token b ≡ (some e, deliver e token c)
  unfolding dequeue_loop
  dequeue_loop-found e h = ground arith

  dequeue_loop-blocked :
      find_work queue b ≡ (none, c)
      → wait_for_work queue c ≡ none
      → dequeue_loop (suc f) queue token b ≡ (none, open_waiting queue c)
  unfolding dequeue_loop
  dequeue_loop-blocked h w = ground arith

  dequeue_loop-woken :
      (d : Broker)
      → find_work queue b ≡ (none, c)
      → wait_for_work queue c ≡ some d
      → dequeue_loop (suc f) queue token b ≡ dequeue_loop f queue token d
  unfolding dequeue_loop
  dequeue_loop-woken d h w = ground arith

pub open_waiting-kept :
    (queue : String) (b : Broker)
    → open_waiting queue b ≡ record b { waiting = (open_waiting queue b).waiting }
unfolding open_waiting
open_waiting-kept queue b = ground arith

-- On a queue with nothing pending `Dequeue` blocks after at most one more look, whatever the fuel, and
-- it changes the channels alone.
pub dequeue_loop-empty :
    (f : ℕ) (queue token : String) (b : Broker)
    → pending_of queue b.pending_evals ≡ []
    → (m : Map Bool) × (dequeue_loop (suc (suc f)) queue token b ≡ (none, record b { waiting = m }))
dequeue_loop-empty f queue token b h = elim (wait_for_work_cases queue b) [
  | inl blocked ↦ (
    (open_waiting queue b).waiting,
    dequeue_loop-blocked (suc f) queue token b b (find_work-empty queue b h) blocked
        ∙ ap (λ d. (none, d)) (open_waiting-kept queue b),
  )
  | inr (_, on) ↦ (
    (open_waiting queue (woken queue b)).waiting,
    dequeue_loop-woken (suc f) queue token b b (woken queue b) (find_work-empty queue b h) on
        ∙ dequeue_loop-blocked f queue token (woken queue b) (woken queue b)
            (find_work-empty queue (woken queue b) h) (wait_for_work-woken queue b)
        ∙ ap (λ d. (none, d)) (open_waiting-kept queue (woken queue b)),
  )
]
