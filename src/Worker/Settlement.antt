-- ===== src/Worker/Settlement.antt =====
-- A round of the worker and the broker together.
use nomad_autoscaler.Prelude.{
  suc, String, ◌≡◌, refl, ap, sym, subst, ◌∙◌, true, false, ◌⊎◌, inl, inr, List, [], ◌∷◌, none,
  some, is_some, lookup, lookup-insert_self, str_eq, Option-cases, pos, ◌≤ℤ◌, ◌<ℤ◌,
}
use nomad_autoscaler.Sdk.Eval.{ScalingEvaluation}
use nomad_autoscaler.Broker.{
  Broker, UnackEval, running, ack, nack, deliver, dequeues_of, find_work, pop_pending, dequeue,
}
use nomad_autoscaler.Broker.Counts.{IsKeyed, insert-IsKeyed}
use nomad_autoscaler.Broker.Dequeue.{dequeue_loop-found}
use nomad_autoscaler.Broker.Retry.{IsPresent}
use nomad_autoscaler.Broker.Acknowledgement.{IsOwner, Forgotten, ack-outcome, nack_found-outcome}
use nomad_autoscaler.Worker.Check.{Environment}
use nomad_autoscaler.Worker.{Handled, Stops, handle_policy, settle, run_round, run_once}

-- What a round leaves of an evaluation that it took when the broker was `b`, and which it settled.
pub record Acked (e : ScalingEvaluation) (b d : Broker) : Type 0 where
  pub no_unack : lookup e.id d.unack ≡ none
  pub no_counter : lookup e.id d.enqueued_evals ≡ none
  pub no_policy : lookup e.policy.id d.enqueued_policies ≡ none
  pub pending_kept : d.pending_evals ≡ b.pending_evals

-- After a failure it is tried again, unless it was handed out as often as the delivery limit says.
abbrev pub Nacked : ScalingEvaluation → Broker → Broker → Type 0
Nacked e b d =
    ((b.delivery_limit ≤ℤ pos (suc (dequeues_of e.id b.enqueued_evals))) × Acked e b d)
    ⊎ ((pos (suc (dequeues_of e.id b.enqueued_evals)) <ℤ b.delivery_limit)
        × (lookup e.id d.unack ≡ none)
        × IsPresent e d)

abbrev pub AfterRound : ScalingEvaluation → Handled → Broker → Broker → Type 0
AfterRound e r b d = ((r.error ≡ none) × Acked e b d) ⊎ ((is_some r.error ≡ true) × Nacked e b d)

module _ (token : String) (e : ScalingEvaluation) (b : Broker) where
  u : UnackEval
  u = record { eval = e; token = token; nack_timer = running }

  owner : IsOwner e.id token u (deliver e token b)
  unfolding deliver u
  owner = (lookup-insert_self e.id u b.unack, refl)

  Forgotten-Acked : (d : Broker) → Forgotten e.id u (deliver e token b) d → Acked e b d
  unfolding deliver u
  Forgotten-Acked d f = record {
    no_unack = f.no_unack;
    no_counter = f.no_counter;
    no_policy = f.no_policy;
    pending_kept = f.pending_kept;
  }

  ack-Acked : Acked e b (ack e.id token (deliver e token b)).1
  unfolding u
  ack-Acked = elim (ack-outcome e.id token (deliver e token b)) [
    | inl (w, own, _, _, done) ↦
        let same : w ≡ u = let both = owner in cc in
        Forgotten-Acked (ack e.id token (deliver e token b)).1 (
          subst (λ v. Forgotten e.id v (deliver e token b) (ack e.id token (deliver e token b)).1)
            same done)
    | inr (_, _, late) ↦ let x = late u owner in absurd (cc)
  ]

  counted :
      dequeues_of e.id (deliver e token b).enqueued_evals ≡ suc (dequeues_of e.id b.enqueued_evals)
  unfolding deliver
  counted =
      rw
        (
          lookup-insert_self e.id (suc (dequeues_of e.id b.enqueued_evals)) b.enqueued_evals,
          dequeues_of,
        )
        refl

  limit : (deliver e token b).delivery_limit ≡ b.delivery_limit
  unfolding deliver
  limit = refl

  nack-Nacked :
      IsKeyed b.unack → str_eq token "" ≡ false → Nacked e b (nack e.id token (deliver e token b)).1
  unfolding deliver u
  nack-Nacked keyed h =
      let keyed' : IsKeyed (deliver e token b).unack = insert-IsKeyed e.id u b.unack refl keyed in
      elim (nack_found-outcome e.id token (deliver e token b) u keyed' owner h).1 [
        | inl (done, f) ↦ inl (rw (limit, counted) at done, Forgotten-Acked _ f)
        | inr (more, r) ↦ inr (rw (limit, counted) at more, r.no_unack, r.present)
      ]

  settle-AfterRound :
      (r : Handled)
      → IsKeyed b.unack
      → str_eq token "" ≡ false
      → AfterRound e r b (settle e.id token r (deliver e token b))
  unfolding settle
  settle-AfterRound r keyed h = elim (Option-cases r.error) [
    | inl fine ↦ rw (fine, settle) (inl (refl, ack-Acked))
    | inr (x, bad) ↦ rw (bad, settle) (inr (refl, nack-Nacked keyed h))
  ]

dequeue-found :
    (queue token : String) (b c : Broker) (e : ScalingEvaluation)
    → find_work queue b ≡ (some e, c)
    → dequeue queue token b ≡ (some e, deliver e token c)
unfolding dequeue
dequeue-found queue token b c e h = dequeue_loop-found 1 queue token b c e h

pop_pending-unack :
    (queue : String) (p : List ScalingEvaluation) (b : Broker)
    → (pop_pending queue p b).1.unack ≡ b.unack
unfolding pop_pending
pop_pending-unack queue [] b = refl
pop_pending-unack queue (x ∷ p) b = refl

find_work-unack : (queue : String) (b : Broker) → (find_work queue b).1.unack ≡ b.unack
unfolding find_work
find_work-unack queue b = elim (Option-cases (lookup queue b.pending_evals)) [
  | inl empty ↦ rw (empty, find_work) refl
  | inr (p, at) ↦ rw (at, find_work) (pop_pending-unack queue p b)
]

-- Where something is pending in the queue, the evaluation of the policy returns, each unacknowledged
-- evaluation is recorded under its own ID, and the token is not empty, a round of the worker, with no
-- other call of the broker and no expiry of a timer during it, settles the evaluation that it takes. After
-- a success no trace of it and its policy is left but pending ones. After a failure it is not
-- unacknowledged any more: where it was handed out as often as the delivery limit says, no trace is
-- left, and below the limit it is pending again, or one of its policy that is not older is.
pub run_once-settled :
    (env : Environment) (stops : Stops) (queue token : String) (b c : Broker)
    (e : ScalingEvaluation) (r : Handled)
    → find_work queue b ≡ (some e, c)
    → handle_policy env stops e ≡ some r
    → IsKeyed b.unack
    → str_eq token "" ≡ false
    → (d : Broker) × (run_once env stops queue token b ≡ some (some r, d)) × AfterRound e r c d
unfolding run_once run_round
run_once-settled env stops queue token b c e r h k keyed given =
    let found = dequeue-found queue token b c e h in
    let after : (dequeue queue token b).1 ≡ deliver e token c = ap (λ x. x.1) found in
    let same : b.unack ≡ c.unack = sym (find_work-unack queue b) ∙ ap (λ x. x.1.unack) h in
    (
      settle e.id token r (deliver e token c),
      rw (run_once, found, k, after) refl,
      settle-AfterRound token e c r (subst IsKeyed same keyed) given,
    )
