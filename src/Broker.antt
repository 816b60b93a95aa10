-- ===== src/Broker.antt =====
-- policyeval/broker.go: the queue of evaluations between the policy manager and the workers. A
-- method takes the state of the broker, whose lock it holds, and returns the new state. Logging is
-- left out, and UUIDs are arguments.
pub mod Pending
pub mod Counts
pub mod Validity
pub mod Enqueue
pub mod Retry
pub mod Frame
pub mod Counter
pub mod Dequeue
pub mod System
pub mod Invariant
pub mod Delivery
pub mod Deliveries
pub mod Removal
pub mod Safety
pub mod Acknowledgement
mod Tests
pub mod Handout
pub mod Replacement
use nomad_autoscaler.Prelude.{
  ℕ, suc, ◌+◌, String, Bool, true, false, not, List, [], ◌∷◌, Option, none, some, Map, lookup,
  insert, delete, set, is_some, ℤ, pos, ltb_ℤ, ltb, eqb_ℤ, if◌then◌else◌, str_eq, ◌&&◌,
}
use nomad_autoscaler.Sdk.Eval.{ScalingEvaluation}
use nomad_autoscaler.Heap
use Pending.{no_eval, less, get_evaluation}

-- Whether `Stop` would still stop the timer.
pub data NackTimer : Type 0 where
  running expired : NackTimer

pub record UnackEval : Type 0 where
  pub eval : ScalingEvaluation
  pub token : String
  pub nack_timer : NackTimer

-- `waiting` tells of each channel whether its one place is taken.
pub record Broker : Type 0 where
  pub nack_timeout : ℤ
  pub delivery_limit : ℤ
  pub pending_evals : Map (List ScalingEvaluation)
  pub enqueued_evals : Map ℕ
  pub enqueued_policies : Map String
  pub unack : Map UnackEval
  pub waiting : Map Bool

unfoldable pub new_broker : ℤ → ℤ → Broker
new_broker timeout limit = record {
  nack_timeout = timeout;
  delivery_limit = limit;
  pending_evals = [];
  enqueued_evals = [];
  enqueued_policies = [];
  unack = [];
  waiting = [];
}

abbrev pub pending_of : String → Map (List ScalingEvaluation) → List ScalingEvaluation
pending_of queue m = elim (lookup queue m) [ none ↦ [] | some p ↦ p ]

-- `b.enqueuedEvals[id]`, which is 0 where there is no entry.
abbrev pub dequeues_of : String → Map ℕ → ℕ
dequeues_of id m = elim (lookup id m) [ none ↦ 0 | some n ↦ n ]

-- A send that does not block: it fills the channel's place, and does nothing without a channel.
unfoldable pub signal : String → Map Bool → Map Bool
signal queue m = elim (lookup queue m) [ none ↦ m | some _ ↦ insert queue true m ]

-- The channel of a queue that has neither pending evaluations nor a channel.
unfoldable pub init_waiting : String → Broker → Broker
init_waiting queue b =
    if is_some (lookup queue b.pending_evals)
    then b
    else if is_some (lookup queue b.waiting)
    then b
    else record b { waiting = insert queue false b.waiting }

unfoldable pub push_pending : ScalingEvaluation → Broker → Broker
unfolding signal
push_pending eval b = record b {
  pending_evals =
      insert eval.policy.type
        (Heap.push no_eval less (pending_of eval.policy.type b.pending_evals) eval) b.pending_evals;
  waiting = signal eval.policy.type b.waiting;
}

-- The newer evaluation takes the place of the pending one at `i`. It is its own entry that is
-- deleted from `enqueuedEvals`, not that of the evaluation which it replaces.
unfoldable pub replace_pending : ScalingEvaluation → ℕ → Broker → Broker
replace_pending eval i b = record b {
  enqueued_policies = insert eval.policy.id eval.id b.enqueued_policies;
  enqueued_evals = delete eval.id b.enqueued_evals;
  pending_evals =
      insert eval.policy.type
        (Heap.fix no_eval less (set (pending_of eval.policy.type b.pending_evals) i eval) i)
        b.pending_evals;
}

-- The evaluation of the same policy is pending at `i`, or it is not pending.
unfoldable pub update_pending : ScalingEvaluation → Option (ℕ × ScalingEvaluation) → Broker → Broker
update_pending eval none b = push_pending eval b
update_pending eval (some (i, pending_eval)) b =
    if ltb pending_eval.create_time eval.create_time then replace_pending eval i b else b

-- From the look at `enqueuedPolicies` on.
unfoldable pub enqueue_policy : ScalingEvaluation → Broker → Broker
enqueue_policy eval b = elim (lookup eval.policy.id b.enqueued_policies) [
  | none ↦
      push_pending eval
        (record b { enqueued_policies = insert eval.policy.id eval.id b.enqueued_policies })
  | some pending_id ↦
      if str_eq pending_id eval.id
      then push_pending eval b
      else update_pending eval
          (get_evaluation pending_id (pending_of eval.policy.type b.pending_evals)) b
]

unfoldable pub count_new : ScalingEvaluation → Broker → Broker
count_new eval b =
    if is_some (lookup eval.id b.enqueued_evals)
    then b
    else record b { enqueued_evals = insert eval.id 0 b.enqueued_evals }

unfoldable pub enqueue_locked : ScalingEvaluation → String → Broker → Broker
enqueue_locked eval token b =
    if is_some (lookup eval.id b.enqueued_evals) && str_eq token ""
    then b
    else enqueue_policy eval (init_waiting eval.policy.type (count_new eval b))

unfoldable pub enqueue : ScalingEvaluation → Broker → Broker
unfolding enqueue_locked
enqueue eval b = enqueue_locked eval "" b

unfoldable pub pop_pending :
    String → List ScalingEvaluation → Broker → Option ScalingEvaluation × Broker
pop_pending queue [] b = (none, b)
pop_pending queue (e ∷ p) b =
    let (top, rest) = Heap.pop no_eval less (e ∷ p) in
    (some top, record b { pending_evals = insert queue rest b.pending_evals })

unfoldable pub find_work : String → Broker → Option ScalingEvaluation × Broker
unfolding pop_pending
find_work queue b = elim (lookup queue b.pending_evals) [
  | none ↦ (none, b)
  | some p ↦ pop_pending queue p b
]

-- The first section of `waitForWork`, which makes the channel.
unfoldable pub open_waiting : String → Broker → Broker
open_waiting queue b =
    if is_some (lookup queue b.waiting)
    then b
    else record b { waiting = insert queue false b.waiting }

abbrev take_signal : String → Option Bool → Broker → Option Broker
take_signal queue (some true) b = some (record b { waiting = insert queue false b.waiting })
take_signal queue _ b = none

-- `waitForWork` on a context that is not done: `none` where it would block.
unfoldable pub wait_for_work : String → Broker → Option Broker
unfolding open_waiting
wait_for_work queue b =
    let b' = open_waiting queue b in take_signal queue (lookup queue b'.waiting) b'

-- The last section of `Dequeue`, which hands the evaluation out.
unfoldable pub deliver : ScalingEvaluation → String → Broker → Broker
deliver eval token b = record b {
  unack = insert eval.id (record { eval = eval; token = token; nack_timer = running }) b.unack;
  enqueued_evals = insert eval.id (suc (dequeues_of eval.id b.enqueued_evals)) b.enqueued_evals;
}

-- `Dequeue` with no other call in between: `none` where it blocks until its context is done, and
-- then returns nil. A call waits at most once on a channel that nobody fills, so two rounds are
-- enough.
unfoldable pub dequeue_loop : ℕ → String → String → Broker → Option ScalingEvaluation × Broker
dequeue_loop ℕ.zero queue token b = (none, b)
dequeue_loop (suc f) queue token b =
    let (work, b') = find_work queue b in
    elim work [
      | some eval ↦ (some eval, deliver eval token b')
      | none ↦ elim (wait_for_work queue b') [
        | none ↦ (none, open_waiting queue b')
        | some b'' ↦ dequeue_loop f queue token b''
      ]
    ]

unfoldable pub dequeue : String → String → Broker → Option ScalingEvaluation × Broker
unfolding dequeue_loop
dequeue queue token b = dequeue_loop 2 queue token b

pub data BrokerError : Type 0 where
  id_not_found token_mismatch nack_timer_expired : BrokerError

-- Nothing of an evaluation that is done with is left.
unfoldable pub forget : String → UnackEval → Broker → Broker
forget id u b = record b {
  unack = delete id b.unack;
  enqueued_evals = delete id b.enqueued_evals;
  enqueued_policies = delete u.eval.policy.id b.enqueued_policies;
}

unfoldable pub ack_by_timer : NackTimer → String → UnackEval → Broker → Option BrokerError × Broker
unfolding forget
ack_by_timer expired id u b = (some nack_timer_expired, b)
ack_by_timer running id u b = (none, forget id u b)

unfoldable pub ack_found : String → String → UnackEval → Broker → Option BrokerError × Broker
ack_found id token u b =
    if not (str_eq u.token token)
    then (some token_mismatch, b)
    else ack_by_timer u.nack_timer id u b

unfoldable pub ack : String → String → Broker → Option BrokerError × Broker
ack id token b = elim (lookup id b.unack) [
  | none ↦ (some id_not_found, b)
  | some u ↦ ack_found id token u b
]

-- Whether the delivery limit is reached.
abbrev pub exhausted : String → Broker → Bool
exhausted id b = not (ltb_ℤ (pos (dequeues_of id b.enqueued_evals)) b.delivery_limit)

unfoldable pub withdraw : String → Broker → Broker
withdraw id b = record b { unack = delete id b.unack }

unfoldable pub nack_found : String → String → UnackEval → Broker → Option BrokerError × Broker
nack_found id token u b =
    if not (str_eq u.token token)
    then (some token_mismatch, b)
    else if exhausted id b
    then (none, forget id u b)
    else (none, enqueue_locked u.eval token (withdraw id b))

unfoldable pub nack : String → String → Broker → Option BrokerError × Broker
nack id token b = elim (lookup id b.unack) [
  | none ↦ (some id_not_found, b)
  | some u ↦ nack_found id token u b
]

-- The timer of an evaluation that has been handed out runs out; its call of `Nack` comes later.
unfoldable pub expire : String → Broker → Broker
expire id b = elim (lookup id b.unack) [
  | none ↦ b
  | some u ↦ record b { unack = insert id (record u { nack_timer = expired }) b.unack }
]
