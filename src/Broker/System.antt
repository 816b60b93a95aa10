-- ===== src/Broker/System.antt =====
-- The broker among its callers. `Dequeue` gives up the lock between taking an evaluation out of
-- its queue and recording that it is handed out, so other calls come in between: an evaluation
-- that a call of `Dequeue` holds meanwhile is in flight. The expiry of a timer and its call of `Nack`
-- are steps of their own.
use nomad_autoscaler.Prelude.{ℕ, ◌+◌, ◌≡◌, String, List, [], ◌∷◌, ◌++◌, some, ℤ}
use nomad_autoscaler.Sdk.Eval.{ScalingEvaluation}
use nomad_autoscaler.Broker.{
  Broker, new_broker, enqueue, find_work, wait_for_work, open_waiting, deliver, ack, nack, expire,
}
use nomad_autoscaler.Broker.Counts.{count, count_pending, count_unack}

pub record System : Type 0 where
  pub broker : Broker
  pub in_flight : List ScalingEvaluation

-- How many evaluations with the ID the broker or a call of `Dequeue` holds.
abbrev pub held : String → System → ℕ
held id s =
    count_pending id s.broker.pending_evals + count id s.in_flight + count_unack id s.broker.unack

-- A new evaluation has an ID that no held one has, as UUIDs do. Calls of `Ack` and `Nack` may have
-- any arguments, and a timer may run out at any time.
pub data Step (s : System) : System → Type 0 where
  enqueues :
      (e : ScalingEvaluation) → held e.id s ≡ 0 → Step s (record s { broker = enqueue e s.broker })
  takes :
      (queue : String) (e : ScalingEvaluation) (b : Broker)
      → find_work queue s.broker ≡ (some e, b)
      → Step s (record { broker = b; in_flight = e ∷ s.in_flight })
  opens : (queue : String) → Step s (record s { broker = open_waiting queue s.broker })
  waits :
      (queue : String) (b : Broker)
      → wait_for_work queue s.broker ≡ some b
      → Step s (record s { broker = b })
  delivers :
      (e : ScalingEvaluation) (token : String) (before after : List ScalingEvaluation)
      → s.in_flight ≡ before ++ e ∷ after
      → Step s (record { broker = deliver e token s.broker; in_flight = before ++ after })
  acks : (id token : String) → Step s (record s { broker = (ack id token s.broker).1 })
  nacks : (id token : String) → Step s (record s { broker = (nack id token s.broker).1 })
  expires : (id : String) → Step s (record s { broker = expire id s.broker })

pub data Reach (s : System) : System → Type 0 where
  here : Reach s s
  next : {t u : System} → Reach s t → Step t u → Reach s u

abbrev pub start : ℤ → ℤ → System
start timeout limit = record { broker = new_broker timeout limit; in_flight = [] }
