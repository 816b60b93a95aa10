-- ===== src/Broker/Counts.antt =====
-- How many evaluations with an ID a list, the pending queues and the unacknowledged ones hold.
use nomad_autoscaler.Prelude.{
  ℕ, ◌+◌, ◌<◌, ◌≤◌, String, ◌≡◌, refl, List, [], ◌∷◌, none, some, Map, lookup, insert, delete,
  if◌then◌else◌, str_eq, eq_iff, arith, total, All,
}
use nomad_autoscaler.Sdk.Eval.{ScalingEvaluation}
use nomad_autoscaler.Broker.{UnackEval, pending_of}

abbrev pub has_id : String → ScalingEvaluation → ℕ
has_id id e = if str_eq e.id id then 1 else 0

abbrev pub count : String → List ScalingEvaluation → ℕ
count id = total (has_id id)

abbrev pub count_pending : String → Map (List ScalingEvaluation) → ℕ
count_pending id = total (λ entry. count id entry.1)

abbrev pub count_unack : String → Map UnackEval → ℕ
count_unack id = total (λ entry. has_id id entry.1.eval)

-- Each entry stands under the ID of its evaluation.
abbrev pub IsKeyed : Map UnackEval → Type 0
IsKeyed = All (λ entry. entry.1.eval.id ≡ entry.0)

pub count_pending-insert :
    (id queue : String) (p : List ScalingEvaluation) (m : Map (List ScalingEvaluation))
    → count_pending id (insert queue p m) + count id (pending_of queue m)
      ≡ count_pending id m + count id p
unfolding insert lookup
count_pending-insert id queue p [] = omega arith
count_pending-insert id queue p ((j, q) ∷ m) = ground (arith, count_pending-insert id queue p m)

pub delete-IsKeyed : (k : String) (m : Map UnackEval) → IsKeyed m → IsKeyed (delete k m)
unfolding delete
delete-IsKeyed k [] v = v
delete-IsKeyed k ((j, u) ∷ m) v = ground (arith, delete-IsKeyed k m v.1)

pub insert-IsKeyed :
    (k : String) (u : UnackEval) (m : Map UnackEval)
    → u.eval.id ≡ k
    → IsKeyed m
    → IsKeyed (insert k u m)
unfolding insert
insert-IsKeyed k u [] e v = (e, tt)
insert-IsKeyed k u ((j, w) ∷ m) e v = ground (arith, eq_iff j k, insert-IsKeyed k u m e v.1)

pub lookup-IsKeyed :
    (k : String) (u : UnackEval) (m : Map UnackEval)
    → IsKeyed m
    → lookup k m ≡ some u
    → (u.eval.id ≡ k) × (0 < count_unack k m)
unfolding lookup
lookup-IsKeyed k u [] v h = cc
lookup-IsKeyed k u ((j, w) ∷ m) v h =
    ground (arith, eq_iff j k, eq_iff w.eval.id k, lookup-IsKeyed k u m v.1)

pub count_unack-eq-zero :
    (k : String) (m : Map UnackEval) → IsKeyed m → lookup k m ≡ none → count_unack k m ≡ 0
unfolding lookup
count_unack-eq-zero k [] v h = refl
count_unack-eq-zero k ((j, w) ∷ m) v h =
    ground (arith, eq_iff j k, eq_iff w.eval.id k, count_unack-eq-zero k m v.1)

pub count_unack-delete :
    (id k : String) (m : Map UnackEval)
    → IsKeyed m
    → count_unack id (delete k m) ≡ (if str_eq k id then 0 else count_unack id m)
unfolding delete
count_unack-delete id k [] v = ground arith
count_unack-delete id k ((j, w) ∷ m) v =
    ground (arith, eq_iff j k, eq_iff k id, eq_iff w.eval.id id, count_unack-delete id k m v.1)

pub count_unack-insert :
    (id k : String) (u : UnackEval) (m : Map UnackEval)
    → IsKeyed m
    → u.eval.id ≡ k
    → lookup k m ≡ none
    → count_unack id (insert k u m) ≡ count_unack id m + has_id id u.eval
unfolding insert lookup
count_unack-insert id k u [] v e h = omega arith
count_unack-insert id k u ((j, w) ∷ m) v e h = ground (arith, count_unack-insert id k u m v.1 e)

pub count_unack-overwrite :
    (id k : String) (u w : UnackEval) (m : Map UnackEval)
    → IsKeyed m
    → w.eval.id ≡ k
    → lookup k m ≡ some u
    → count_unack id (insert k w m) ≡ count_unack id m
unfolding insert lookup
count_unack-overwrite id k u w [] v e h = cc
count_unack-overwrite id k u w ((j, x) ∷ m) v e h =
    ground (arith, eq_iff j k, count_unack-overwrite id k u w m v.1 e)

pub count_pending_of :
    (id queue : String) (m : Map (List ScalingEvaluation))
    → count id (pending_of queue m) ≤ count_pending id m
unfolding lookup
count_pending_of id queue [] = omega arith
count_pending_of id queue ((j, q) ∷ m) = ground (arith, count_pending_of id queue m)
