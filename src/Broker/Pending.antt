-- ===== src/Broker/Pending.antt =====
-- `PendingEvaluations`: the order of the heap, and the search in it. A missing entry stands for nil.
use nomad_autoscaler.Prelude.{
  ℕ, suc, String, ◌≡◌, Bool, not, List, [], ◌∷◌, Option, none, some, ltb, eqb_ℤ, ltb_ℤ,
  if◌then◌else◌, str_eq, arith, eq_iff, length, ◌<◌, Bool-cases, Option-cases, inl, inr, ◌<ℤ◌, ◌⊎◌,
  ◌≤◌, false,
}
use nomad_autoscaler.Sdk.Policy.{zero_policy}
use nomad_autoscaler.Sdk.Eval.{ScalingEvaluation}
use nomad_autoscaler.Heap.Array.{entry}
use nomad_autoscaler.Heap.Order.{IsStrictOrder}

abbrev pub no_eval : ScalingEvaluation
no_eval = record {
  id = "";
  policy = zero_policy;
  target_status = none;
  check_evaluations = [];
  create_time = 0;
}

-- A higher priority comes first, and then an earlier creation.
unfoldable pub less : ScalingEvaluation → ScalingEvaluation → Bool
less a b =
    if not (eqb_ℤ a.policy.priority b.policy.priority)
    then not (ltb_ℤ a.policy.priority b.policy.priority)
    else ltb a.create_time b.create_time

-- The first evaluation is not behind the second: it has a higher priority, or the same priority and
-- no later creation.
abbrev pub GoesFirst : ScalingEvaluation → ScalingEvaluation → Type 0
GoesFirst e x =
    (x.policy.priority <ℤ e.policy.priority)
    ⊎ ((x.policy.priority ≡ e.policy.priority) × (e.create_time ≤ x.create_time))

pub less-GoesFirst : (e x : ScalingEvaluation) → less x e ≡ false → GoesFirst e x
unfolding less
less-GoesFirst e x h = ground arith

abbrev next_index : Option (ℕ × ScalingEvaluation) → Option (ℕ × ScalingEvaluation)
next_index none = none
next_index (some (i, e)) = some (suc i, e)

-- `none` for the pair of -1 and nil.
unfoldable pub get_evaluation : String → List ScalingEvaluation → Option (ℕ × ScalingEvaluation)
get_evaluation id [] = none
get_evaluation id (e ∷ p) = if str_eq e.id id then some (0, e) else next_index (get_evaluation id p)

-- What the search finds is the entry at its index, and has the ID.
pub get_evaluation-entry :
    (id : String) (p : List ScalingEvaluation) (i : ℕ) (e : ScalingEvaluation)
    → get_evaluation id p ≡ some (i, e)
    → (i < length p) × (entry no_eval p i ≡ e) × (e.id ≡ id)
unfolding get_evaluation
get_evaluation-entry id [] i e h = cc
get_evaluation-entry id (x ∷ p) i e h = elim (Bool-cases (str_eq x.id id)) [
  | inl hit ↦ ground (arith, eq_iff x.id id)
  | inr miss ↦ elim (Option-cases (get_evaluation id p)) [
    | inl nothing ↦ ground arith
    | inr ((j, y), found) ↦
        let at = get_evaluation-entry id p j y found in
        let shifted : (i ≡ suc j) × (e ≡ y) = (ground arith, ground arith) in
        rw (shifted.0, shifted.1) (omega (arith, at), at.1, at.2)
  ]
]

-- `Less` orders the evaluations up to ties, as the heap needs it.
pub less-IsStrictOrder : IsStrictOrder less
unfolding less
less-IsStrictOrder = record {
  asymmetric = λ a b h. ground arith;
  tie_trans = λ a b c h k. ground arith;
}
