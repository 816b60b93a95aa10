-- ===== src/Worker/Dominance.antt =====
-- The winner of the checks' actions beside the others.
use nomad_autoscaler.Prelude.{
  ℕ, zero, suc, ◌+◌, ◌≡◌, refl, inl, inr, List, [], ◌∷◌, get_elem?, some, Bool-cases, Option-cases,
  arith, subst, sym,
}
use nomad_autoscaler.Sdk.Policy.{ScalingPolicy, TargetStatus}
use nomad_autoscaler.Sdk.Action.{ScalingAction, preempt_scaling_action}
use nomad_autoscaler.Sdk.Action.Precedence.{Yields, Yields-trans, preempt-Yields}
use nomad_autoscaler.Sdk.Eval.{ScalingCheckEvaluation}
use nomad_autoscaler.Worker.Check.{
  Environment, CheckOutcome, cancelled, check_failed, proposed, start,
}
use nomad_autoscaler.Worker.{Stops, Winner, reconcile, reconcile_with, run_checks}

-- There is a winner, and `a` yields to it.
abbrev pub YieldsTo : ScalingAction → Winner → Type 0
YieldsTo a w = (x : ScalingAction) × (w.action ≡ some x) × Yields a x

Yields-refl : (a : ScalingAction) → Yields a a
Yields-refl a = inr (refl, inr (ground arith))

reconcile-kept :
    (c : ScalingCheckEvaluation) (o : CheckOutcome) (w : Winner) (a : ScalingAction)
    → YieldsTo a w
    → YieldsTo a (reconcile c o w)
unfolding reconcile reconcile_with preempt_scaling_action
reconcile-kept c (check_failed e) w a v = v
reconcile-kept c cancelled w a (x, e, y) = rw e (x, refl, y)
reconcile-kept c (proposed b) w a (x, e, y) =
    let (z, won, _, over, _) = preempt-Yields (some x) (some b) in
    rw e (z, won, Yields-trans a x z y over)

reconcile-added :
    (c : ScalingCheckEvaluation) (b : ScalingAction) (w : Winner)
    → YieldsTo b (reconcile c (proposed b) w)
unfolding reconcile reconcile_with preempt_scaling_action
reconcile-added c b w = elim (Option-cases w.action) [
  | inl e ↦ rw e (b, refl, Yields-refl b)
  | inr (x, e) ↦ let (z, won, _, _, over) = preempt-Yields (some x) (some b) in rw e (z, won, over)
]

module _ (env : Environment) (stops : Stops) (p : ScalingPolicy) (status : TargetStatus) where
  -- The loop goes on where it does not stop and the check handler returns.
  run_checks-goes_on :
      (i : ℕ) (c : ScalingCheckEvaluation) (cs : List ScalingCheckEvaluation) (w w' : Winner)
      → run_checks env stops p status i (c ∷ cs) w ≡ some (some w')
      → (o : CheckOutcome) × (start env p c i status ≡ some o)
        × (run_checks env stops p status (suc i) cs (reconcile c o w) ≡ some (some w'))
  unfolding run_checks
  run_checks-goes_on i c cs w w' h = elim (Bool-cases (stops.at_check i)) [
    | inl stop ↦ cc (rw stop at h)
    | inr on ↦ elim (Option-cases (start env p c i status)) [
      | inl panic ↦ cc (rw (on, panic) at h)
      | inr (o, e) ↦ (o, e, rw (on, e) at h)
    ]
  ]

  run_checks-kept :
      (i : ℕ) (cs : List ScalingCheckEvaluation) (w w' : Winner) (a : ScalingAction)
      → run_checks env stops p status i cs w ≡ some (some w')
      → YieldsTo a w
      → YieldsTo a w'
  unfolding run_checks
  run_checks-kept i [] w w' a h v = let same : w ≡ w' = cc in subst (YieldsTo a) same v
  run_checks-kept i (c ∷ cs) w w' a h v =
      let (o, _, rest) = run_checks-goes_on i c cs w w' h in
      run_checks-kept (suc i) cs (reconcile c o w) w' a rest (reconcile-kept c o w a v)

  moved :
      {m n : ℕ} (c : ScalingCheckEvaluation) (b : ScalingAction)
      → m ≡ n
      → start env p c m status ≡ some (proposed b)
      → start env p c n status ≡ some (proposed b)
  moved c b e s = subst (λ n. start env p c n status ≡ some (proposed b)) e s

  -- Where the loop over the checks ends, each action that a check handler proposed yields to the
  -- winner: the winner's direction is safer, or it is the same and, where there is one, the winner's
  -- count is at least as high.
  pub run_checks-YieldsTo :
      (i : ℕ) (cs : List ScalingCheckEvaluation) (w w' : Winner) (j : ℕ)
      (c : ScalingCheckEvaluation) (b : ScalingAction)
      → run_checks env stops p status i cs w ≡ some (some w')
      → get_elem? cs j ≡ some c
      → start env p c (i + j) status ≡ some (proposed b)
      → YieldsTo b w'
  run_checks-YieldsTo i [] w w' j c b h at s = cc
  run_checks-YieldsTo i (d ∷ cs) w w' zero c b h at s =
      let (o, e, rest) = run_checks-goes_on i d cs w w' h in
      let same : d ≡ c = cc in
      let mine : start env p d i status ≡ some (proposed b) =
        subst (λ x. start env p x i status ≡ some (proposed b)) (sym same)
          (moved c b (omega arith) s) in
      let won : o ≡ proposed b = cc in
      run_checks-kept (suc i) cs (reconcile d o w) w' b rest
        (subst (λ x. YieldsTo b (reconcile d x w)) (sym won) (reconcile-added d b w))
  run_checks-YieldsTo i (d ∷ cs) w w' (suc j) c b h at s =
      let (o, _, rest) = run_checks-goes_on i d cs w w' h in
      run_checks-YieldsTo (suc i) cs (reconcile d o w) w' j c b rest at (moved c b (omega arith) s)
