-- ===== src/Sdk/Action/Precedence.antt =====
-- `PreemptScalingAction` of sdk/strategy.go.
use nomad_autoscaler.Prelude.{ℕ, ◌<◌, Option, none, ◌≡◌, refl, ◌⊎◌, inl, inr, some, ◌≤ℤ◌, arith}
use nomad_autoscaler.Sdk.Action.{
  ScaleDirection, up, down, ScalingAction, Pick, first, second, none_needed, preempt_pick,
  preempt_scaling_action,
}

-- To scale up is safer than to stay, and that is safer than to scale down.
abbrev pub safety : ScaleDirection → ℕ
safety down = 0
safety none_needed = 1
safety up = 2

-- `b` takes precedence over `a`, or is as good: its direction is safer, or the directions are
-- equal and, where there is one, its count is at least as high.
abbrev pub Yields : ScalingAction → ScalingAction → Type 0
Yields a b =
    (safety a.direction < safety b.direction)
    ⊎ ((a.direction ≡ b.direction) × ((a.direction ≡ none_needed) ⊎ (a.count ≤ℤ b.count)))

pub Yields-trans : (a b c : ScalingAction) → Yields a b → Yields b c → Yields a c
Yields-trans a b c h k = ground arith

pub Pick-cases : (p : Pick) → (p ≡ first) ⊎ (p ≡ second)
Pick-cases first = inl refl
Pick-cases second = inr refl

preempt-both :
    (a b : ScalingAction)
    → (w : ScalingAction) × (preempt_scaling_action (some a) (some b) ≡ some w)
      × ((w ≡ a) ⊎ (w ≡ b))
      × Yields a w
      × Yields b w
unfolding preempt_scaling_action
preempt-both a b = elim (Pick-cases (preempt_pick (some a) (some b))) [
  | inl e ↦ (a, rw e, inl refl, ground arith, ground arith)
  | inr e ↦ (b, rw e, inr refl, ground arith, ground arith)
]

-- What wins of two actions, either of which may be missing.
abbrev pub Wins : Option ScalingAction → Option ScalingAction → Option ScalingAction → Type 0
Wins none b r = r ≡ b
Wins (some a) none r = r ≡ some a
Wins (some a) (some b) r =
    (w : ScalingAction) × (r ≡ some w) × ((w ≡ a) ⊎ (w ≡ b)) × Yields a w × Yields b w

-- If an action is nil, the other one wins. Otherwise one of the two wins, and both yield to it: for each,
-- its direction is less safe than the winner's, or the directions are the same and, unless no scaling
-- is needed, its count is at most the winner's. Up is the safest direction, and down the least safe.
pub preempt-Yields : (a b : Option ScalingAction) → Wins a b (preempt_scaling_action a b)
unfolding preempt_scaling_action
preempt-Yields none b = refl
preempt-Yields (some a) none = refl
preempt-Yields (some a) (some b) = preempt-both a b
