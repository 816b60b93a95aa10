-- ===== src/Heap/Up.antt =====
-- `up` and the order of the heap.
use mathlib.Core.List.Perm
use nomad_autoscaler.Prelude.{
  ℕ, zero, suc, ◌<◌, ◌≡◌, Bool, true, List, Perm, arith, length, Bool-cases, inl, inr, ◌==◌, ◌||◌,
  not,
}
use nomad_autoscaler.Heap.{parent, less_at, up_loop}
use nomad_autoscaler.Heap.Array.{entry, swap, length-swap, entry-swap, swap-perm}
use nomad_autoscaler.Heap.Order.{IsStrictOrder, InOrder, IsHeap, IsRising, irreflexive}

module _ {A : Type 0} (missing : A) (less : A → A → Bool) where
  pub up_loop-perm :
      (f : ℕ) (p : List A) (j : ℕ) → j < length p → Perm (up_loop missing less f p j) p
  unfolding up_loop
  up_loop-perm zero p j h = Perm.rfl
  up_loop-perm (suc f) p j h =
      let up' =
        up_loop-perm f (swap missing p (parent j) j) (parent j)
          (omega (arith, length-swap missing p (parent j) j)) in
      ground
        (arith, Perm.rfl {l = p}, Perm.trans up' (swap-perm missing p (parent j) j (omega arith) h))

  module _ (order : IsStrictOrder less) where
    IsRising-stop :
        (n : ℕ) (p : List A) (j : ℕ)
        → IsRising missing less n p j
        → InOrder missing less p (parent j) j
        → IsHeap missing less n p
    IsRising-stop n p j v o = λ c h k. ground (arith, v.edges c)

    IsRising-swap :
        (n : ℕ) (p : List A) (j : ℕ)
        → n ≡ length p
        → 0 < j
        → j < n
        → IsRising missing less n p j
        → less (entry missing p j) (entry missing p (parent j)) ≡ true
        → IsRising missing less n (swap missing p (parent j) j) (parent j)
    IsRising-swap n p j s z b v l =
        let i = parent j in
        let at = entry-swap missing p i j (omega arith) (omega arith) in
        let asym = order.asymmetric (entry missing p j) (entry missing p i) l in
        let trans = order.tie_trans in
        record {
          edges = λ c h k d. ground (
            arith,
            at c,
            at (parent c),
            asym,
            v.edges c,
            v.bridged c,
            trans (entry missing p j) (entry missing p i) (entry missing p c),
          );
          bridged = λ c h k d e. ground (
            arith,
            at c,
            at (parent i),
            v.edges c,
            v.edges i,
            trans (entry missing p (parent i)) (entry missing p i) (entry missing p c),
          );
        }

    pub up_loop-IsHeap :
        (f n : ℕ) (p : List A) (j : ℕ)
        → n ≡ length p
        → j < n
        → j < f
        → IsRising missing less n p j
        → IsHeap missing less n (up_loop missing less f p j)
    unfolding up_loop
    up_loop-IsHeap zero n p j s b t v = absurd (omega arith)
    up_loop-IsHeap (suc f) n p j s b t v =
        elim (Bool-cases (parent j == j || not (less_at missing less p j (parent j)))) [
          | inl stop ↦ rw stop (
              IsRising-stop n p j v
                (ground (arith, irreflexive missing less order (entry missing p j))))
          | inr go ↦ rw go (
              up_loop-IsHeap f n (swap missing p (parent j) j) (parent j)
                (omega (arith, length-swap missing p (parent j) j)) (omega arith) (ground arith)
                (IsRising-swap n p j s (ground arith) b v (ground arith)))
        ]
