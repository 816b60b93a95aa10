-- ===== src/Heap/Down.antt =====
-- `down` and the order of the heap.
use mathlib.Core.List.Perm
use nomad_autoscaler.Prelude.{
  ℕ, zero, suc, ◌+◌, ◌*◌, ◌≤◌, ◌<◌, ◌≡◌, refl, ◌∙◌, ◌⊎◌, Bool, true, false, not, ◌||◌, List, Perm,
  arith, length, Bool-cases, inl, inr, leb,
}
use nomad_autoscaler.Heap.{parent, less_at, lesser_child, down_loop}
use nomad_autoscaler.Heap.Array.{entry, swap, length-swap, entry-swap, swap-perm}
use nomad_autoscaler.Heap.Order.{
  IsStrictOrder, InOrder, IsHeap, IsBroken, IsRising, IsSinking, IsSinking-IsBroken, irreflexive,
}

module _ {A : Type 0} (missing : A) (less : A → A → Bool) where
  pub lesser_child_bounds :
      (p : List A) (i n : ℕ)
      → 2 * i + 1 < n
      → (i < lesser_child missing less p i n)
        × (lesser_child missing less p i n < n)
        × (parent (lesser_child missing less p i n) ≡ i)
  unfolding lesser_child
  lesser_child_bounds p i n h = ground arith

  -- The test that ends the loop.
  abbrev pub stops : List A → ℕ → ℕ → Bool
  stops p i n =
      leb n (2 * i + 1) || not (less_at missing less p (lesser_child missing less p i n) i)

  -- What the loop leaves alone: the entries from `n` on, and the entries as a whole.
  pub record Keeps (p : List A) (i n : ℕ) (r : List A × ℕ) : Type 0 where
    pub perm : Perm r.0 p
    pub behind : (c : ℕ) → n ≤ c → entry missing r.0 c ≡ entry missing p c
    pub grows : i ≤ r.1

  Keeps-swap :
      (p : List A) (i n : ℕ) (r : List A × ℕ)
      → n ≤ length p
      → 2 * i + 1 < n
      → Keeps
          (swap missing p i (lesser_child missing less p i n))
          (lesser_child missing less p i n)
          n
          r
      → Keeps p i n r
  Keeps-swap p i n r s b v =
      let j = lesser_child missing less p i n in
      let (above, inside, child) = lesser_child_bounds p i n b in
      record {
        perm = Perm.trans v.perm (swap-perm missing p i j (omega arith) (omega arith));
        behind = λ c h.
            v.behind c h ∙ ground (arith, entry-swap missing p i j (omega arith) (omega arith) c);
        grows = omega (arith, v.grows);
      }

  pub down_loop-Keeps :
      (f : ℕ) (p : List A) (i n : ℕ) → n ≤ length p → Keeps p i n (down_loop missing less f p i n)
  unfolding down_loop
  down_loop-Keeps zero p i n s = record {
    perm = Perm.rfl;
    behind = λ c h. refl;
    grows = omega arith;
  }
  down_loop-Keeps (suc f) p i n s = elim (Bool-cases (stops p i n)) [
    | inl stop ↦ rw stop (record { perm = Perm.rfl; behind = λ c h. refl; grows = omega arith })
    | inr go ↦ rw go (
        Keeps-swap p i n _ s (ground arith) (
          down_loop-Keeps f (swap missing p i (lesser_child missing less p i n))
            (lesser_child missing less p i n) n
            (omega (arith, length-swap missing p i (lesser_child missing less p i n)))))
  ]

  module _ (order : IsStrictOrder less) where
    lesser_child_least :
        (p : List A) (i n c : ℕ)
        → 0 < c
        → c < n
        → parent c ≡ i
        → InOrder missing less p (lesser_child missing less p i n) c
    unfolding lesser_child
    lesser_child_least p i n c z b e =
        let left = 2 * i + 1 in
        ground (
          arith,
          irreflexive missing less order (entry missing p c),
          order.asymmetric (entry missing p (left + 1)) (entry missing p left),
        )

    -- Where the loop ends, the children of `i` are in order.
    settled :
        (p : List A) (i n c : ℕ)
        → stops p i n ≡ true
        → 0 < c
        → c < n
        → parent c ≡ i
        → InOrder missing less p i c
    settled p i n c stop z b e =
        let j = lesser_child missing less p i n in
        order.tie_trans (entry missing p i) (entry missing p j) (entry missing p c) (ground arith)
          (lesser_child_least p i n c z b e)

    IsBroken-swap :
        (p : List A) (i n : ℕ)
        → n ≤ length p
        → stops p i n ≡ false
        → IsBroken missing less n p i
        → IsSinking missing less n
            (swap missing p i (lesser_child missing less p i n))
            (lesser_child missing less p i n)
    IsBroken-swap p i n s go v =
        let j = lesser_child missing less p i n in
        let b : 2 * i + 1 < n = ground arith in
        let l : less (entry missing p j) (entry missing p i) ≡ true = ground arith in
        let (above, inside, child) = lesser_child_bounds p i n b in
        let at = entry-swap missing p i j (omega arith) (omega arith) in
        record {
          edges = λ c h k d. ground (
            arith,
            at c,
            at (parent c),
            order.asymmetric (entry missing p j) (entry missing p i) l,
            lesser_child_least p i n c,
            v.edges c,
            v.bridged j,
          );
          bridged = λ c h k d e. ground (arith, at c, at (parent j), v.edges c);
        }

    pub down_loop-IsHeap :
        (f : ℕ) (p : List A) (i n : ℕ)
        → n ≤ length p
        → n ≤ i + f
        → IsSinking missing less n p i
        → IsHeap missing less n (down_loop missing less f p i n).0
    unfolding down_loop
    down_loop-IsHeap zero p i n s t v = λ c h k. v.edges c h k (omega arith)
    down_loop-IsHeap (suc f) p i n s t v = elim (Bool-cases (stops p i n)) [
      | inl stop ↦ rw stop (λ c h k. ground (arith, v.edges c h k, settled p i n c stop h k))
      | inr go ↦ rw go (
          down_loop-IsHeap f (swap missing p i (lesser_child missing less p i n))
            (lesser_child missing less p i n) n
            (omega (arith, length-swap missing p i (lesser_child missing less p i n)))
            (omega (arith, lesser_child_bounds p i n (ground arith)))
            (IsBroken-swap p i n s go (IsSinking-IsBroken missing less n p i v)))
    ]

    -- `Fix` first lets the entry sink: either it stays and may only have to rise, or it moves and
    -- a heap is left.
    pub down_loop_broken :
        (p : List A) (i : ℕ)
        → IsBroken missing less (length p) p i
        → let r = down_loop missing less (suc (length p)) p i (length p) in
          ((r ≡ (p, i)) × IsRising missing less (length p) p i)
          ⊎ ((i < r.1) × IsHeap missing less (length p) r.0)
    unfolding down_loop
    down_loop_broken p i v = elim (Bool-cases (stops p i (length p))) [
      | inl stop ↦ rw stop (
          inl (
            refl,
            record {
              edges = λ c h k d. ground (arith, v.edges c h k d, settled p i (length p) c stop h k);
              bridged = v.bridged;
            },
          ))
      | inr go ↦
          let j = lesser_child missing less p i (length p) in
          let q = swap missing p i j in
          let same = length-swap missing p i j in
          let above = (lesser_child_bounds p i (length p) (ground arith)).0 in
          rw go (
            inr (
              omega (
                arith,
                above,
                (down_loop-Keeps (length p) q j (length p) (omega (arith, same))).grows,
              ),
              down_loop-IsHeap (length p) q j (length p) (omega (arith, same)) (omega arith)
                  (IsBroken-swap p i (length p) (omega arith) go v),
            ))
    ]
