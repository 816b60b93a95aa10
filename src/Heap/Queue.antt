-- ===== src/Heap/Queue.antt =====
-- `Push`, `Pop` and `Fix` on a heap.
use mathlib.Core.List.{perm_middle, append-nil}
use mathlib.Core.List.Perm
use nomad_autoscaler.Prelude.{
  ℕ, suc, ◌-◌, ◌≤◌, ◌<◌, ◌≡◌, refl, ◌∙◌, ◌⊎◌, inl, inr, Bool, false, List, [], ◌∷◌, ◌++◌, Perm,
  arith, length, set, take, length-append, length-take, length-perm, length-set, ltb, lt→ltb,
  if◌then◌else◌,
}
use nomad_autoscaler.Heap.{parent, up_loop, down_loop, push, pop, fix}
use nomad_autoscaler.Heap.Array.{
  entry, swap, length-swap, entry-swap, swap-perm, entry-append, entry-take, entry-set, perm_last,
}
use nomad_autoscaler.Heap.Order.{IsStrictOrder, IsHeap, IsBroken, IsRising, IsSinking, root_least}
use nomad_autoscaler.Heap.Up.{up_loop-perm, up_loop-IsHeap}
use nomad_autoscaler.Heap.Down.{Keeps, down_loop-Keeps, down_loop-IsHeap, down_loop_broken}

ltb_irrefl : (i : ℕ) → ltb i i ≡ false
ltb_irrefl i = ground arith

module _ {A : Type 0} (missing : A) (less : A → A → Bool) where
  -- The whole slice is a heap.
  abbrev pub IsQueue : List A → Type 0
  IsQueue p = IsHeap missing less (length p) p

  pub push-perm : (p : List A) (x : A) → Perm (push missing less p x) (x ∷ p)
  unfolding push
  push-perm p x =
      Perm.trans
        (up_loop-perm missing less (suc (length p)) (p ++ x ∷ []) (length p)
          (omega (arith, length-append p (x ∷ []))))
        (rw append-nil at (perm_middle {a = x} p []))

  pub fix-perm : (p : List A) (i : ℕ) → i < length p → Perm (fix missing less p i) p
  unfolding fix
  fix-perm p i h =
      let sunk = down_loop-Keeps missing less (suc (length p)) p i (length p) (omega arith) in
      let q = (down_loop missing less (suc (length p)) p i (length p)).0 in
      ground (
        arith,
        sunk.perm,
        Perm.trans (up_loop-perm missing less (suc i) q i (omega (arith, length-perm sunk.perm)))
            sunk.perm,
      )

  -- `Pop` after its call of `down`, whose result is `r`.
  pop_parts :
      (p : List A) (n : ℕ) (r : List A × ℕ)
      → length p ≡ suc n
      → Keeps missing less (swap missing p 0 n) 0 n r
      → (entry missing r.0 n ≡ entry missing p 0) × Perm (entry missing r.0 n ∷ take n r.0) p
  pop_parts p n r s v =
      let swapped = swap-perm missing p 0 n (omega arith) (omega arith) in
      let whole = Perm.trans v.perm swapped in
      (
        v.behind n (omega arith)
            ∙ ground (arith, entry-swap missing p 0 n (omega arith) (omega arith) n),
        Perm.trans (perm_last missing n r.0 (omega (arith, length-perm whole))) whole,
      )

  -- `Pop` on a slice that is not empty gives its first entry and keeps the others.
  pub pop-perm :
      (p : List A)
      → 0 < length p
      → let (x, q) = pop missing less p in (x ≡ entry missing p 0) × Perm (x ∷ q) p
  unfolding pop
  pop-perm p h =
      let n = length p - 1 in
      pop_parts p n (down_loop missing less (suc n) (swap missing p 0 n) 0 n) (omega arith) (
        down_loop-Keeps missing less (suc n) (swap missing p 0 n) 0 n
          (omega (arith, length-swap missing p 0 n)))

  module _ (order : IsStrictOrder less) where
    pushed_rises :
        (p : List A) (x : A)
        → IsQueue p
        → IsRising missing less (suc (length p)) (p ++ x ∷ []) (length p)
    pushed_rises p x v =
        let at = entry-append missing p x in
        record {
          edges = λ c h k d. ground (arith, at c, at (parent c), v c);
          bridged = λ c h k d e. absurd (omega arith);
        }

    pub push-IsQueue : (p : List A) (x : A) → IsQueue p → IsQueue (push missing less p x)
    unfolding push
    push-IsQueue p x v =
        let grown : suc (length p) ≡ length (p ++ x ∷ []) =
          omega (arith, length-append p (x ∷ [])) in
        let same = length-perm (push-perm p x) in
        rw same (
          up_loop-IsHeap missing less order (suc (length p)) (suc (length p)) (p ++ x ∷ [])
            (length p) grown (omega arith) (omega arith) (pushed_rises p x v))

    -- The heap without its root, before the last entry sinks from there.
    swapped_sinks :
        (p : List A) (n : ℕ)
        → length p ≡ suc n
        → IsQueue p
        → IsSinking missing less n (swap missing p 0 n) 0
    swapped_sinks p n s v =
        let at = entry-swap missing p 0 n (omega arith) (omega arith) in
        record {
          edges = λ c h k d. ground (arith, at c, at (parent c), v c);
          bridged = λ c h k d e. absurd (omega arith);
        }

    cut-IsHeap : (n : ℕ) (q : List A) → n ≤ length q → IsHeap missing less n q → IsQueue (take n q)
    cut-IsHeap n q b v = λ c h k.
        let inside : c < n = omega (arith, length-take n q) in
        ground (arith, entry-take missing n q c, entry-take missing n q (parent c), v c h inside)

    pub pop-IsQueue : (p : List A) → 0 < length p → IsQueue p → IsQueue (pop missing less p).1
    unfolding pop
    pop-IsQueue p h v =
        let n = length p - 1 in
        let s = length-swap missing p 0 n in
        let kept =
          down_loop-Keeps missing less (suc n) (swap missing p 0 n) 0 n (omega (arith, s)) in
        cut-IsHeap n _ (omega (arith, s, length-perm kept.perm)) (
          down_loop-IsHeap missing less order (suc n) (swap missing p 0 n) 0 n (omega (arith, s))
            (omega arith) (swapped_sinks p n (omega arith) v))

    -- No entry is before the one that `Pop` gives out.
    pub pop-least :
        (p : List A) (c : ℕ)
        → IsQueue p
        → c < length p
        → less (entry missing p c) (pop missing less p).0 ≡ false
    pop-least p c v h =
        rw (pop-perm p (omega arith)).0 (root_least missing less order (length p) p c v h)

    overwritten-IsBroken :
        (p : List A) (i : ℕ) (x : A)
        → i < length p
        → IsQueue p
        → IsBroken missing less (length p) (set p i x) i
    overwritten-IsBroken p i x b v =
        let at = λ (c : ℕ). entry-set missing p i c x b in
        record {
          edges = λ c h k d e. ground (arith, at c, at (parent c), v c);
          bridged = λ c h k e z. ground (
            arith,
            at c,
            at (parent i),
            v c,
            v i,
            order.tie_trans (entry missing p (parent i)) (entry missing p i) (entry missing p c),
          );
        }

    -- `Fix` on the result `r` of its `down`.
    fix_parts :
        (p : List A) (i : ℕ) (r : List A × ℕ)
        → i < length p
        → ((r ≡ (p, i)) × IsRising missing less (length p) p i)
          ⊎ ((i < r.1) × IsHeap missing less (length p) r.0)
        → IsHeap missing less
            (length p)
            (if ltb i r.1 then r.0 else up_loop missing less (suc i) r.0 i)
    fix_parts p i r b (inl (e, v)) = rw e (
        rw (ltb_irrefl i)
          (up_loop-IsHeap missing less order (suc i) (length p) p i refl b (omega arith) v))
    fix_parts p i r b (inr (above, v)) = rw (lt→ltb i r.1 above) v

    pub fix-IsQueue :
        (p : List A) (i : ℕ)
        → i < length p
        → IsBroken missing less (length p) p i
        → IsQueue (fix missing less p i)
    fix-IsQueue p i b v = rw (length-perm (fix-perm p i b)) (
        unfold fix in
        (fix_parts p i (down_loop missing less (suc (length p)) p i (length p)) b
          (down_loop_broken missing less order p i v)))

    -- `Fix` after one entry has been replaced.
    pub fix-set-IsQueue :
        (p : List A) (i : ℕ) (x : A)
        → i < length p
        → IsQueue p
        → IsQueue (fix missing less (set p i x) i)
    fix-set-IsQueue p i x b v =
        fix-IsQueue (set p i x) i (rw length-set b) (rw length-set (overwritten-IsBroken p i x b v))
