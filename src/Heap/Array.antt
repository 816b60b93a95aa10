-- ===== src/Heap/Array.antt =====
-- Reads, writes and swaps of a slice, and what they leave in place.
use mathlib.Core.List.{perm_middle, append-nil}
use mathlib.Core.List.Perm
use nomad_autoscaler.Prelude.{
  ℕ, zero, suc, ◌<◌, ◌≤◌, ◌≡◌, refl, ap, List, [], ◌∷◌, ◌++◌, Perm, arith, length, get_or, set,
  take, length-set, ◌==◌, if◌then◌else◌,
}

module _ {A : Type 0} (missing : A) where
  abbrev pub entry : List A → ℕ → A
  entry p i = get_or p i missing

  unfoldable pub swap : List A → ℕ → ℕ → List A
  swap p i j = set (set p i (entry p j)) j (entry p i)

  pub entry-set :
      (p : List A) (i c : ℕ) (x : A)
      → i < length p
      → entry (set p i x) c ≡ (if i == c then x else entry p c)
  entry-set [] i c x h = absurd (omega arith)
  entry-set (y ∷ p) zero zero x h = refl
  entry-set (y ∷ p) zero (suc c) x h = ground arith
  entry-set (y ∷ p) (suc i) zero x h = ground arith
  entry-set (y ∷ p) (suc i) (suc c) x h = ground (arith, entry-set p i c x)

  pub entry-append :
      (p : List A) (x : A) (c : ℕ)
      → c ≤ length p
      → entry (p ++ x ∷ []) c ≡ (if c == length p then x else entry p c)
  entry-append [] x zero h = refl
  entry-append [] x (suc c) h = absurd (omega arith)
  entry-append (y ∷ p) x zero h = ground arith
  entry-append (y ∷ p) x (suc c) h = ground (arith, entry-append p x c)

  pub entry-take : (n : ℕ) (p : List A) (c : ℕ) → c < n → entry (take n p) c ≡ entry p c
  entry-take zero p c h = absurd (omega arith)
  entry-take (suc n) [] c h = refl
  entry-take (suc n) (x ∷ p) zero h = refl
  entry-take (suc n) (x ∷ p) (suc c) h = entry-take n p c (omega arith)

  pub take-append-entry : (n : ℕ) (p : List A) → length p ≡ suc n → take n p ++ entry p n ∷ [] ≡ p
  take-append-entry n [] h = absurd (omega arith)
  take-append-entry zero (x ∷ []) h = refl
  take-append-entry zero (x ∷ y ∷ p) h = absurd (omega arith)
  take-append-entry (suc n) (x ∷ p) h = ap (◌∷◌ x) (take-append-entry n p (omega arith))

  -- The entry at the end comes to the front.
  pub perm_last : (n : ℕ) (p : List A) → length p ≡ suc n → Perm (entry p n ∷ take n p) p
  perm_last n p h =
      rw (take-append-entry n p h) at
        (rw append-nil at (Perm.symm (perm_middle {a = entry p n} (take n p) [])))

  -- A write gives out the old entry and takes in the new one.
  perm_set : (p : List A) (i : ℕ) (x : A) → i < length p → Perm (entry p i ∷ set p i x) (x ∷ p)
  perm_set [] i x h = absurd (omega arith)
  perm_set (y ∷ p) zero x h = Perm.swap x y p
  perm_set (y ∷ p) (suc i) x h =
      Perm.trans (Perm.swap y (entry p i) (set p i x))
        (Perm.trans (Perm.cons y (perm_set p i x (omega arith))) (Perm.swap x y p))

  pub length-swap : (p : List A) (i j : ℕ) → length (swap p i j) ≡ length p
  unfolding swap
  length-swap p i j = simp length-set

  module _ (p : List A) (i j : ℕ) (hi : i < length p) (hj : j < length p) where
    pub entry-swap :
        (c : ℕ)
        → entry (swap p i j) c
          ≡ (if j == c then entry p i else if i == c then entry p j else entry p c)
    unfolding swap
    entry-swap c = rw (
      entry-set (set p i (entry p j)) j c (entry p i) (rw length-set hj),
      entry-set p i c (entry p j) hi,
    )

    pub swap-perm : Perm (swap p i j) p
    unfolding swap
    swap-perm =
        let q = set p i (entry p j) in
        let old : entry q j ≡ entry p j = ground (arith, entry-set p i j (entry p j)) in
        Perm.cons_inv (
          Perm.trans (rw old at (perm_set q j (entry p i) (rw length-set hj)))
            (perm_set p i (entry p j) hi))
