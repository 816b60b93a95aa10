-- ===== src/Prelude/Totals.antt =====
-- Sums over a list, which see a list up to its order.
use Prim.Native.Nat.{ℕ, zero, suc, ◌+◌, ◌<◌, ◌≤◌}
use mathlib.Core.Path.{◌≡◌, refl, ◌∙◌}
use mathlib.Core.Logic.{∥∥₁_elim}
use mathlib.Core.List.{List, [], ◌∷◌, ◌++◌, Perm, Permᴰ}
use native.Mathlib.Nat.{ℕ_set}
use native.Mathlib.Omega.{arith}
use nomad_autoscaler.Prelude.Lists.{length, get_or, set}

module _ {ℓ} {A : Type ℓ} (weight : A → ℕ) where
  abbrev pub total : List A → ℕ
  total [] = 0
  total (x ∷ xs) = weight x + total xs

  Permᴰ-total : {xs ys : List A} → Permᴰ xs ys → total xs ≡ total ys
  Permᴰ-total Permᴰ.nil = refl
  Permᴰ-total (Permᴰ.cons e h) = rw (e, Permᴰ-total h)
  Permᴰ-total (Permᴰ.swap e f) = rw (e, f) (omega arith)
  Permᴰ-total (Permᴰ.trans h k) = Permᴰ-total h ∙ Permᴰ-total k

  pub total-perm : {xs ys : List A} → Perm xs ys → total xs ≡ total ys
  total-perm h = ∥∥₁_elim h (ℕ_set _ _) Permᴰ-total

  pub total-append : (xs ys : List A) → total (xs ++ ys) ≡ total xs + total ys
  total-append [] ys = omega arith
  total-append (x ∷ xs) ys = omega (arith, total-append xs ys)

  pub total-set :
      (xs : List A) (i : ℕ) (x d : A)
      → i < length xs
      → total (set xs i x) + weight (get_or xs i d) ≡ total xs + weight x
  total-set [] i x d h = absurd (omega arith)
  total-set (y ∷ xs) zero x d h = omega arith
  total-set (y ∷ xs) (suc i) x d h = omega (arith, total-set xs i x d (omega arith))

  pub total-get_or :
      (xs : List A) (i : ℕ) (d : A) → i < length xs → weight (get_or xs i d) ≤ total xs
  total-get_or [] i d h = absurd (omega arith)
  total-get_or (y ∷ xs) zero d h = omega arith
  total-get_or (y ∷ xs) (suc i) d h = omega (arith, total-get_or xs i d (omega arith))
