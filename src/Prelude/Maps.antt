-- ===== src/Prelude/Maps.antt =====
-- Go's maps with string keys, as association lists. A write replaces the first entry of its key
-- or adds one behind the others; `delete` removes every entry of the key. The iteration order of a
-- map, which Go leaves open, is the order of the list.
use Prim.Native.String.{String}
use mathlib.Core.Path.{◌≡◌, refl}
use mathlib.Core.Bool.{Bool, true, false}
use mathlib.Core.Logic.{◌⊎◌}
use mathlib.Core.List.{List, [], ◌∷◌}
use mathlib.Core.Option.{Option, none, some}
use native.Mathlib.Omega.{arith}
use text.Mathlib.Text.{◌==◌}
use text.Mathlib.TextEquality.{eq_iff}
use text.Mathlib.TextPositions.{eq_refl}
use nomad_autoscaler.Prelude.Tests.{if◌then◌else◌}

abbrev pub Map {ℓ} : Type ℓ → Type ℓ
Map V = List (String × V)

abbrev pub is_some {ℓ} : {A : Type ℓ} → Option A → Bool
is_some none = false
is_some (some a) = true

module _ {ℓ} {V : Type ℓ} where
  unfoldable pub lookup : String → Map V → Option V
  lookup key [] = none
  lookup key ((q, v) ∷ rest) = if q == key then some v else lookup key rest

  unfoldable pub delete : String → Map V → Map V
  delete key [] = []
  delete key ((q, v) ∷ rest) = if q == key then delete key rest else (q, v) ∷ delete key rest

  unfoldable pub insert : String → V → Map V → Map V
  insert key v [] = (key, v) ∷ []
  insert key v ((q, w) ∷ rest) = if q == key then (q, v) ∷ rest else (q, w) ∷ insert key v rest

  pub lookup-delete :
      (key q : String) (rest : Map V)
      → lookup q (delete key rest) ≡ (if key == q then none else lookup q rest)
  unfolding lookup delete
  lookup-delete key q [] = ground arith
  lookup-delete key q ((r, w) ∷ rest) =
      ground (arith, eq_iff key q, eq_iff r key, eq_iff r q, lookup-delete key q rest)

  pub lookup-insert :
      (key q : String) (v : V) (rest : Map V)
      → lookup q (insert key v rest) ≡ (if key == q then some v else lookup q rest)
  unfolding lookup insert
  lookup-insert key q v [] = refl
  lookup-insert key q v ((r, w) ∷ rest) =
      ground (arith, eq_iff key q, eq_iff r key, eq_iff r q, lookup-insert key q v rest)

  -- An entry that is found after a write is the written one or was there before.
  pub lookup-insert_cases :
      (key q : String) (v w : V) (rest : Map V)
      → lookup q (insert key v rest) ≡ some w
      → ((key ≡ q) × (w ≡ v)) ⊎ (lookup q rest ≡ some w)
  lookup-insert_cases key q v w rest h = ground (arith, lookup-insert key q v rest, eq_iff key q)

  pub is_some-insert :
      (key q : String) (v : V) (rest : Map V)
      → is_some (lookup q rest) ≡ true
      → is_some (lookup q (insert key v rest)) ≡ true
  is_some-insert key q v rest h = ground (arith, lookup-insert key q v rest)

  pub lookup-insert_self :
      (key : String) (v : V) (rest : Map V) → lookup key (insert key v rest) ≡ some v
  lookup-insert_self key v rest = simp (lookup-insert, eq_refl)
