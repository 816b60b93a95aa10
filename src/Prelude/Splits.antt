-- ===== src/Prelude/Splits.antt =====
-- Cutting texts at one ASCII character.
use Prim.Native.Nat.{ℕ, zero, suc}
use Prim.Native.Char.{Char, code}
use Prim.Native.String.append
use Prim.Native.String.{String, [], ◌∷◌, ◌++◌}
use mathlib.Core.Path.{◌≡◌, refl}
use mathlib.Core.Bool.{false}
use mathlib.Core.Option.{Option, none, some}
use mathlib.Core.List.{List, [] as none_left, ◌∷◌ as part}
use native.Mathlib.Omega.{arith}
use nomad_autoscaler.Prelude.Tests.{◌==◌, if◌then◌else◌}
use nomad_autoscaler.Prelude.Texts.{has_code}

abbrev add_first : Char → Option (String × String) → Option (String × String)
add_first c none = none
add_first c (some (a, b)) = some (c ∷ a, b)

-- The texts before and after the first character with the code `n`.
unfoldable pub cut : ℕ → String → Option (String × String)
cut n [] = none
cut n (c ∷ s) = let rest = cut n s in if code c == n then some ("", s) else add_first c rest

-- `strings.SplitN(s, sep, k)` for the separator with the code `n`.
unfoldable pub split_n : ℕ → ℕ → String → List String
split_n zero n s = none_left
split_n (suc zero) n s = part s none_left
split_n (suc (suc k)) n s = elim (cut n s) [
  | none ↦ part s none_left
  | some (a, b) ↦ part a (split_n (suc k) n b)
]

pub cut-append :
    (n : ℕ) (c : Char) (a b : String)
    → code c ≡ n
    → has_code n a ≡ false
    → cut n (a ++ (c ∷ b)) ≡ some (a, b)
unfolding cut has_code
cut-append n c [] b is_c without = rw append.nil (ground arith)
cut-append n c (d ∷ a) b is_c without =
    let later : has_code n a ≡ false = ground arith in
    let other : (code d == n) ≡ false = ground arith in
    rw (append.cons, cut, cut-append n c a b is_c later, other) refl

pub split_n-append :
    (k n : ℕ) (c : Char) (a b : String)
    → code c ≡ n
    → has_code n a ≡ false
    → split_n (suc (suc k)) n (a ++ (c ∷ b)) ≡ part a (split_n (suc k) n b)
unfolding split_n
split_n-append k n c a b is_c without = rw (cut-append n c a b is_c without, split_n) refl

pub split_n_last : (n : ℕ) (s : String) → split_n 1 n s ≡ part s none_left
unfolding split_n
split_n_last n s = refl
