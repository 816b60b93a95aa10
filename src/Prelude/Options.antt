-- ===== src/Prelude/Options.antt =====
-- Chains of steps that may fail, and the decimal form of numbers.
use Prim.Native.Nat.{ℕ, zero, suc, ◌+◌, ◌/◌, ◌%◌}
use Prim.Native.String.{String, ◌++◌ as str_append}
use mathlib.Core.Path.{◌≡◌, refl}
use mathlib.Core.Logic.{◌↔◌}
use mathlib.Core.Option.{Option, none, some}
use mathlib.Core.List.{[], ◌∷◌}
use nomad_autoscaler.Prelude.Tests.{if◌then◌else◌, ltb}
use nomad_autoscaler.Prelude.Lists.{get_or}
use nomad_autoscaler.Prelude.Int.{ℤ, pos, negsuc}

infixl 5 ◌>>=◌
abbrev pub ◌>>=◌ {ℓ κ} : {A : Type ℓ} {B : Type κ} → Option A → (A → Option B) → Option B
none >>= f = none
some a >>= f = f a

-- A chain whose last step cannot fail.
module _ {ℓ κ} {A : Type ℓ} {B : Type κ} where
  pub >>=-some-eq-none_iff :
      (m : Option A) (f : A → B) → ((m >>= λ a. some (f a)) ≡ none) ↔ (m ≡ none)
  >>=-some-eq-none_iff none f = (λ e. refl, λ e. refl)
  >>=-some-eq-none_iff (some a) f = (λ e. cc, λ e. cc)

  pub >>=-some-eq-some :
      (m : Option A) (f : A → B) {b : B}
      → (m >>= λ a. some (f a)) ≡ some b
      → (a : A) × (m ≡ some a) × (f a ≡ b)
  >>=-some-eq-some none f e = cc
  >>=-some-eq-some (some a) f e = (a, refl, cc)

-- Inversion of a chain that succeeds.
pub >>=-eq-some {ℓ κ} :
    {A : Type ℓ} {B : Type κ} (m : Option A) (f : A → Option B) {b : B}
    → (m >>= f) ≡ some b
    → (a : A) × (m ≡ some a) × (f a ≡ some b)
>>=-eq-some none f e = cc
>>=-eq-some (some a) f e = (a, refl, e)

unfoldable pub digit : ℕ → String
digit d = get_or ("0" ∷ "1" ∷ "2" ∷ "3" ∷ "4" ∷ "5" ∷ "6" ∷ "7" ∷ "8" ∷ []) d "9"

-- Enough fuel is the number itself and one more: each round divides it by ten.
unfoldable pub format_loop : ℕ → ℕ → String → String
unfolding digit
format_loop zero n out = out
format_loop (suc f) n out =
    let out' = str_append (digit (n % 10)) out in
    let rest = format_loop f (n / 10) out' in if ltb n 10 then out' else rest

unfoldable pub format_ℕ : ℕ → String
unfolding format_loop
format_ℕ n = format_loop (suc n) n ""

-- `%d`
unfoldable pub format_ℤ : ℤ → String
unfolding format_ℕ
format_ℤ (pos n) = format_ℕ n
format_ℤ (negsuc n) = str_append "-" (format_ℕ (n + 1))
