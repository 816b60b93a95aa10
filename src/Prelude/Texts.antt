-- ===== src/Prelude/Texts.antt =====
-- The search for one ASCII character, and for a text, in a text.
use Prim.Native.Nat.{ℕ}
use Prim.Native.Char.{code}
use Prim.Native.String.append
use Prim.Native.String.{String, [], ◌∷◌, ◌++◌}
use mathlib.Core.Path.{◌≡◌, refl}
use mathlib.Core.Bool.{Bool, true, false, ◌&&◌, ◌||◌}
use native.Mathlib.Omega.{arith}
use nomad_autoscaler.Prelude.Tests.{◌==◌}

-- `strings.Contains(s, c)` for the character with the code `n`.
unfoldable pub has_code : ℕ → String → Bool
has_code n [] = false
has_code n (c ∷ s) = code c == n || has_code n s

pub has_code-append : (n : ℕ) (s t : String) → has_code n (s ++ t) ≡ has_code n s || has_code n t
unfolding has_code
has_code-append n [] t = rw append.nil refl
has_code-append n (c ∷ s) t = rw append.cons (ground (arith, has_code-append n s t))

abbrev has_prefix : String → String → Bool
has_prefix [] s = true
has_prefix (c ∷ p) [] = false
has_prefix (c ∷ p) (d ∷ s) = code c == code d && has_prefix p s

-- `strings.Contains(s, part)`
unfoldable pub contains_text : String → String → Bool
contains_text part [] = has_prefix part []
contains_text part (c ∷ s) = has_prefix part (c ∷ s) || contains_text part s
