-- ===== src/Prelude/Int64.antt =====
-- Go's `int64`: the signed reading of a number modulo 2 ^ 64, which additions and conversions wrap to.
use Prim.Native.Nat.{ℕ, ◌-◌, ◌%◌, ◌≤◌, ◌<◌}
use mathlib.Core.Path.{◌≡◌}
use native.Mathlib.Omega.{arith}
use nomad_autoscaler.Prelude.Tests.{ltb, if◌then◌else◌}
use nomad_autoscaler.Prelude.Int.{ℤ, pos, negsuc, pos_part, neg_part}

-- 2 ^ 63 and 2 ^ 64.
abbrev pub half_range : ℕ
half_range = 9_223_372_036_854_775_808

abbrev pub full_range : ℕ
full_range = 18_446_744_073_709_551_616

-- `int64(n)` for a number `n` of 64 bits.
unfoldable pub of_bits : ℕ → ℤ
of_bits n = if ltb n half_range then pos n else negsuc (full_range - n - 1)

-- What an `int64` operation gives when its exact result is `a`.
unfoldable pub wrap : ℤ → ℤ
unfolding of_bits
wrap (pos n) = of_bits (n % full_range)
wrap (negsuc n) = of_bits (full_range - 1 - n % full_range)

abbrev pub InRange : ℤ → Type 0
InRange a = (pos_part a < half_range) × (neg_part a ≤ half_range)

pub wrap-eq_of_InRange : (a : ℤ) → InRange a → wrap a ≡ a
unfolding wrap
wrap-eq_of_InRange (pos n) h = ground arith
wrap-eq_of_InRange (negsuc n) h = ground arith
