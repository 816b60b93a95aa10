-- ===== src/Prelude/Decimal.antt =====
-- `strconv.ParseUint(s, 10, 64)`, and that it reads back what `strconv.FormatUint` and `%d` print.
use Prim.Native.Nat.{ℕ, zero, suc, ◌+◌, ◌-◌, ◌*◌, ◌/◌, ◌%◌, ◌<◌}
use Prim.Native.Char.{Char, code}
use Prim.Native.String.append
use Prim.Native.String.{String, [], ◌∷◌, ◌++◌}
use mathlib.Core.Path.{◌≡◌, refl}
use mathlib.Core.Bool.{true, ◌&&◌}
use mathlib.Core.Option.{Option, none, some}
use mathlib.Core.Logic.{inl, inr}
use native.Mathlib.Omega.{arith}
use nomad_autoscaler.Prelude.Tests.{ltb, leb, if◌then◌else◌, Bool-cases}
use nomad_autoscaler.Prelude.Options.{format_ℕ, format_loop, digit}
use nomad_autoscaler.Prelude.Int64.{full_range}

abbrev read_so_far : Option ℕ → ℕ
read_so_far none = 0
read_so_far (some n) = n

-- A text without a digit, with another character or beyond 64 bits is an error, `none`.
unfoldable pub parse_from : Option ℕ → String → Option ℕ
parse_from acc [] = acc
parse_from acc (c ∷ s) =
    let next = read_so_far acc * 10 + (code c - b'0') in
    let rest = parse_from (some next) s in
    if leb b'0' (code c) && leb (code c) b'9' && ltb next full_range then rest else none

unfoldable pub parse_uint : String → Option ℕ
unfolding parse_from
parse_uint s = parse_from none s

parse_uint_number : parse_uint "1203" ≡ some 1203
unfolding parse_uint
parse_uint_number = refl

digit_char : (d : ℕ) → d < 10 → (c : Char) × (digit d ≡ c ∷ []) × (code c ≡ b'0' + d)
unfolding digit
digit_char zero small = ("0", refl, refl)
digit_char (suc zero) small = ("1", refl, refl)
digit_char (suc (suc zero)) small = ("2", refl, refl)
digit_char (suc (suc (suc zero))) small = ("3", refl, refl)
digit_char (suc (suc (suc (suc zero)))) small = ("4", refl, refl)
digit_char (suc (suc (suc (suc (suc zero))))) small = ("5", refl, refl)
digit_char (suc (suc (suc (suc (suc (suc zero)))))) small = ("6", refl, refl)
digit_char (suc (suc (suc (suc (suc (suc (suc zero))))))) small = ("7", refl, refl)
digit_char (suc (suc (suc (suc (suc (suc (suc (suc zero)))))))) small = ("8", refl, refl)
digit_char (suc (suc (suc (suc (suc (suc (suc (suc (suc zero))))))))) small = ("9", refl, refl)
digit_char (suc (suc (suc (suc (suc (suc (suc (suc (suc (suc n)))))))))) small =
    absurd (omega arith)

digit_test :
    (k d n : ℕ)
    → k ≡ b'0' + d
    → d < 10
    → n * 10 + d < full_range
    → (leb b'0' k && leb k b'9' && ltb (n * 10 + (k - b'0')) full_range) ≡ true
digit_test k d n is_digit small fits = ground arith

parse_from-digit :
    (d : ℕ) (acc : Option ℕ) (s : String)
    → d < 10
    → read_so_far acc * 10 + d < full_range
    → parse_from acc (digit d ++ s) ≡ parse_from (some (read_so_far acc * 10 + d)) s
unfolding parse_from
parse_from-digit d acc s small fits =
    let (c, is_c, code_c) = digit_char d small in
    let value : code c - b'0' ≡ d = omega (arith, code_c) in
    rw (
      is_c,
      append.cons,
      append.nil,
      digit_test (code c) d (read_so_far acc) code_c small fits,
      value,
    )

parse_from-format_loop :
    (fuel n : ℕ) (s : String)
    → n < fuel
    → n < full_range
    → parse_from none (format_loop fuel n s) ≡ parse_from (some n) s
unfolding format_loop
parse_from-format_loop zero n s enough fits = absurd (omega arith)
parse_from-format_loop (suc fuel) n s enough fits = elim (Bool-cases (ltb n 10)) [
  | inl small ↦
      let same : n % 10 ≡ n = ground arith in
      let first : read_so_far none * 10 + n ≡ n = omega arith in
      rw (small, parse_from-digit (n % 10) none s (omega arith) (omega arith), same, first)
  | inr large ↦
      let same : n / 10 * 10 + n % 10 ≡ n = omega arith in
      rw (
        large,
        parse_from-format_loop fuel (n / 10) (digit (n % 10) ++ s) (ground arith) (omega arith),
        parse_from-digit (n % 10) (some (n / 10)) s (omega arith) (rw same fits),
        same,
      )
]

-- `strconv.ParseUint` reads back the text that `%d` or `strconv.FormatUint` prints.
pub parse_uint-format_ℕ : (n : ℕ) → n < full_range → parse_uint (format_ℕ n) ≡ some n
unfolding parse_uint format_ℕ
parse_uint-format_ℕ n fits = parse_from-format_loop (suc n) n "" (omega arith) fits
