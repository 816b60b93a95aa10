-- ===== src/Nomad/Validate/Blocks.antt =====
-- The validation of blocks with labels.
use nomad_autoscaler.Prelude.{
  ℕ, ◌≤◌, String, ◌≡◌, refl, ◌≢◌, ◌⊎◌, inl, inr, ◌↔◌, true, false, [], ◌∷◌, ◌++◌, length, All,
  Option, none, some, Map, str_eq, eq_iff, arith, Bool-cases,
}
use nomad_autoscaler.Nomad.Value.{Value}
use nomad_autoscaler.Nomad.Validate.{
  no_label, Validator, at_label, below_min, above_max, expected_number, validate_each,
  validate_block, validate_labeled_blocks, reported,
}
use nomad_autoscaler.Nomad.Validate.Accepted.{append-eq-nil, reported-eq-nil}

validate_each-eq-nil :
    (b : Map Value) (path : String) (v : Validator)
    → (validate_each b path v ≡ [])
      ↔ All (λ entry. (entry.0 ≢ "") × (validate_block entry.1 (at_label path entry.0) v ≡ [])) b
validate_each-eq-nil [] path v = (λ _. tt, λ _. refl)
validate_each-eq-nil ((name, block) ∷ b) path v = (
  λ h.
      let here = validate_block block (at_label path name) v in
      let unnamed = reported (str_eq name "") path no_label in
      let (both, others) = append-eq-nil (unnamed ++ here) (validate_each b path v) h in
      let (a, valid) = append-eq-nil unnamed here both in
      let named = reported-eq-nil (str_eq name "") path no_label a in
      (((λ e. cc (named, (eq_iff name "").1 e)), valid), (validate_each-eq-nil b path v).0 others),
  λ h.
      let named : str_eq name "" ≡ false = ground (arith, eq_iff name "", h.0.0) in
      rw (named, h.0.1, (validate_each-eq-nil b path v).1 h.1) refl,
)

expected_number-eq-nil :
    (m : Option ℕ) (n : ℕ) (path : String)
    → ((below_min m n ≡ true) ⊎ (above_max m n ≡ true))
    → expected_number m path ≢ []
expected_number-eq-nil none n path (inl h) = λ e. cc
expected_number-eq-nil none n path (inr h) = λ e. cc
expected_number-eq-nil (some m) n path h = λ e. cc

-- A number is in a range whose ends may be left out.
abbrev pub IsAtLeast : Option ℕ → ℕ → Type 0
IsAtLeast none n = Unit
IsAtLeast (some m) n = m ≤ n

abbrev pub IsAtMost : Option ℕ → ℕ → Type 0
IsAtMost none n = Unit
IsAtMost (some m) n = n ≤ m

below_min-IsAtLeast : (m : Option ℕ) (n : ℕ) → (below_min m n ≡ false) ↔ IsAtLeast m n
below_min-IsAtLeast none n = (λ _. tt, λ _. refl)
below_min-IsAtLeast (some m) n = (λ h. ground (arith, h), λ h. ground (arith, h))

above_max-IsAtMost : (m : Option ℕ) (n : ℕ) → (above_max m n ≡ false) ↔ IsAtMost m n
above_max-IsAtMost none n = (λ _. tt, λ _. refl)
above_max-IsAtMost (some m) n = (λ h. ground (arith, h), λ h. ground (arith, h))

-- Labelled blocks are accepted exactly when there is none, whatever their least number, or when
-- their number is at least the least and at most the greatest one, as far as these are given, each has a label and the content of each is accepted.
pub validate_labeled_blocks-eq-nil_iff :
    (b : Map Value) (path : String) (min max : Option ℕ) (v : Validator)
    → (validate_labeled_blocks b path min max v ≡ []) ↔ (
        (b ≡ [])
        ⊎ IsAtLeast min (length b)
          × IsAtMost max (length b)
          × All
              (λ entry. (entry.0 ≢ "") × (validate_block entry.1 (at_label path entry.0) v ≡ []))
              b)
unfolding validate_labeled_blocks
validate_labeled_blocks-eq-nil_iff [] path min max v = (λ _. inl refl, λ _. refl)
validate_labeled_blocks-eq-nil_iff (x ∷ b) path min max v =
    elim (Bool-cases (below_min min (length (x ∷ b)))) [
      | inl low ↦ (
        λ h. absurd (expected_number-eq-nil min _ path (inl low) (rw low at h)),
        λ h. elim h [ inl e ↦ cc e | inr k ↦ cc (low, (below_min-IsAtLeast min _).1 k.0) ],
      )
      | inr enough ↦ elim (Bool-cases (above_max max (length (x ∷ b)))) [
        | inl high ↦ (
          λ h. absurd (expected_number-eq-nil max _ path (inr high) (rw (enough, high) at h)),
          λ h. elim h [ inl e ↦ cc e | inr k ↦ cc (high, (above_max-IsAtMost max _).1 k.1) ],
        )
        | inr few ↦ (
          λ h. inr (
            (below_min-IsAtLeast min _).0 enough,
            (above_max-IsAtMost max _).0 few,
            (validate_each-eq-nil (x ∷ b) path v).0 (rw (enough, few) at h),
          ),
          λ h. elim h [
            | inl e ↦ cc e
            | inr k ↦ rw (enough, few) ((validate_each-eq-nil (x ∷ b) path v).1 k.2)
          ],
        )
      ]
    ]
