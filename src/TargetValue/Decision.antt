-- ===== src/TargetValue/Decision.antt =====
-- What the strategy decides.
use nomad_autoscaler.Prelude.{
  if◌then◌else◌, String, ◌≡◌, refl, ap, ◌∙◌, ◌≢◌, true, false, pos, ◌⊎◌, inl, inr, List, [], ◌∷◌,
  ◌++◌, some, ℤ, eqb_ℤ, eqb_ℤ_iff, Bool-cases, Option-cases, str_eq,
}
use nomad_autoscaler.Sdk.Policy.{ScalingPolicyStrategy}
use nomad_autoscaler.Sdk.Action.{ScaleDirection, down, none_needed, up}
use nomad_autoscaler.Sdk.Eval.{Float64, TimestampedMetric, ScalingCheckEvaluation}
use nomad_autoscaler.Plugins.{ok, failed}
use nomad_autoscaler.TargetValue.{
  Floats, calculate_direction, factor_of, new_count, set_count, use_direction, decide, run_strategy,
  with_target_value, value_of, last_of, threshold_text, invalid_value, run_config_key_target,
}

module _ (floats : Floats) where
  -- The latest metric relative to the target, or the metric itself for the target 0.
  abbrev pub IsFactor : Float64 → Float64 → Float64 → Type 0
  IsFactor value target f =
      ((floats.eq target floats.zero ≡ true) × (f ≡ value))
      ⊎ ((floats.eq target floats.zero ≡ false) × (f ≡ floats.div value target))

  -- The direction and the count that a factor asks for. From the count 0 any factor above 0 asks for the
  -- factor rounded up. From another count a factor within the threshold of 1 asks for nothing, and any
  -- other one for its product with the count, rounded up.
  pub data Wants (f threshold : Float64) (count : ℤ) : ScaleDirection → ℤ → Type 0 where
    starts :
        count ≡ pos 0 → floats.lt floats.zero f ≡ true → Wants f threshold count up (floats.ceil f)
    idles :
        count ≡ pos 0 → floats.lt floats.zero f ≡ false → Wants f threshold count none_needed count
    shrinks :
        count ≢ pos 0
        → floats.lt f (floats.sub floats.one threshold) ≡ true
        → Wants f threshold count down (floats.ceil (floats.mul (floats.of_int count) f))
    grows :
        count ≢ pos 0
        → floats.lt f (floats.sub floats.one threshold) ≡ false
        → floats.lt (floats.add floats.one threshold) f ≡ true
        → Wants f threshold count up (floats.ceil (floats.mul (floats.of_int count) f))
    rests :
        count ≢ pos 0
        → floats.lt f (floats.sub floats.one threshold) ≡ false
        → floats.lt (floats.add floats.one threshold) f ≡ false
        → Wants f threshold count none_needed count

  -- The answer keeps the check and the metrics. It asks for what the factor asks for, or for nothing if that
  -- is the current count.
  pub record Decides (f threshold : Float64) (count : ℤ) (c d : ScalingCheckEvaluation)
      : Type 0 where
    pub check_kept : d.check ≡ c.check
    pub metrics_kept : d.metrics ≡ c.metrics
    pub meta_kept : d.action.meta ≡ c.action.meta
    pub direction : ScaleDirection
    pub target_count : ℤ
    pub wanted : Wants f threshold count direction target_count
    pub decided :
        ((target_count ≡ count)
          × (d.action.direction ≡ none_needed)
          × (d.action.count ≡ c.action.count))
        ⊎ ((target_count ≢ count)
            × (d.action.direction ≡ direction)
            × (d.action.count ≡ target_count))

  module _ (f threshold : Float64) (count : ℤ) (c : ScalingCheckEvaluation) where
    stays-Decides :
        Wants f threshold count none_needed count
        → Decides f threshold count c (use_direction floats none_needed f count c)
    unfolding use_direction
    stays-Decides w = record {
      check_kept = refl;
      metrics_kept = refl;
      meta_kept = refl;
      direction = none_needed;
      target_count = count;
      wanted = w;
      decided = inl (refl, refl, refl);
    }

    set_count-Decides :
        (d : ScaleDirection)
        → Wants f threshold count d (new_count floats count f)
        → Decides f threshold count c (set_count floats d f count c)
    unfolding set_count
    set_count-Decides d w = elim (Bool-cases (eqb_ℤ (new_count floats count f) count)) [
      | inl same ↦ rw same (record {
        check_kept = refl;
        metrics_kept = refl;
        meta_kept = refl;
        direction = d;
        target_count = new_count floats count f;
        wanted = w;
        decided = inl ((eqb_ℤ_iff (new_count floats count f) count).0 same, refl, refl);
      })
      | inr other ↦ rw other (record {
        check_kept = refl;
        metrics_kept = refl;
        meta_kept = refl;
        direction = d;
        target_count = new_count floats count f;
        wanted = w;
        decided =
            inr ((λ k. cc (other, (eqb_ℤ_iff (new_count floats count f) count).1 k)), refl, refl);
      })
    ]

    new_count-zero : count ≡ pos 0 → new_count floats count f ≡ floats.ceil f
    unfolding new_count
    new_count-zero e = rw ((eqb_ℤ_iff count (pos 0)).1 e) refl

    new_count-positive :
        eqb_ℤ count (pos 0) ≡ false
        → new_count floats count f ≡ floats.ceil (floats.mul (floats.of_int count) f)
    unfolding new_count
    new_count-positive e = rw e refl

    moves-Decides :
        (n : ℤ)
        → new_count floats count f ≡ n
        → (Wants f threshold count up n
            → Decides f threshold count c (use_direction floats up f count c))
          × (Wants f threshold count down n
              → Decides f threshold count c (use_direction floats down f count c))
    unfolding use_direction
    moves-Decides n e = (λ w. set_count-Decides up (rw e w), λ w. set_count-Decides down (rw e w))

    use_direction-Decides :
        Decides f threshold count c
          (use_direction floats (calculate_direction floats count f threshold) f count c)
    unfolding calculate_direction
    use_direction-Decides = elim (Bool-cases (eqb_ℤ count (pos 0))) [
      | inl zero ↦
          let none_yet = (eqb_ℤ_iff count (pos 0)).0 zero in
          elim (Bool-cases (floats.lt floats.zero f)) [
            | inl above ↦
                rw (zero, above)
                  ((moves-Decides (floats.ceil f) (new_count-zero none_yet)).0
                    (starts none_yet above))
            | inr below ↦ rw (zero, below) (stays-Decides (idles none_yet below))
          ]
      | inr some_yet ↦
          let n = floats.ceil (floats.mul (floats.of_int count) f) in
          let moves = moves-Decides n (new_count-positive some_yet) in
          let given : count ≢ pos 0 = λ e. cc (some_yet, (eqb_ℤ_iff count (pos 0)).1 e) in
          elim (Bool-cases (floats.lt f (floats.sub floats.one threshold))) [
            | inl low ↦ rw (some_yet, low) (moves.1 (shrinks given low))
            | inr not_low ↦ elim (Bool-cases (floats.lt (floats.add floats.one threshold) f)) [
              | inl high ↦ rw (some_yet, not_low, high) (moves.0 (grows given not_low high))
              | inr within ↦
                  rw (some_yet, not_low, within) (stays-Decides (rests given not_low within))
            ]
          ]
    ]

  factor_of-IsFactor :
      (value target : Float64) → IsFactor value target (factor_of floats value target)
  unfolding factor_of
  factor_of-IsFactor value target = elim (Bool-cases (floats.eq target floats.zero)) [
    | inl zero ↦ inl (zero, rw zero refl)
    | inr other ↦ inr (other, rw other refl)
  ]

  -- The texts of the target and the threshold are numbers.
  abbrev pub AreNumbers : ScalingPolicyStrategy → Float64 → Float64 → Type 0
  AreNumbers st target threshold =
      (str_eq (value_of "target" st.config) "" ≡ false)
      × (floats.parse (value_of "target" st.config) ≡ some target)
      × (floats.parse (
            if str_eq (value_of "threshold" st.config) ""
            then "0.01"
            else value_of "threshold" st.config)
          ≡ some threshold)

  -- It decides by the latest metric, or it fails for a text that is no number.
  abbrev pub RunOutcome :
      ScalingPolicyStrategy → ScalingCheckEvaluation → ℤ → TimestampedMetric → Type 0
  RunOutcome st c count latest =
      ((target : Float64) × (threshold : Float64) × (f : Float64) × (d : ScalingCheckEvaluation)
        × AreNumbers st target threshold
        × IsFactor latest.value target f
        × (run_strategy floats st c count ≡ ok (some d))
        × Decides f threshold count c d)
      ⊎ ((e : String) × (run_strategy floats st c count ≡ failed e)
          × ((target threshold : Float64) → ¬ (AreNumbers st target threshold)))

  last_of-append :
      (m latest : TimestampedMetric) (ms : List TimestampedMetric)
      → last_of m (ms ++ latest ∷ []) ≡ latest
  last_of-append m latest [] = refl
  last_of-append m latest (n ∷ ms) = last_of-append n latest ms

  decide-append :
      (target threshold : Float64) (c : ScalingCheckEvaluation) (count : ℤ)
      (ms : List TimestampedMetric) (latest : TimestampedMetric)
      → decide floats target threshold c count (ms ++ latest ∷ []) ≡ (
          let f = factor_of floats latest.value target in
          some (use_direction floats (calculate_direction floats count f threshold) f count c))
  unfolding decide
  decide-append target threshold c count [] latest = refl
  decide-append target threshold c count (m ∷ ms) latest =
      ap
        (λ (x : TimestampedMetric).
          let f = factor_of floats x.value target in
          some (use_direction floats (calculate_direction floats count f threshold) f count c))
        (last_of-append m latest ms)

  -- On a check with metrics, the strategy gives an evaluation exactly where the configured target is
  -- a number that is not left out and the threshold is a number, 0.01 where it is left out. The factor is the latest metric
  -- divided by the target, or the metric for the target 0. From the count 0, a factor above 0 asks to scale up
  -- to the factor rounded up. From another count, a factor below 1 less the threshold asks to scale down, and
  -- one above 1 and the threshold to scale up, to the product of count and factor rounded up. The
  -- evaluation asks for that, unless it is the current count, and else for no scaling. It keeps the check,
  -- the metrics and the meta data.
  pub run_strategy-RunOutcome :
      (st : ScalingPolicyStrategy) (c : ScalingCheckEvaluation) (count : ℤ)
      (ms : List TimestampedMetric) (latest : TimestampedMetric)
      → c.metrics ≡ ms ++ latest ∷ []
      → RunOutcome st c count latest
  unfolding run_strategy with_target_value threshold_text
  run_strategy-RunOutcome st c count ms latest e =
      elim (Bool-cases (str_eq (value_of run_config_key_target st.config) "")) [
        | inl empty ↦
            inr ("missing required field `target`", rw empty refl, λ t h n. cc (empty, n.0))
        | inr given ↦
            elim (Option-cases (floats.parse (value_of run_config_key_target st.config))) [
              | inl bad ↦ inr (
                invalid_value "target" (value_of run_config_key_target st.config),
                rw (given, bad) refl,
                λ t h n. cc (bad, n.1),
              )
              | inr (t, number) ↦ elim (Option-cases (floats.parse (threshold_text st.config))) [
                | inl bad ↦ inr (
                  invalid_value "threshold" (threshold_text st.config),
                  rw (given, number, with_target_value, bad) refl,
                  λ u h n. cc (bad, n.2),
                )
                | inr (h, limit) ↦
                    let f = factor_of floats latest.value t in
                    inl (
                      t,
                      h,
                      f,
                      use_direction floats (calculate_direction floats count f h) f count c,
                      (given, number, limit),
                      factor_of-IsFactor latest.value t,
                      rw (given, number, with_target_value, limit)
                          (ap (λ l. ok (decide floats t h c count l)) e
                            ∙ ap ok (decide-append t h c count ms latest)),
                      use_direction-Decides f h count c,
                    )
              ]
            ]
      ]
