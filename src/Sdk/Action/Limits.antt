-- ===== src/Sdk/Action/Limits.antt =====
-- `CapCount` and `SetDryRun` of sdk/strategy.go.
use nomad_autoscaler.Prelude.{
  ◌≡◌, refl, ◌≢◌, true, [], ◌∷◌, ◌++◌, some, Map, lookup, insert, lookup-insert, str_eq,
  if◌then◌else◌, Bool-cases, inl, inr, eqb_ℤ, is_some, ℤ, ◌≤ℤ◌, ◌<ℤ◌, arith,
}
use nomad_autoscaler.Sdk.Action.{
  ScalingAction, MetaValue, flag, number, texts, set_dry_run, cap_count, record_cap, set_meta,
  push_reason, clamp, capped_reason, dry_run_count, meta_key_dry_run, meta_key_dry_run_count,
  meta_key_count_capped, meta_key_count_original, meta_key_reason_history, or_empty, reason_history,
  canonicalize,
}

-- What `CapCount` makes of the action `a` within the limits `min` and `max`.
pub record Capped (min max : ℤ) (a b : ScalingAction) : Type 0 where
  pub above : min ≤ℤ b.count
  pub below : b.count ≤ℤ max
  pub canonical : is_some b.meta ≡ true
  pub direction_kept : b.direction ≡ a.direction
  pub within_unchanged : min ≤ℤ a.count → a.count ≤ℤ max → b ≡ a
  pub raised : a.count <ℤ min → b.count ≡ min
  pub lowered : max <ℤ a.count → b.count ≡ max
  pub recorded :
      b.count ≢ a.count
      → (lookup meta_key_count_capped (or_empty b.meta) ≡ some (flag true))
        × (lookup meta_key_count_original (or_empty b.meta) ≡ some (number a.count))

-- The map that `CapCount` leaves, and the history of reasons in it.
capped_meta : ScalingAction → Map MetaValue → Map MetaValue
capped_meta a m =
    let m' =
      insert meta_key_count_original (number a.count)
        (insert meta_key_count_capped (flag true) m) in
    let history = reason_history (lookup meta_key_reason_history m') in
    let history' = if str_eq a.reason "" then history else history ++ a.reason ∷ [] in
    insert meta_key_reason_history (texts history') m'

record_cap-eq-some :
    (new : ℤ) (a : ScalingAction) (m : Map MetaValue)
    → a.meta ≡ some m
    → record_cap new a
      ≡ some (record a {
        count = new;
        reason = capped_reason a.count new;
        meta = some (capped_meta a m);
      })
unfolding record_cap capped_meta
record_cap-eq-some new a m e = rw (e, set_meta, push_reason) refl

capped_meta-recorded :
    (a : ScalingAction) (m : Map MetaValue)
    → (lookup meta_key_count_capped (capped_meta a m) ≡ some (flag true))
      × (lookup meta_key_count_original (capped_meta a m) ≡ some (number a.count))
unfolding capped_meta
capped_meta-recorded a m = (simp lookup-insert, simp lookup-insert)

-- On a canonical action that is no dry run, `CapCount` returns, and its result lies in the limits,
-- keeps the direction, is the action itself if its count lies within the limits, and is else the
-- nearer limit with the old count recorded in `Meta`, and the result is canonical.
pub cap_count-Capped :
    (min max : ℤ) (a : ScalingAction) (m : Map MetaValue)
    → min ≤ℤ max
    → a.count ≢ dry_run_count
    → a.meta ≡ some m
    → (b : ScalingAction) × (cap_count min max a ≡ some b) × Capped min max a b
unfolding cap_count
cap_count-Capped min max a m h r e = elim (Bool-cases (eqb_ℤ (clamp min max a.count) a.count)) [
  | inl same ↦ (a, ground arith, ground arith)
  | inr moved ↦ (
    record a {
      count = clamp min max a.count;
      reason = capped_reason a.count (clamp min max a.count);
      meta = some (capped_meta a m);
    },
    ground (arith, record_cap-eq-some (clamp min max a.count) a m e),
    ground (arith, capped_meta-recorded a m),
  )
]

-- A dry run of a canonical action returns, keeps the asked count in `Meta` and replaces it by -1, and
-- no later `CapCount` changes that, whatever the limits.
pub set_dry_run-cap_count :
    (min max : ℤ) (a : ScalingAction)
    → (b : ScalingAction) × (set_dry_run (canonicalize a) ≡ some b)
      × (b.count ≡ dry_run_count)
      × (lookup meta_key_dry_run_count (or_empty b.meta) ≡ some (number a.count))
      × (lookup meta_key_dry_run (or_empty b.meta) ≡ some (flag true))
      × (cap_count min max b ≡ some b)
unfolding set_dry_run canonicalize cap_count
set_dry_run-cap_count min max a = (
  record a {
    count = dry_run_count;
    meta = some (
        insert meta_key_dry_run_count (number a.count)
          (insert meta_key_dry_run (flag true) (or_empty a.meta)));
  },
  refl,
  refl,
  simp lookup-insert,
  simp lookup-insert,
  refl,
)
