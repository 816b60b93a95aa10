-- ===== src/Sdk/Action.antt =====
-- sdk/strategy.go: scaling actions. A write to the nil `Meta` map is a run-time panic, so the
-- methods that write to it return `none` there. Formatted numbers are decimal.
pub mod Limits
pub mod Precedence
use nomad_autoscaler.Prelude.{
  String, Bool, true, false, List, [], ◌∷◌, ◌++◌, Option, none, some, Map, lookup, insert, ℤ, pos,
  negsuc, ltb_ℤ, eqb_ℤ, if◌then◌else◌, str_eq, str_append, format_ℤ, ◌>>=◌,
}

-- Declared from down to up, with the values -1, 0 and 1.
pub data ScaleDirection : Type 0 where
  down none_needed up : ScaleDirection

-- The values that the code stores under `map[string]interface{}`.
pub data MetaValue : Type 0 where
  flag : Bool → MetaValue
  number : ℤ → MetaValue
  text : String → MetaValue
  texts : List String → MetaValue

pub record ScalingAction : Type 0 where
  pub count : ℤ
  pub reason : String
  pub error : Bool
  pub direction : ScaleDirection
  pub meta : Option (Map MetaValue)

abbrev pub meta_key_dry_run : String
meta_key_dry_run = "nomad_autoscaler.dry_run"

abbrev pub meta_key_dry_run_count : String
meta_key_dry_run_count = "nomad_autoscaler.dry_run.count"

abbrev pub meta_key_count_capped : String
meta_key_count_capped = "nomad_autoscaler.count.capped"

abbrev pub meta_key_count_original : String
meta_key_count_original = "nomad_autoscaler.count.original"

abbrev pub meta_key_reason_history : String
meta_key_reason_history = "nomad_autoscaler.reason_history"

abbrev pub dry_run_count : ℤ
dry_run_count = negsuc 0

-- `&ScalingAction{Direction: d}` with the other fields at their zero values.
abbrev pub bare_action : ScaleDirection → ScalingAction
bare_action d = record { count = pos 0; reason = ""; error = false; direction = d; meta = none }

unfoldable pub direction_string : ScaleDirection → String
direction_string down = "down"
direction_string up = "up"
direction_string none_needed = "none"

unfoldable pub direction_value : ScaleDirection → ℤ
direction_value down = negsuc 0
direction_value none_needed = pos 0
direction_value up = pos 1

abbrev pub or_empty : Option (Map MetaValue) → Map MetaValue
or_empty none = []
or_empty (some m) = m

unfoldable pub canonicalize : ScalingAction → ScalingAction
canonicalize a = record a { meta = some (or_empty a.meta) }

-- `a.Meta[k] = v`
unfoldable pub set_meta : String → MetaValue → ScalingAction → Option ScalingAction
set_meta k v a = elim a.meta [
  | none ↦ none
  | some m ↦ some (record a { meta = some (insert k v m) })
]

unfoldable pub set_dry_run : ScalingAction → Option ScalingAction
unfolding set_meta
set_dry_run a = do
  b ← set_meta meta_key_dry_run (flag true) a
  c ← set_meta meta_key_dry_run_count (number b.count) b
  some (record c { count = dry_run_count })

-- A read of a nil map finds nothing.
abbrev pub reason_history : Option MetaValue → List String
reason_history (some (texts h)) = h
reason_history _ = []

unfoldable pub push_reason : String → ScalingAction → Option ScalingAction
unfolding set_meta lookup
push_reason r a = do
  let history = reason_history (lookup meta_key_reason_history (or_empty a.meta))
  let history' = if str_eq a.reason "" then history else history ++ a.reason ∷ []
  b ← set_meta meta_key_reason_history (texts history') a
  some (record b { reason = r })

abbrev pub clamp : ℤ → ℤ → ℤ → ℤ
clamp min max n = if ltb_ℤ n min then min else if ltb_ℤ max n then max else n

abbrev pub capped_reason : ℤ → ℤ → String
capped_reason old new = str_append "capped count from " (
    str_append (format_ℤ old)
      (str_append " to " (str_append (format_ℤ new) " to stay within limits")))

-- The writes of `CapCount` when the count changes.
unfoldable pub record_cap : ℤ → ScalingAction → Option ScalingAction
unfolding set_meta push_reason
record_cap new a = do
  b ← set_meta meta_key_count_capped (flag true) a
  c ← set_meta meta_key_count_original (number a.count) b
  d ← push_reason (capped_reason a.count new) c
  some (record d { count = new })

unfoldable pub cap_count : ℤ → ℤ → ScalingAction → Option ScalingAction
cap_count min max a =
    let new = clamp min max a.count in
    if eqb_ℤ a.count dry_run_count
    then some a
    else if eqb_ℤ new a.count
    then some a
    else record_cap new a

-- Which of its two arguments `PreemptScalingAction` returns: the caller compares pointers.
pub data Pick : Type 0 where
  first second : Pick

abbrev same_direction_pick : ScaleDirection → ScalingAction → ScalingAction → Pick
same_direction_pick none_needed a b = first
same_direction_pick _ a b = if ltb_ℤ a.count b.count then second else first

unfoldable pub preempt_pick : Option ScalingAction → Option ScalingAction → Pick
unfolding direction_value
preempt_pick none b = second
preempt_pick (some a) none = first
preempt_pick (some a) (some b) =
    if ltb_ℤ (direction_value a.direction) (direction_value b.direction)
    then second
    else if eqb_ℤ (direction_value a.direction) (direction_value b.direction)
    then same_direction_pick a.direction a b
    else first

abbrev pub choose {ℓ} : {A : Type ℓ} → Pick → A → A → A
choose first a b = a
choose second a b = b

unfoldable pub preempt_scaling_action :
    Option ScalingAction → Option ScalingAction → Option ScalingAction
unfolding preempt_pick
preempt_scaling_action a b = choose (preempt_pick a b) a b
