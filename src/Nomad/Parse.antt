-- ===== src/Nomad/Parse.antt =====
-- policy/nomad/parser.go: the parsing of policies. The verb `%v` and `time.ParseDuration`, with the
-- value that it gives along an error, are parameters. A map is read in the order of its list.
use nomad_autoscaler.Prelude.{
  String, true, List, [], ◌∷◌, Option, none, some, Map, insert, ℤ, pos, ◌>>=◌,
}
use nomad_autoscaler.Sdk.Policy.{
  ScalingPolicy, ScalingPolicyCheck, ScalingPolicyStrategy, ScalingPolicyTarget, zero_policy,
}
use nomad_autoscaler.Nomad.Value.{
  Value, null, text, list, object, to_list, to_map, value_at, flatten_blocks, ApiScalingPolicy,
  policy_value, key_source, key_query, key_query_window, key_evaluation_interval, key_target,
  key_checks, key_strategy, key_cooldown,
}

abbrev single_object : List Value → Option (Map Value)
single_object (object fs ∷ []) = some (to_map fs)
single_object _ = none

-- `none` for a nil map.
unfoldable pub parse_block : Value → Option (Map Value)
parse_block (list vs) = single_object (to_list vs)
parse_block _ = none

-- A nil map, like an empty one, has no entries to range over.
unfoldable pub parse_blocks : Value → Map Value
parse_blocks (list vs) = flatten_blocks (to_list vs) []
parse_blocks _ = []

abbrev pub text_or_empty : Value → String
text_or_empty (text s) = s
text_or_empty _ = ""

module _ (parse_duration : String → ℤ) (format_value : Value → String) where
  abbrev pub duration_or_zero : Value → ℤ
  duration_or_zero (text s) = parse_duration s
  duration_or_zero _ = pos 0

  abbrev pub add_config : Map Value → Map String → Map String
  add_config [] config = config
  add_config ((k, v) ∷ m) config = add_config m (insert k (format_value v) config)

  unfoldable pub parse_strategy : Value → Option ScalingPolicyStrategy
  unfolding parse_block
  parse_strategy s = do m ← parse_block s; some (record { name = ""; config = add_config m [] })

  abbrev first_strategy : Map Value → Option ScalingPolicyStrategy
  first_strategy [] = none
  first_strategy ((k, v) ∷ m) = elim (parse_strategy v) [
    | none ↦ first_strategy m
    | some s ↦ some (record s { name = k })
  ]

  unfoldable pub parse_check : Value → Option ScalingPolicyCheck
  unfolding parse_block parse_blocks parse_strategy
  parse_check c = do
    m ← parse_block c
    some (record {
      name = "";
      source = text_or_empty (value_at key_source m);
      query = text_or_empty (value_at key_query m);
      query_window = duration_or_zero (value_at key_query_window m);
      strategy = first_strategy (parse_blocks (value_at key_strategy m));
    })

  abbrev parse_each : Map Value → List ScalingPolicyCheck
  parse_each [] = []
  parse_each ((k, v) ∷ m) = elim (parse_check v) [
    | none ↦ parse_each m
    | some c ↦ record c { name = k } ∷ parse_each m
  ]

  unfoldable pub parse_checks : Value → List ScalingPolicyCheck
  unfolding parse_blocks parse_check
  parse_checks cs = parse_each (parse_blocks cs)

  abbrev or_no_entries {ℓ} : {V : Type ℓ} → Option (Map V) → Map V
  or_no_entries none = []
  or_no_entries (some m) = m

  abbrev target_of : Option (Map Value) → Option (Map String) → Option ScalingPolicyTarget
  target_of none none = none
  target_of m attr =
      some (record { name = ""; config = add_config (or_no_entries m) (or_no_entries attr) })

  unfoldable pub parse_target : Value → Option (Map String) → Option ScalingPolicyTarget
  unfolding parse_block
  parse_target block attr = target_of (parse_block block) attr

  abbrev first_target : Map Value → Option (Map String) → Option ScalingPolicyTarget
  first_target [] attr = none
  first_target ((k, v) ∷ m) attr = elim (parse_target v attr) [
    | none ↦ first_target m attr
    | some t ↦ some (record t { name = k })
  ]

  abbrev policy_target : Value → Option (Map String) → Option ScalingPolicyTarget
  policy_target null attr = parse_target null attr
  policy_target v attr = first_target (parse_blocks v) attr

  -- A nil maximum is a run-time panic.
  unfoldable pub parse_policy : Option ApiScalingPolicy → Option ScalingPolicy
  unfolding parse_checks parse_target parse_blocks
  parse_policy none = some zero_policy
  parse_policy (some p) = do
    max ← p.max
    some (record zero_policy {
      id = p.id;
      type = p.type;
      max = max;
      min = elim p.min [ none ↦ pos 0 | some n ↦ n ];
      enabled = elim p.enabled [ none ↦ true | some b ↦ b ];
      checks = parse_checks (policy_value key_checks p);
      evaluation_interval = duration_or_zero (policy_value key_evaluation_interval p);
      cooldown = duration_or_zero (policy_value key_cooldown p);
      target = policy_target (policy_value key_target p) p.target;
    })
