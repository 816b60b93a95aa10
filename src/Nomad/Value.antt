-- ===== src/Nomad/Value.antt =====
-- The decoded JSON of a policy, and the fields of the API's scaling policy that policy/nomad reads.
use nomad_autoscaler.Prelude.{
  String, Bool, List, [], ◌∷◌, Option, none, some, Map, lookup, insert, ℤ,
}

-- `interface{}` as the decoder fills it. `other` stands for the types that no code here asks for,
-- with the text that the verb `%v` gives. Maps inside a value are not nil.
mutual
  pub data Value : Type 0 where
    null : Value
    text other : String → Value
    list : Values → Value
    object : Fields → Value

  pub data Values : Type 0 where
    no_item : Values
    item : Value → Values → Values

  pub data Fields : Type 0 where
    no_field : Fields
    field : String → Value → Fields → Fields

abbrev pub to_list : Values → List Value
to_list no_item = []
to_list (item v vs) = v ∷ to_list vs

-- The entries of a map are written to another one.
unfoldable pub insert_fields : Fields → Map Value → Map Value
insert_fields no_field m = m
insert_fields (field k v fs) m = insert_fields fs (insert k v m)

abbrev pub to_map : Fields → Map Value
to_map fs = insert_fields fs []

-- A read of a missing key.
abbrev pub value_at : String → Map Value → Value
value_at k m = elim (lookup k m) [ none ↦ null | some v ↦ v ]

abbrev insert_block : Value → Map Value → Map Value
insert_block (object fs) m = insert_fields fs m
insert_block _ m = m

-- The entries of all the maps of a list, the later ones first in force.
unfoldable pub flatten_blocks : List Value → Map Value → Map Value
flatten_blocks [] m = m
flatten_blocks (v ∷ vs) m = flatten_blocks vs (insert_block v m)

-- The fields of `api.ScalingPolicy` that the package reads; pointers and maps may be nil.
pub record ApiScalingPolicy : Type 0 where
  pub id : String
  pub type : String
  pub min : Option ℤ
  pub max : Option ℤ
  pub enabled : Option Bool
  pub target : Option (Map String)
  pub policy : Option (Map Value)

abbrev pub policy_value : String → ApiScalingPolicy → Value
policy_value k p = elim p.policy [ none ↦ null | some m ↦ value_at k m ]

abbrev pub key_source : String
key_source = "source"

abbrev pub key_query : String
key_query = "query"

abbrev pub key_query_window : String
key_query_window = "query_window"

abbrev pub key_evaluation_interval : String
key_evaluation_interval = "evaluation_interval"

abbrev pub key_target : String
key_target = "target"

abbrev pub key_checks : String
key_checks = "check"

abbrev pub key_strategy : String
key_strategy = "strategy"

abbrev pub key_cooldown : String
key_cooldown = "cooldown"
