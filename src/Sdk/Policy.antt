-- ===== src/Sdk/Policy.antt =====
-- sdk/policy.go and sdk/target.go: scaling policies, their checks and their targets.
-- A pointer is `Option` where the code tests it for nil. Durations are integers of nanoseconds.
use nomad_autoscaler.Prelude.{
  String, Bool, ◌&&◌, List, [], ◌∷◌, Option, none, some, Map, lookup, ℤ, is_some, ◌>>=◌,
}

pub record ScalingPolicyStrategy : Type 0 where
  pub name : String
  pub config : Map String

pub record ScalingPolicyTarget : Type 0 where
  pub name : String
  pub config : Map String

pub record ScalingPolicyCheck : Type 0 where
  pub name : String
  pub source : String
  pub query : String
  pub query_window : ℤ
  pub strategy : Option ScalingPolicyStrategy

pub record ScalingPolicy : Type 0 where
  pub id : String
  pub type : String
  pub priority : ℤ
  pub min : ℤ
  pub max : ℤ
  pub enabled : Bool
  pub cooldown : ℤ
  pub evaluation_interval : ℤ
  pub checks : List ScalingPolicyCheck
  pub target : Option ScalingPolicyTarget

-- `new(ScalingPolicy)`: every field has its zero value.
abbrev pub zero_policy : ScalingPolicy
zero_policy = record {
  id = "";
  type = "";
  priority = ℤ.pos 0;
  min = ℤ.pos 0;
  max = ℤ.pos 0;
  enabled = Bool.false;
  cooldown = ℤ.pos 0;
  evaluation_interval = ℤ.pos 0;
  checks = [];
  target = none;
}

pub record TargetStatus : Type 0 where
  pub ready : Bool
  pub count : ℤ
  pub meta : Map String

abbrev pub target_status_meta_key_last_event : String
target_status_meta_key_last_event = "nomad_autoscaler.last_event"

abbrev pub target_config_key_job : String
target_config_key_job = "Job"

abbrev pub target_config_key_task_group : String
target_config_key_task_group = "Group"

abbrev pub target_config_key_class : String
target_config_key_class = "node_class"

abbrev pub target_config_key_node_purge : String
target_config_key_node_purge = "node_purge"

unfoldable pub is_job_task_group_target : ScalingPolicyTarget → Bool
is_job_task_group_target t =
    is_some (lookup target_config_key_job t.config)
    && is_some (lookup target_config_key_task_group t.config)

unfoldable pub is_node_pool_target : ScalingPolicyTarget → Bool
is_node_pool_target t = is_some (lookup target_config_key_class t.config)

pub record FileDecodePolicyCheckDoc : Type 0 where
  pub name : String
  pub source : String
  pub query : String
  pub query_window : ℤ
  pub query_window_hcl : String
  pub strategy : Option ScalingPolicyStrategy

pub record FileDecodePolicyDoc : Type 0 where
  pub cooldown : ℤ
  pub cooldown_hcl : String
  pub evaluation_interval : ℤ
  pub evaluation_interval_hcl : String
  pub checks : List FileDecodePolicyCheckDoc
  pub target : Option ScalingPolicyTarget

pub record FileDecodeScalingPolicy : Type 0 where
  pub name : String
  pub enabled : Bool
  pub type : String
  pub min : ℤ
  pub max : ℤ
  pub doc : Option FileDecodePolicyDoc

unfoldable pub translate_check : FileDecodePolicyCheckDoc → ScalingPolicyCheck
translate_check fdc = record {
  name = fdc.name;
  source = fdc.source;
  query = fdc.query;
  query_window = fdc.query_window;
  strategy = fdc.strategy;
}

unfoldable pub translate_checks : List FileDecodePolicyCheckDoc → List ScalingPolicyCheck
unfolding translate_check
translate_checks [] = []
translate_checks (c ∷ cs) = translate_check c ∷ translate_checks cs

-- Without a `policy` block the nil document is a run-time panic, `none` here.
unfoldable pub translate : FileDecodeScalingPolicy → Option ScalingPolicy
unfolding translate_checks
translate fpd = do
  doc ← fpd.doc
  some (record zero_policy {
    min = fpd.min;
    max = fpd.max;
    enabled = fpd.enabled;
    type = fpd.type;
    cooldown = doc.cooldown;
    evaluation_interval = doc.evaluation_interval;
    target = doc.target;
    checks = translate_checks doc.checks;
  })
