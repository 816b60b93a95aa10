-- ===== src/Plugins.antt =====
-- The plugin interfaces of plugins/apm, plugins/strategy and plugins/target, and the store of running
-- plugins of plugins/manager/manager.go. A plugin's answers are functions of its arguments, and an
-- error is its message. A nil pointer without an error is `none`.
use nomad_autoscaler.Prelude.{
  String, Bool, true, false, ◌&&◌, List, [], ◌∷◌, Option, none, some, Map, ℤ, if◌then◌else◌, str_eq,
}
use nomad_autoscaler.Sdk.Policy.{TargetStatus}
use nomad_autoscaler.Sdk.Action.{ScalingAction}
use nomad_autoscaler.Sdk.Eval.{TimestampedMetric, ScalingCheckEvaluation}

pub data Result {ℓ} (A : Type ℓ) : Type ℓ where
  ok : A → Result A
  failed : String → Result A

pub record TimeRange : Type 0 where
  pub from : ℤ
  pub to : ℤ

pub record Apm : Type 0 where
  pub query : String → TimeRange → Result (List TimestampedMetric)

pub record Strategy : Type 0 where
  pub run : ScalingCheckEvaluation → ℤ → Result (Option ScalingCheckEvaluation)

pub record Target : Type 0 where
  pub status : Map String → Result (Option TargetStatus)
  pub scale : ScalingAction → Map String → Result {0} Unit

pub data PluginType : Type 0 where
  apm strategy target : PluginType

abbrev eq_type : PluginType → PluginType → Bool
eq_type apm apm = true
eq_type strategy strategy = true
eq_type target target = true
eq_type _ _ = false

pub record PluginId : Type 0 where
  pub name : String
  pub plugin_type : PluginType

-- What `Plugin()` gives, by the interface that it satisfies.
pub data PluginInstance : Type 0 where
  apm_instance : Apm → PluginInstance
  strategy_instance : Strategy → PluginInstance
  target_instance : Target → PluginInstance
  other_instance : PluginInstance

unfoldable pub dispense :
    String → PluginType → List (PluginId × PluginInstance) → Option PluginInstance
dispense name type [] = none
dispense name type ((id, inst) ∷ instances) =
    if str_eq id.name name && eq_type id.plugin_type type
    then some inst
    else dispense name type instances
