-- ===== src/Cluster.antt =====
-- sdk/helper/scaleutils: the data of the helpers that take Nomad clients out of a cluster, and their
-- errors. An error is a constructor with the values that its message shows; a multierror is the
-- list of its errors, and nil is the empty list. The constants of Nomad's API are its words.
pub mod Filter
pub mod Remote
pub mod ScaleIn
pub mod Stability
pub mod Selection
pub mod Drains
pub mod Tasks
pub mod Readiness
mod Tests
use nomad_autoscaler.Prelude.{◌≡◌, ◌⊎◌, inl, inr, refl, String, Bool, List, Option, Map, ℤ}

-- `api.NodeListStub`
pub record Node : Type 0 where
  pub id : String
  pub node_class : String
  pub status : String
  pub scheduling_eligibility : String
  pub drain : Bool

-- `api.Node`
pub record NodeInfo : Type 0 where
  pub attributes : Map String
  pub meta : Map String

abbrev pub node_status_init : String
node_status_init = "initializing"

abbrev pub node_status_ready : String
node_status_ready = "ready"

abbrev pub node_scheduling_eligible : String
node_scheduling_eligible = "eligible"

pub record NodeId : Type 0 where
  pub nomad_id : String
  pub remote_id : String

pub record PoolIdentifier : Type 0 where
  pub identifier_key : String
  pub value : String

abbrev pub identifier_key_class : String
identifier_key_class = "class"

abbrev pub default_class_identifier : String
default_class_identifier = "autoscaler-default-pool"

abbrev pub id_strategy_newest_create_index : String
id_strategy_newest_create_index = "newest_create_index"

pub record ScaleInReq : Type 0 where
  pub num : ℤ
  pub drain_deadline : ℤ
  pub ignore_system_jobs : Bool
  pub pool_identifier : Option PoolIdentifier
  pub remote_provider : String
  pub node_id_strategy : String

pub data NodeError : Type 0 where
  is_initializing is_draining is_ineligible : String → NodeError

pub data RequestError : Type 0 where
  num_not_positive deadline_zero no_pool_identifier no_remote_provider no_strategy : RequestError

pub data DrainError : Type 0 where
  update_failed monitoring_failed : String → DrainError

pub data ClusterError : Type 0 where
  unsupported_identifier : String → ClusterError
  unstable : List NodeError → ClusterError
  list_failed : String → ClusterError
  invalid_request : List RequestError → ClusterError
  no_nodes : ClusterError
  unsupported_strategy : String → ClusterError
  no_id_function : String → ClusterError
  info_failed : String → ClusterError
  attributes_missing : List String → ClusterError
  drains_failed : List DrainError → ClusterError

pub data Attempt {ℓ} (A : Type ℓ) : Type ℓ where
  succeeded : A → Attempt A
  rejected : ClusterError → Attempt A

infixl 5 ◌>>=◌
abbrev pub ◌>>=◌ {ℓ κ} : {A : Type ℓ} {B : Type κ} → Attempt A → (A → Attempt B) → Attempt B
succeeded a >>= f = f a
rejected e >>= f = rejected e

pub Attempt-cases {ℓ} :
    {A : Type ℓ} (m : Attempt A)
    → ((a : A) × (m ≡ succeeded a)) ⊎ ((e : ClusterError) × (m ≡ rejected e))
Attempt-cases (succeeded a) = inl (a, refl)
Attempt-cases (rejected e) = inr (e, refl)
