-- ===== src/Cluster/Types.antt =====
-- The cluster resource and the node pool manager: `HumioCluster` of api/v1alpha1 and `HumioNodePool`
-- of internal/controller/humiocluster_defaults.go, with the fields that the modelled code reads.
use humio_operator.Common.{String, ◌≢◌, Bool, Option, List, eq_iff}
use humio_operator.Common.Int.{ℤ}
use humio_operator.K8s.{EnvVar, VolumeSource, PodSpec}

abbrev pub state_running : String
state_running = "Running"

abbrev pub state_restarting : String
state_restarting = "Restarting"

abbrev pub state_upgrading : String
state_upgrading = "Upgrading"

abbrev pub state_config_error : String
state_config_error = "ConfigError"

abbrev pub state_pending : String
state_pending = "Pending"

abbrev pub strategy_on_delete : String
strategy_on_delete = "OnDelete"

abbrev pub strategy_rolling_update : String
strategy_rolling_update = "RollingUpdate"

abbrev pub strategy_replace_all : String
strategy_replace_all = "ReplaceAllOnUpdate"

abbrev pub strategy_best_effort : String
strategy_best_effort = "RollingUpdateBestEffort"

-- Texts that compare as different are different; `ground` takes these instances as facts.
pub strategies_distinct :
    (strategy_replace_all ≢ strategy_rolling_update)
    × (strategy_replace_all ≢ strategy_best_effort)
    × (strategy_rolling_update ≢ strategy_best_effort)
    × (strategy_on_delete ≢ strategy_rolling_update)
    × (strategy_on_delete ≢ strategy_best_effort)
strategies_distinct = (
  λ e. cc ((eq_iff strategy_replace_all strategy_rolling_update).1 e),
  λ e. cc ((eq_iff strategy_replace_all strategy_best_effort).1 e),
  λ e. cc ((eq_iff strategy_rolling_update strategy_best_effort).1 e),
  λ e. cc ((eq_iff strategy_on_delete strategy_rolling_update).1 e),
  λ e. cc ((eq_iff strategy_on_delete strategy_best_effort).1 e),
)

pub states_distinct :
    (state_running ≢ state_restarting)
    × (state_running ≢ state_upgrading)
    × (state_config_error ≢ state_restarting)
    × (state_config_error ≢ state_upgrading)
    × (state_restarting ≢ state_upgrading)
states_distinct = (
  λ e. cc ((eq_iff state_running state_restarting).1 e),
  λ e. cc ((eq_iff state_running state_upgrading).1 e),
  λ e. cc ((eq_iff state_config_error state_restarting).1 e),
  λ e. cc ((eq_iff state_config_error state_upgrading).1 e),
  λ e. cc ((eq_iff state_restarting state_upgrading).1 e),
)

-- `intstr.IntOrString`
pub data IntOrString : Type 0 where
  int_value : ℤ → IntOrString
  text_value : String → IntOrString

pub record UpdateStrategy : Type 0 where
  pub type : String
  pub min_ready_seconds : ℤ
  pub enable_zone_awareness : Option Bool
  pub max_unavailable : Option IntOrString

pub record NodeSpec : Type 0 where
  pub node_count : ℤ
  pub update_strategy : Option UpdateStrategy
  pub environment_variables : List EnvVar
  -- `dataVolumePersistentVolumeClaimSpecTemplate`, if it is not empty
  pub pvc_template : Option String
  pub pvc_reclaim_type : String
  pub data_volume_source : VolumeSource
  pub tolerations : List String
  pub topology_spread_constraints : List String
  pub image_pull_policy : String

pub record NodePoolSpec : Type 0 where
  pub name : String
  pub spec : NodeSpec

-- The outer option is the pointer to the TLS section, the inner one that to its flag `enabled`.
abbrev pub TlsSpec : Type 0
TlsSpec = Option (Option Bool)

pub record ClusterSpec : Type 0 where
  pub node : NodeSpec
  pub common_environment_variables : List EnvVar
  pub node_pools : List NodePoolSpec
  pub target_replication_factor : ℤ
  pub tls : TlsSpec

pub record NodePoolStatus : Type 0 where
  pub name : String
  pub state : String
  pub zone_under_maintenance : String
  pub desired_pod_revision : ℤ
  pub desired_pod_hash : String
  pub desired_bootstrap_token_hash : String

pub record PodStatus : Type 0 where
  pub pod_name : String
  pub pvc_name : String
  pub node_name : String

pub record LicenseStatus : Type 0 where
  pub type : String
  pub expiration : String

pub record ClusterStatus : Type 0 where
  pub state : String
  pub message : String
  pub version : String
  pub node_count : ℤ
  pub pod_status : List PodStatus
  pub license_status : LicenseStatus
  pub node_pool_status : List NodePoolStatus
  pub observed_generation : String
  pub evicted_node_ids : List ℤ

pub record HumioCluster : Type 0 where
  pub name : String
  pub namespace : String
  pub spec : ClusterSpec
  pub status : ClusterStatus

pub record HumioNodePool : Type 0 where
  pub cluster_name : String
  pub node_pool_name : String
  pub namespace : String
  pub node_spec : NodeSpec
  pub tls : TlsSpec
  pub target_replication_factor : ℤ
  pub state : String
  pub zone_under_maintenance : String
  pub desired_pod_revision : ℤ
  pub desired_pod_hash : String
  pub desired_bootstrap_token_hash : String
  pub managed_fields_tracker : PodSpec
