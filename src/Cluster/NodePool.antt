-- ===== src/Cluster/NodePool.antt =====
-- Node pool managers: how they are built from a cluster resource, what they answer, and which of
-- them may be worked on. internal/controller/humiocluster_defaults.go,
-- internal/controller/humiocluster_controller.go, internal/helpers/helpers.go.
pub mod Maintenance
pub mod Cleanup
use humio_operator.Common.{
  ℕ, suc, ◌<>◌, String, Bool, true, false, not, Option, none, some, List, [], ◌∷◌, ◌++◌, map, ◌==◌,
  ◌&&◌, take, drop, keep, any, if◌then◌else◌,
}
use humio_operator.Common.Int.{ℤ, pos, ltb_ℤ, ◌+ℤ◌}
use humio_operator.K8s.{VolumeSource, empty_source, persistent_volume_claim, PodSpec}
use humio_operator.Cluster.Types.{
  HumioCluster, HumioNodePool, NodePoolSpec, NodePoolStatus, NodeSpec, UpdateStrategy, int_value,
  state_running, strategy_replace_all,
}
use humio_operator.Cluster.EnvVars.{merge_env_vars}

-- `os.Getenv`: a variable that is not set reads as "".
abbrev pub Getenv : Type 0
Getenv = String → String

-- UseEnvtest
unfoldable pub use_envtest : Getenv → Bool
use_envtest getenv = getenv "TEST_USING_ENVTEST" == "true"

-- UseCertManager
unfoldable pub use_cert_manager : Getenv → Bool
unfolding use_envtest
use_cert_manager getenv = if use_envtest getenv then false else getenv "USE_CERTMANAGER" == "true"

-- The fields that both constructors read from the status entry of the pool's name.
pub record PoolState : Type 0 where
  pub state : String
  pub zone_under_maintenance : String
  pub desired_pod_revision : ℤ
  pub desired_pod_hash : String
  pub desired_bootstrap_token_hash : String

abbrev pub no_state : PoolState
no_state = record {
  state = "";
  zone_under_maintenance = "";
  desired_pod_revision = pos 0;
  desired_pod_hash = "";
  desired_bootstrap_token_hash = "";
}

-- The loop over `hc.Status.NodePoolStatus` with its `break`.
unfoldable pub pool_state : String → List NodePoolStatus → PoolState
pool_state name [] = no_state
pool_state name (s ∷ rest) =
    if s.name == name
    then record {
      state = s.state;
      zone_under_maintenance = s.zone_under_maintenance;
      desired_pod_revision = s.desired_pod_revision;
      desired_pod_hash = s.desired_pod_hash;
      desired_bootstrap_token_hash = s.desired_bootstrap_token_hash;
    }
    else pool_state name rest

abbrev empty_pod_spec : PodSpec
empty_pod_spec = record {
  containers = [];
  init_containers = [];
  volumes = [];
  hostname = "";
  restart_policy = "";
  dns_policy = "";
  scheduler_name = "";
  priority = none;
  enable_service_links = none;
  preemption_policy = none;
  deprecated_service_account = "";
  node_name = "";
  tolerations = [];
  topology_spread_constraints = [];
  other_fields = "";
}

-- What the two constructors share: the spec of the pool, and the state under its status name.
manager_of : HumioCluster → String → NodeSpec → String → HumioNodePool
unfolding pool_state merge_env_vars
manager_of hc pool_name spec status_name =
    let s = pool_state status_name hc.status.node_pool_status in
    record {
      cluster_name = hc.name;
      node_pool_name = pool_name;
      namespace = hc.namespace;
      node_spec = record spec {
        environment_variables =
            merge_env_vars hc.spec.common_environment_variables spec.environment_variables;
      };
      tls = hc.spec.tls;
      target_replication_factor = hc.spec.target_replication_factor;
      state = s.state;
      zone_under_maintenance = s.zone_under_maintenance;
      desired_pod_revision = s.desired_pod_revision;
      desired_pod_hash = s.desired_pod_hash;
      desired_bootstrap_token_hash = s.desired_bootstrap_token_hash;
      managed_fields_tracker = empty_pod_spec;
    }

-- NewHumioNodeManagerFromHumioCluster
unfoldable pub manager_from_cluster : HumioCluster → HumioNodePool
unfolding manager_of
manager_from_cluster hc = manager_of hc "" hc.spec.node hc.name

-- NewHumioNodeManagerFromHumioNodePool
unfoldable pub manager_from_node_pool : HumioCluster → NodePoolSpec → HumioNodePool
unfolding manager_of
manager_from_node_pool hc pool =
    manager_of hc pool.name (record pool.spec { pvc_reclaim_type = "" })
      (hc.name <> "-" <> pool.name)

-- getHumioNodePoolManagers
unfoldable pub node_pool_managers : HumioCluster → List HumioNodePool
unfolding manager_from_cluster manager_from_node_pool
node_pool_managers hc = manager_from_cluster hc ∷ map (manager_from_node_pool hc) hc.spec.node_pools

-- GetNodePoolName
unfoldable pub get_node_pool_name : HumioNodePool → String
get_node_pool_name pool =
    if pool.node_pool_name == ""
    then pool.cluster_name
    else pool.cluster_name <> "-" <> pool.node_pool_name

-- GetNodeCount
abbrev pub get_node_count : HumioNodePool → ℤ
get_node_count pool = pool.node_spec.node_count

-- GetUpdateStrategy. The defaults that it stores through its receiver are the ones it returns.
unfoldable pub get_update_strategy : HumioNodePool → UpdateStrategy
get_update_strategy pool = elim pool.node_spec.update_strategy [
  | none ↦ record {
    type = strategy_replace_all;
    min_ready_seconds = pos 0;
    enable_zone_awareness = some true;
    max_unavailable = some (int_value (pos 1));
  }
  | some s ↦ record s {
    enable_zone_awareness = elim s.enable_zone_awareness [ none ↦ some true | some b ↦ some b ];
    max_unavailable = elim s.max_unavailable [ none ↦ some (int_value (pos 1)) | some m ↦ some m ];
  }
]

-- PVCsEnabled
abbrev pub pvcs_enabled : HumioNodePool → Bool
pvcs_enabled pool = elim pool.node_spec.pvc_template [ none ↦ false | some t ↦ true ]

-- GetDataVolumePersistentVolumeClaimSpecTemplate
unfoldable pub data_volume_claim_source : HumioNodePool → String → VolumeSource
data_volume_claim_source pool claim =
    if pvcs_enabled pool then persistent_volume_claim claim else empty_source

-- OkToDeletePvc, through GetDataVolumePersistentVolumeClaimPolicy
unfoldable pub ok_to_delete_pvc : HumioNodePool → Bool
ok_to_delete_pvc pool =
    (if pvcs_enabled pool then pool.node_spec.pvc_reclaim_type else "") == "OnNodeDelete"

-- TLSEnabled of a node pool
unfoldable pub tls_enabled : Getenv → HumioNodePool → Bool
unfolding use_cert_manager
tls_enabled getenv pool = elim pool.tls [
  | none ↦ use_cert_manager getenv
  | some none ↦ use_cert_manager getenv
  | some (some enabled) ↦ use_cert_manager getenv && enabled
]

-- GetProbeScheme
unfoldable pub probe_scheme : Getenv → HumioNodePool → String
unfolding tls_enabled
probe_scheme getenv pool = if not (tls_enabled getenv pool) then "HTTP" else "HTTPS"

-- NodePoolFilterHasNode
abbrev pub node_pool_filter_has_node : HumioNodePool → Bool
node_pool_filter_has_node pool = ltb_ℤ (pos 0) (get_node_count pool)

-- HumioNodePoolList.Filter
abbrev pub filter_node_pools : (HumioNodePool → Bool) → List HumioNodePool → List HumioNodePool
filter_node_pools f pools = keep f pools

-- The inner loop of currentlyConfiguredNodePoolsInMaintenance: the pool is appended once for each
-- status entry of its name that is not running.
maintenance_entries : HumioNodePool → List NodePoolStatus → List HumioNodePool
unfolding get_node_pool_name
maintenance_entries pool [] = []
maintenance_entries pool (s ∷ rest) =
    let later = maintenance_entries pool rest in
    if s.name == get_node_pool_name pool && not (s.state == state_running)
    then pool ∷ later
    else later

-- currentlyConfiguredNodePoolsInMaintenance
unfoldable pub node_pools_in_maintenance :
    List NodePoolStatus → List HumioNodePool → List HumioNodePool
unfolding maintenance_entries
node_pools_in_maintenance statuses [] = []
node_pools_in_maintenance statuses (pool ∷ pools) =
    maintenance_entries pool statuses ++ node_pools_in_maintenance statuses pools

-- The loop of nodePoolAllowsMaintenanceOperations over the pools in maintenance.
among_names : HumioNodePool → List HumioNodePool → Bool
unfolding get_node_pool_name
among_names pool [] = false
among_names pool (p ∷ ps) =
    if get_node_pool_name pool == get_node_pool_name p then true else among_names pool ps

allows_with : HumioNodePool → List HumioNodePool → Bool
unfolding among_names
allows_with pool [] = true
allows_with pool (p ∷ ps) = among_names pool (p ∷ ps)

-- nodePoolAllowsMaintenanceOperations
unfoldable pub allows_maintenance_operations :
    List NodePoolStatus → HumioNodePool → List HumioNodePool → Bool
unfolding node_pools_in_maintenance allows_with
allows_maintenance_operations statuses pool pools =
    allows_with pool (node_pools_in_maintenance statuses pools)

-- `validPool` of hasNoUnusedNodePoolStatus
unfoldable pub valid_pool : List HumioNodePool → NodePoolStatus → Bool
unfolding get_node_pool_name
valid_pool pools s =
    any (λ (p : HumioNodePool). s.name == get_node_pool_name p && ltb_ℤ (pos 0) (get_node_count p))
      pools

-- The loop of hasNoUnusedNodePoolStatus from the index `idx` on: `none` stands for its answer
-- `true, 0`, and `some i` for `false, i`.
unused_from : List HumioNodePool → ℕ → List NodePoolStatus → Option ℕ
unfolding valid_pool
unused_from pools idx [] = none
unused_from pools idx (s ∷ rest) =
    if valid_pool pools s then unused_from pools (suc idx) rest else some idx

-- hasNoUnusedNodePoolStatus
unfoldable pub unused_node_pool_status : List HumioNodePool → List NodePoolStatus → Option ℕ
unfolding unused_from
unused_node_pool_status pools statuses = unused_from pools 0 statuses

-- cleanupUnusedNodePoolStatus
unfoldable pub cleanup_unused_node_pool_status : List NodePoolStatus → ℕ → List NodePoolStatus
cleanup_unused_node_pool_status statuses idx = take idx statuses ++ drop (suc idx) statuses

-- The total of validateNodeCount.
total_node_count : List HumioNodePool → ℤ → ℤ
total_node_count [] total = total
total_node_count (p ∷ ps) total = total_node_count ps (total +ℤ get_node_count p)

-- validateNodeCount: whether it returns an error.
unfoldable pub node_count_too_low : HumioCluster → List HumioNodePool → Bool
unfolding total_node_count manager_from_cluster
node_count_too_low hc pools =
    ltb_ℤ (total_node_count pools (pos 0)) (manager_from_cluster hc).target_replication_factor
