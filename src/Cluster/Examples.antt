-- ===== src/Cluster/Examples.antt =====
-- Concrete inputs for the reconciler's code: one pool with a pod, and the theorems applied to them.
mod Pods
mod Statuses
mod Pools
mod Nodes
mod Creation
mod Downscaling
mod Hash
use humio_operator.Common.{
  String, Bool, true, false, Option, none, some, List, [], ◌∷◌, ◌==◌, if◌then◌else◌,
}
use humio_operator.Common.Int.{ℤ, pos}
use humio_operator.Common.Map.{Map}
use humio_operator.K8s.{
  EnvVar, Container, PodSpec, Pod, PodCondition, empty_source, condition_true, pod_ready,
}
use humio_operator.Cluster.Types.{
  UpdateStrategy, NodeSpec, HumioNodePool, strategy_rolling_update, int_value, NodePoolStatus,
  ClusterStatus, LicenseStatus, state_running,
}
use humio_operator.Cluster.NodePool.{Getenv}
use humio_operator.Cluster.Version.{Semver}

abbrev pub no_env : Getenv
no_env name = ""

-- A parser that knows two versions.
abbrev pub parse_version : String → Option Semver
parse_version s =
    if s == "1.2.3"
    then some (record { major = 1; minor = 2; patch = 3 })
    else if s == "1.2.4"
    then some (record { major = 1; minor = 2; patch = 4 })
    else none

abbrev pub var : String → String → EnvVar
var name value = record { name = name; value = value; value_from = none }

abbrev pub humio : String → List EnvVar → Container
humio image env = record {
  name = "humio";
  image = image;
  env = env;
  image_pull_policy = "";
  termination_message_path = "";
  termination_message_policy = "";
  other_fields = "";
}

abbrev pub spec_of : List Container → PodSpec
spec_of containers = record {
  containers = containers;
  init_containers = [];
  volumes = [];
  hostname = "";
  restart_policy = "";
  dns_policy = "";
  scheduler_name = "";
  priority = none;
  enable_service_links = none;
  preemption_policy = none;
  deprecated_service_account = "";
  node_name = "worker-1";
  tolerations = [];
  topology_spread_constraints = [];
  other_fields = "";
}

abbrev pub ready : PodCondition
ready = record {
  type = pod_ready;
  status = condition_true;
  reason = "";
  last_transition_time = none;
}

-- A ready pod with the humio container alone.
abbrev pub pod_of : String → Map String → String → Pod
pod_of name annotations image = record {
  name = name;
  labels = [];
  annotations = annotations;
  deletion_timestamp = none;
  spec = spec_of (humio image [] ∷ []);
  phase = "Running";
  reason = "";
  conditions = ready ∷ [];
  container_statuses = [];
}

abbrev pub rolling : UpdateStrategy
rolling = record {
  type = strategy_rolling_update;
  min_ready_seconds = pos 0;
  enable_zone_awareness = some false;
  max_unavailable = some (int_value (pos 1));
}

abbrev pub pool_with : UpdateStrategy → String → ℤ → HumioNodePool
pool_with strategy name nodes = record {
  cluster_name = "example";
  node_pool_name = name;
  namespace = "logging";
  node_spec = record {
    node_count = nodes;
    update_strategy = some strategy;
    environment_variables = [];
    pvc_template = none;
    pvc_reclaim_type = "";
    data_volume_source = empty_source;
    tolerations = [];
    topology_spread_constraints = [];
    image_pull_policy = "";
  };
  tls = none;
  target_replication_factor = pos 1;
  state = state_running;
  zone_under_maintenance = "";
  desired_pod_revision = pos 1;
  desired_pod_hash = "h1";
  desired_bootstrap_token_hash = "t1";
  managed_fields_tracker = spec_of [];
}

abbrev pub pool_status : String → String → NodePoolStatus
pool_status name state = record {
  name = name;
  state = state;
  zone_under_maintenance = "";
  desired_pod_revision = pos 1;
  desired_pod_hash = "h1";
  desired_bootstrap_token_hash = "t1";
}

abbrev pub status_with : List NodePoolStatus → ClusterStatus
status_with pools = record {
  state = state_running;
  message = "";
  version = "";
  node_count = pos 1;
  pod_status = [];
  license_status = record { type = ""; expiration = "" };
  node_pool_status = pools;
  observed_generation = "";
  evicted_node_ids = [];
}
