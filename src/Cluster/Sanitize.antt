-- ===== src/Cluster/Sanitize.antt =====
-- `sanitizePod` of internal/controller/humiocluster_pods.go, which clears what differs between a
-- running pod and the pod that the operator would build.
pub mod Order
use text.Mathlib.Text.{starts_with, is_lt}
use Prim.Native.String.{compare}
use humio_operator.Common.{
  ℕ, ◌<>◌, String, Bool, true, false, not, Option, none, some, List, [], ◌∷◌, ◌++◌, map, ◌==◌, ◌&&◌,
  if◌then◌else◌,
}
use humio_operator.Common.Int.{pos}
use humio_operator.K8s.{EnvVar, Container, Volume, VolumeSource, secret, empty_source, PodSpec, Pod}
use humio_operator.Cluster.Types.{HumioNodePool}
use humio_operator.Cluster.NodePool.{
  Getenv, get_node_pool_name, data_volume_claim_source, probe_scheme,
}

abbrev pub humio_container_name : String
humio_container_name = "humio"

abbrev pub humio_data_volume_name : String
humio_data_volume_name = "humio-data"

-- `strings.ToLower` on the two schemes that `GetProbeScheme` returns.
lower_scheme : String → String
lower_scheme s = if s == "HTTP" then "http" else "https"

-- headlessServiceName
abbrev headless_service_name : String → String
headless_service_name cluster = cluster <> "-headless"

-- The value that `EXTERNAL_URL` gets; the port is `HumioPort`.
unfoldable pub external_url : Getenv → HumioNodePool → String
unfolding lower_scheme
external_url getenv pool =
    lower_scheme (probe_scheme getenv pool)
    <> "://"
    <> get_node_pool_name pool
    <> "-core-"
    <> ""
    <> "."
    <> headless_service_name pool.cluster_name
    <> "."
    <> pool.namespace
    <> ":8080"

sanitize_env_var : Getenv → HumioNodePool → EnvVar → EnvVar
sanitize_env_var getenv pool e =
    if e.name == "EXTERNAL_URL"
    then record { name = "EXTERNAL_URL"; value = external_url getenv pool; value_from = none }
    else e

-- The first loop: the variables of the container of that name.
sanitize_env : Getenv → HumioNodePool → Container → List EnvVar
unfolding sanitize_env_var
sanitize_env getenv pool c =
    if c.name == humio_container_name then map (sanitize_env_var getenv pool) c.env else c.env

-- `sort.SliceStable` by descending name: `name_above a b` is `a.Name > b.Name`.
unfoldable pub name_above : EnvVar → EnvVar → Bool
name_above a b = is_lt (compare b.name a.name)

insert_sorted : EnvVar → List EnvVar → List EnvVar
unfolding name_above
insert_sorted x [] = x ∷ []
insert_sorted x (y ∷ ys) = if name_above y x then y ∷ insert_sorted x ys else x ∷ y ∷ ys

unfoldable pub sort_env : List EnvVar → List EnvVar
unfolding insert_sorted
sort_env [] = []
sort_env (x ∷ xs) = insert_sorted x (sort_env xs)

-- The last loops over the containers: three fields get one value, and the variables are sorted.
finish_container : HumioNodePool → List EnvVar → Container → Container
unfolding sort_env
finish_container pool env c = record c {
  env = sort_env env;
  image_pull_policy = pool.node_spec.image_pull_policy;
  termination_message_path = "";
  termination_message_policy = "";
}

unfoldable pub sanitize_container : Getenv → HumioNodePool → Container → Container
unfolding sanitize_env finish_container
sanitize_container getenv pool c = finish_container pool (sanitize_env getenv pool c) c

-- `reflect.DeepEqual(volume.PersistentVolumeClaim, emptyPersistentVolumeClaimSource)` compares a
-- pointer with a struct, two types, and such values are never deeply equal.
claim_equals_empty_struct : VolumeSource → Bool
claim_equals_empty_struct source = false

-- The loop over the volumes.
unfoldable pub sanitize_volume : String → HumioNodePool → Volume → Volume
unfolding claim_equals_empty_struct
sanitize_volume hostname pool v =
    if v.name == humio_data_volume_name && claim_equals_empty_struct v.source
    then record { name = humio_data_volume_name; source = pool.node_spec.data_volume_source }
    else if v.name == humio_data_volume_name && not (claim_equals_empty_struct v.source)
    then record { name = humio_data_volume_name; source = data_volume_claim_source pool "" }
    else if v.name == "tls-cert"
    then record { name = "tls-cert"; source = secret hostname (pos 420) }
    else if v.name == "init-service-account-secret"
    then record {
      name = "init-service-account-secret";
      source = secret (get_node_pool_name pool <> "-init-" <> "") (pos 420);
    }
    else if starts_with "kube-api-access-" v.name
    then record { name = "kube-api-access-"; source = empty_source }
    else v

-- sanitizePod
unfoldable pub sanitize_pod : Getenv → HumioNodePool → Pod → Pod
unfolding sanitize_container sanitize_volume finish_container
sanitize_pod getenv pool pod =
    let host = get_node_pool_name pool <> "-core-" <> "" in
    record pod {
      spec = record pod.spec {
        containers = map (sanitize_container getenv pool) pod.spec.containers;
        init_containers =
            map (λ (c : Container). finish_container pool c.env c) pod.spec.init_containers;
        volumes = map (sanitize_volume host pool) pod.spec.volumes;
        hostname = host;
        restart_policy = "";
        dns_policy = "";
        scheduler_name = "";
        priority = none;
        enable_service_links = none;
        preemption_policy = none;
        deprecated_service_account = "";
        node_name = "";
        tolerations = pool.node_spec.tolerations;
        topology_spread_constraints = pool.node_spec.topology_spread_constraints;
      };
    }
