-- ===== src/Cluster/Examples/Pods.antt =====
-- The theorems on pods at concrete pods.
use humio_operator.Common.{
  ◌≡◌, ◌≢◌, refl, All, List, if◌then◌else◌, ◌==◌, Bool, true, false, Option, none, some, [], ◌∷◌,
  arith, keep, any, String,
}
use humio_operator.Common.Int.{ℤ, pos, ◌+ℤ◌, ◌-ℤ◌}
use humio_operator.Common.Format.{atoi}
use humio_operator.Common.Map.{get_text, lookup}
use humio_operator.K8s.{Pod, PodSpec}
use humio_operator.Cluster.Types.{
  HumioNodePool, IntOrString, strategy_on_delete, state_upgrading, state_running,
}
use humio_operator.Cluster.NodePool.{get_node_pool_name, get_update_strategy, use_envtest}
use humio_operator.Cluster.Pvc.{Attached}
use humio_operator.Cluster.Version.{HumioVersion, humio_version_from_string}
use humio_operator.Cluster.PodsStatus.{
  PodsStatus, get_pods_status, sort_pods, image_of, remaining_min_ready_wait_time,
}
use humio_operator.Cluster.PodsStatus.Counts.{IsCounted, get_pods_status-IsCounted}
use humio_operator.Cluster.PodCompare.{
  pod_revision_annotation, bootstrap_token_hash_annotation, container_by_name, new_pod_comparison,
  Comparison, has_critical_mismatch, has_warning_mismatch, matches, mismatched_humio_versions,
  env_mismatches,
}
use humio_operator.Cluster.PodCompare.Classification.{new_pod_comparison_classifies}
use humio_operator.Cluster.PodCompare.Environment.{env_mismatches_exact, among}
use humio_operator.Cluster.EnvVars.{env_var_has_key, env_var_value}
use humio_operator.Cluster.Sanitize.{sanitize_pod}
use humio_operator.Cluster.Lifecycle.{PodLifecycleState, lifecycle_loop}
use humio_operator.Cluster.Lifecycle.Selection.{lifecycle_loop_exact, replaceable, with_new_image}
use humio_operator.Cluster.Deletion.{handle_differences}
use humio_operator.Cluster.Deletion.Settling.{KeepsRevision, revision_settles}
use humio_operator.Cluster.Deletion.Budget.{IsBudgeted, handle_differences-IsBudgeted}
use humio_operator.Cluster.Deletion.Outcomes.{handle_differences-IsExplained}
use humio_operator.Cluster.Deletion.Outcomes.Explained.{IsExplained, written_states}
use humio_operator.Cluster.Examples.{no_env, parse_version, var, humio, pod_of, rolling, pool_with}

abbrev old_pod : Pod
old_pod = pod_of "p0" ((pod_revision_annotation, "1") ∷ []) "humio:1.2.3"

abbrev new_pod : Pod
new_pod =
    pod_of "p1" ((pod_revision_annotation, "1") ∷ (bootstrap_token_hash_annotation, "t1") ∷ [])
      "humio:1.2.4"

abbrev version_3 : HumioVersion
version_3 = record {
  assume_latest = false;
  version = some (record { major = 1; minor = 2; patch = 3 });
}

abbrev version_4 : HumioVersion
version_4 = record {
  assume_latest = false;
  version = some (record { major = 1; minor = 2; patch = 4 });
}

abbrev not_attached : Pod → Attached
not_attached p = record { orphaned = false; has_error = false }

abbrev scaled_one : Option IntOrString → ℤ → Bool → Option ℤ
scaled_one max total up = some (pos 1)

abbrev one_ready : PodsStatus
one_ready = record {
  node_count = pos 1;
  ready_count = pos 0;
  not_ready_count = pos 1;
  not_ready_due_to_min_ready_seconds = pos 0;
  pod_revisions = pos 1 ∷ [];
  pod_image_versions = "humio:1.2.3" ∷ [];
  pod_deletion_timestamp_set = false ∷ [];
  pod_names = "p0" ∷ [];
  unschedulable_or_bad = [];
  evicted_or_orphaned = [];
  pods_ready = old_pod ∷ [];
  scaled_max_unavailable = pos 1;
  min_ready_seconds = pos 0;
}

abbrev all_ready : PodsStatus
all_ready = record one_ready { ready_count = pos 1; not_ready_count = pos 0 }

abbrev upgrade : PodLifecycleState
upgrade = record {
  node_pool = pool_with rolling "" (pos 1);
  pods_to_be_replaced = old_pod ∷ [];
  version_difference = some (record { from = some version_3; to = some version_4 });
  configuration_difference = some false;
}

abbrev manual_upgrade : PodLifecycleState
manual_upgrade = record upgrade {
  node_pool = pool_with (record rolling { type = strategy_on_delete }) "" (pos 1);
}

abbrev hash_2 : Pod → PodSpec → Option String
hash_2 pod spec = some "h1"

get_pods_status-IsCounted_example : IsCounted 1 all_ready
unfolding get_pods_status sort_pods atoi get_text image_of container_by_name
    remaining_min_ready_wait_time ◌+ℤ◌ ◌-ℤ◌ get_update_strategy
get_pods_status-IsCounted_example =
    get_pods_status-IsCounted not_attached 0 (pool_with rolling "" (pos 1)) scaled_one
      (old_pod ∷ []) all_ready refl

all_ready-IsCounted : IsCounted 1 all_ready
unfolding ◌+ℤ◌
all_ready-IsCounted = record {
  is_total = refl;
  is_listed = refl;
  is_scaled = omega arith;
  is_due = omega arith;
}

handle_differences-IsBudgeted_example : IsBudgeted state_upgrading all_ready upgrade (
    handle_differences no_env
      (λ n. "")
      (λ p. none)
      hash_2
      state_upgrading
      (pool_with rolling "" (pos 1))
      (old_pod ∷ [])
      all_ready
      upgrade
      new_pod)
handle_differences-IsBudgeted_example =
    handle_differences-IsBudgeted no_env (λ n. "") (λ p. none) hash_2 state_upgrading
      (pool_with rolling "" (pos 1)) (old_pod ∷ []) all_ready upgrade new_pod

handle_differences-IsExplained_example :
    IsExplained no_env
      (λ n. "")
      (λ p. none)
      hash_2
      state_upgrading
      (pool_with rolling "" (pos 1))
      (old_pod ∷ [])
      all_ready
      upgrade
      new_pod
      (handle_differences no_env
        (λ n. "")
        (λ p. none)
        hash_2
        state_upgrading
        (pool_with rolling "" (pos 1))
        (old_pod ∷ [])
        all_ready
        upgrade
        new_pod)
handle_differences-IsExplained_example =
    handle_differences-IsExplained no_env (λ n. "") (λ p. none) hash_2 state_upgrading
      (pool_with rolling "" (pos 1)) (old_pod ∷ []) all_ready upgrade new_pod

-- The first pod is in the zone under maintenance, the second in another, the third not on a node.
abbrev zonal_pool : HumioNodePool
zonal_pool = record (pool_with (record rolling { enable_zone_awareness = some true }) "" (pos 1)) {
  zone_under_maintenance = "zone-a";
}

abbrev zone_of_worker : String → String
zone_of_worker name = if name == "worker-1" then "zone-a" else "zone-b"

abbrev zonal_pods : List Pod
zonal_pods =
    old_pod
    ∷ record old_pod { spec = record old_pod.spec { node_name = "worker-2" } }
    ∷ record old_pod { spec = record old_pod.spec { node_name = "" } }
    ∷ []

lifecycle_loop_exact_example :
    (old_pod ∷ []
      ≡ keep (replaceable parse_version no_env zone_of_worker zonal_pool false new_pod) zonal_pods)
    × (true
        ≡ any
            (with_new_image parse_version no_env zone_of_worker zonal_pool false new_pod)
            zonal_pods)
unfolding lifecycle_loop new_pod_comparison humio_version_from_string container_by_name sanitize_pod
    matches get_text use_envtest get_update_strategy mismatched_humio_versions env_mismatches
lifecycle_loop_exact_example =
    lifecycle_loop_exact parse_version no_env zone_of_worker zonal_pool false new_pod zonal_pods
      (record upgrade { node_pool = zonal_pool }) refl

new_pod_comparison_classifies_example :
    (c : Comparison) × (new_pod_comparison parse_version no_env
        (pool_with rolling "" (pos 1))
        old_pod
        new_pod
      ≡ some c)
    × (has_critical_mismatch c ≡ true)
    × (has_warning_mismatch c ≡ false)
    × (matches c ≡ false)
    × ((mismatched_humio_versions c).0 ≡ true)
unfolding container_by_name get_text
new_pod_comparison_classifies_example =
    new_pod_comparison_classifies parse_version no_env (pool_with rolling "" (pos 1)) old_pod
      new_pod (humio "humio:1.2.3" []) (humio "humio:1.2.4" []) refl refl

env_mismatches_exact_example :
    among "A" (env_mismatches (var "A" "1" ∷ []) (var "A" "2" ∷ []) []) ≡ true
unfolding env_var_has_key env_var_value
env_mismatches_exact_example = env_mismatches_exact "A" (var "A" "1" ∷ []) (var "A" "2" ∷ [])

revision_settles_example : All (KeepsRevision (pool_with rolling "" (pos 1))) (
    written_states
      (handle_differences no_env
        (λ n. "")
        (λ p. none)
        hash_2
        state_running
        (pool_with rolling "" (pos 1))
        (old_pod ∷ [])
        all_ready
        upgrade
        new_pod).written)
unfolding lookup
revision_settles_example =
    revision_settles no_env (λ n. "") (λ p. none) hash_2 state_running
      (pool_with rolling "" (pos 1)) (old_pod ∷ []) all_ready upgrade new_pod refl refl

is_named : get_node_pool_name (pool_with rolling "" (pos 1)) ≢ ""
unfolding get_node_pool_name
is_named e = cc e
