-- ===== src/Cluster/Lifecycle.antt =====
-- What to do with the pods of a node pool: internal/controller/humiocluster_pod_lifecycle.go and
-- `getPodDesiredLifecycleState` of internal/controller/humiocluster_pods.go. Building the desired
-- pod is a parameter.
pub mod Strategy
pub mod Selection
use humio_operator.Common.{
  String, Bool, true, false, not, Option, none, some, List, [], ◌∷◌, ◌++◌, map, ◌==◌, ◌&&◌, ◌||◌,
  is_some, eqb, if◌then◌else◌,
}
use humio_operator.Common.Map.{insert}
use humio_operator.K8s.{Pod}
use humio_operator.Cluster.Types.{
  HumioNodePool, strategy_on_delete, strategy_rolling_update, strategy_replace_all,
  strategy_best_effort,
}
use humio_operator.Cluster.NodePool.{Getenv, get_update_strategy, use_envtest}
use humio_operator.Cluster.Version.{HumioVersion, Semver}
use humio_operator.Cluster.PodCompare.{
  Comparison, new_pod_comparison, matches, has_warning_mismatch, mismatched_humio_versions,
  bootstrap_token_hash_annotation,
}

-- podLifecycleStateVersionDifference; `none` is a nil pointer.
pub record VersionDifference : Type 0 where
  pub from : Option HumioVersion
  pub to : Option HumioVersion

-- PodLifeCycleState; a configuration difference is its flag `requiresSimultaneousRestart`.
pub record PodLifecycleState : Type 0 where
  pub node_pool : HumioNodePool
  pub pods_to_be_replaced : List Pod
  pub version_difference : Option VersionDifference
  pub configuration_difference : Option Bool

-- NewPodLifecycleState
abbrev pub new_pod_lifecycle_state : HumioNodePool → PodLifecycleState
new_pod_lifecycle_state pool = record {
  node_pool = pool;
  pods_to_be_replaced = [];
  version_difference = none;
  configuration_difference = none;
}

-- FoundVersionDifference
abbrev pub found_version_difference : PodLifecycleState → Bool
found_version_difference p = is_some p.version_difference

-- FoundConfigurationDifference
abbrev pub found_configuration_difference : PodLifecycleState → Bool
found_configuration_difference p = is_some p.configuration_difference

-- `from.IsLatest() || to.IsLatest()`. Here and below `none` is a nil pointer that is followed.
either_latest : VersionDifference → Option Bool
either_latest d = elim d.from [
  | none ↦ none
  | some f ↦
      if f.assume_latest
      then some true
      else elim d.to [ none ↦ none | some t ↦ some t.assume_latest ]
]

same_semver : Semver → Semver → Bool
same_semver f t = eqb f.major t.major && eqb f.minor t.minor

-- The comparison of the major and the minor versions.
same_major_and_minor : VersionDifference → Option Bool
unfolding same_semver
same_major_and_minor d = elim d.from [
  | none ↦ none
  | some f ↦ elim d.to [
    | none ↦ none
    | some t ↦ elim f.version [
      | none ↦ none
      | some a ↦ elim t.version [ none ↦ none | some b ↦ some (same_semver a b) ]
    ]
  ]
]

-- The rest of ShouldRollingRestart after the test for latest images.
by_strategy : PodLifecycleState → Option Bool
unfolding same_major_and_minor
by_strategy p =
    let type = (get_update_strategy p.node_pool).type in
    if elim p.configuration_difference [ none ↦ false | some simultaneous ↦ simultaneous ]
    then some false
    else if type == strategy_replace_all
    then some false
    else if type == strategy_rolling_update
    then some true
    else if type == strategy_best_effort
    then elim p.version_difference [ none ↦ some false | some d ↦ same_major_and_minor d ]
    else some false

-- ShouldRollingRestart
unfoldable pub should_rolling_restart : PodLifecycleState → Option Bool
unfolding either_latest by_strategy
should_rolling_restart p = elim p.version_difference [
  | none ↦ by_strategy p
  | some d ↦ elim (either_latest d) [
    | none ↦ none
    | some true ↦ some false
    | some false ↦ by_strategy p
  ]
]

-- ADifferenceWasDetectedAndManualDeletionsNotEnabled
unfoldable pub difference_detected_and_manual_deletions_not_enabled : PodLifecycleState → Bool
difference_detected_and_manual_deletions_not_enabled p =
    if (get_update_strategy p.node_pool).type == strategy_on_delete
    then false
    else found_version_difference p || found_configuration_difference p

-- namesOfPodsToBeReplaced
abbrev pub names_of_pods_to_be_replaced : PodLifecycleState → List String
names_of_pods_to_be_replaced p = map (λ (q : Pod). q.name) p.pods_to_be_replaced

-- `*hnp.GetUpdateStrategy().EnableZoneAwareness`, which is never nil.
abbrev pub zone_awareness : HumioNodePool → Bool
zone_awareness pool = elim (get_update_strategy pool).enable_zone_awareness [
  | none ↦ false
  | some b ↦ b
]

-- environmentVariablesRequiringSimultaneousRestartRestart
abbrev pub simultaneous_restart_variables : List String
simultaneous_restart_variables = "EXTERNAL_URL" ∷ []

-- The loop over the mismatched annotations.
note_annotations : List String → Option Bool → Option Bool
note_annotations [] d = d
note_annotations (a ∷ rest) d = note_annotations rest (some false)

-- The inner and the outer loop over the mismatched variables.
note_variable : String → List String → Option Bool → Option Bool
note_variable e [] d = d
note_variable e (v ∷ vs) d = note_variable e vs (if e == v then some true else d)

note_variables : List String → Option Bool → Option Bool
unfolding note_variable
note_variables [] d = d
note_variables (e ∷ es) d = note_variables es (note_variable e simultaneous_restart_variables d)

-- What one pod that is not skipped writes to the two differences.
note_differences : Comparison → PodLifecycleState → PodLifecycleState
unfolding note_annotations note_variables
note_differences c s =
    let (mismatch, versions) = mismatched_humio_versions c in
    record s {
      version_difference =
          if mismatch
          then some (record { from = versions.from; to = versions.to })
          else s.version_difference;
      configuration_difference =
          note_variables c.env_mismatches
            (note_annotations c.annotation_mismatches s.configuration_difference);
    }

-- Whether zone awareness lets the pod be replaced now.
unfoldable pub zone_allows : Getenv → (String → String) → HumioNodePool → Bool → Pod → Bool
zone_allows getenv zone pool bypass pod =
    if not (use_envtest getenv) && not bypass && zone_awareness pool
    then if pod.spec.node_name == ""
      then false
      else not (
          not (pool.zone_under_maintenance == "")
          && not (zone pod.spec.node_name == pool.zone_under_maintenance))
    else true

module _ (new_version : String → Option Semver) (getenv : Getenv) (zone : String → String)
    (pool : HumioNodePool) (bypass : Bool) (desired : Pod) where
  -- One round of the loop, for a pod with its comparison.
  consider : Comparison → Pod → PodLifecycleState → PodLifecycleState
  unfolding note_differences zone_allows
  consider c pod s =
      if matches c
      then s
      else if has_warning_mismatch c
      then s
      else let t = note_differences c s in
        if zone_allows getenv zone pool bypass pod
        then record t { pods_to_be_replaced = t.pods_to_be_replaced ++ pod ∷ [] }
        else t

  -- The loop; `none` is the error of a comparison.
  unfoldable pub lifecycle_loop : List Pod → PodLifecycleState → Option PodLifecycleState
  unfolding consider
  lifecycle_loop [] s = some s
  lifecycle_loop (pod ∷ pods) s =
      if is_some pod.deletion_timestamp
      then lifecycle_loop pods s
      else elim (new_pod_comparison new_version getenv pool pod desired) [
        | none ↦ none
        | some c ↦ lifecycle_loop pods (consider c pod s)
      ]

  -- getPodDesiredLifecycleState after ConstructPod, with the desired pod's annotation set.
  lifecycle_of : List Pod → Option (PodLifecycleState × Pod)
  lifecycle_of found = elim (lifecycle_loop found (new_pod_lifecycle_state pool)) [
    | none ↦ none
    | some s ↦ some (s, desired)
  ]

-- The annotation of the bootstrap token, if the attachments refer to a secret.
abbrev pub with_bootstrap_hash : Option String → Pod → Pod
with_bootstrap_hash none pod = pod
with_bootstrap_hash (some hash) pod = record pod {
  annotations = insert bootstrap_token_hash_annotation hash pod.annotations;
}

-- getPodDesiredLifecycleState. `constructed` is the answer of ConstructPod, `none` an error, and
-- `token_hash` the hash in the attachments if they refer to a secret.
unfoldable pub get_pod_desired_lifecycle_state :
    (String → Option Semver)
    → Getenv
    → (String → String)
    → HumioNodePool
    → Bool
    → Option Pod
    → Option String
    → List Pod
    → Option (PodLifecycleState × Pod)
unfolding lifecycle_of
get_pod_desired_lifecycle_state new_version getenv zone pool bypass constructed token_hash found =
    elim constructed [
      | none ↦ none
      | some pod ↦
          lifecycle_of new_version getenv zone pool bypass (with_bootstrap_hash token_hash pod)
            found
    ]
