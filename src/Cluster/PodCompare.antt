-- ===== src/Cluster/PodCompare.antt =====
-- Comparison of a running pod with the desired one, internal/controller/humiocluster_pod_compare.go.
-- `cmp.Diff`, whose text is only logged, is left out.
pub mod Classification
pub mod Environment
use humio_operator.Common.{
  ℕ, String, Bool, true, false, not, Option, none, some, List, [], ◌∷◌, ◌++◌, ◌==◌, ◌&&◌, is_some,
  if◌then◌else◌,
}
use humio_operator.Common.Map.{Map, lookup, insert, get_text}
use humio_operator.K8s.{EnvVar, Container, Pod}
use humio_operator.Cluster.Types.{HumioNodePool}
use humio_operator.Cluster.NodePool.{Getenv}
use humio_operator.Cluster.EnvVars.{env_var_value}
use humio_operator.Cluster.Sanitize.{humio_container_name, sanitize_pod}
use humio_operator.Cluster.Version.{HumioVersion, Semver, humio_version_from_string}

-- PodMismatchSeverityType, whose zero value is `no_severity`
pub data Severity : Type 0 where
  no_severity critical warning : Severity

-- PodMismatchType
pub data MismatchType : Type 0 where
  no_mismatch version annotation : MismatchType

pub record VersionMismatch : Type 0 where
  pub to : Option HumioVersion
  pub from : Option HumioVersion

-- PodComparisionResult, beside the two containers that are compared
pub record Comparison : Type 0 where
  pub current_container : Container
  pub desired_container : Container
  pub annotation_mismatches : List String
  pub env_mismatches : List String
  pub container_mismatch : VersionMismatch
  pub severity : Severity
  pub mismatch_type : MismatchType

abbrev pub bootstrap_token_hash_annotation : String
bootstrap_token_hash_annotation = "humio.com/bootstrap-token-hash"

abbrev pub pod_hash_annotation : String
pod_hash_annotation = "humio.com/pod-hash"

abbrev pub pod_revision_annotation : String
pod_revision_annotation = "humio.com/pod-revision"

abbrev pub env_var_source_hash_annotation : String
env_var_source_hash_annotation = "humio.com/env-var-source-hash"

abbrev pub certificate_hash_annotation : String
certificate_hash_annotation = "humio.com/certificate-hash"

abbrev pub managed_fields_hash_annotation : String
managed_fields_hash_annotation = "humio.com/pod-operator-managed-fields-hash"

-- The annotations of the first loop of processAnnotations, as they are listed.
abbrev pub critical_annotations : List String
critical_annotations =
    bootstrap_token_hash_annotation ∷ pod_hash_annotation ∷ pod_revision_annotation
    ∷ bootstrap_token_hash_annotation ∷ env_var_source_hash_annotation ∷ certificate_hash_annotation
    ∷ []

-- GetContainerIndexByName of internal/kubernetes/pods.go, with the container in place of its index
unfoldable pub container_by_name : String → List Container → Option Container
container_by_name name [] = none
container_by_name name (c ∷ cs) = if c.name == name then some c else container_by_name name cs

is_critical : Severity → Bool
is_critical critical = true
is_critical _ = false

is_warning : Severity → Bool
is_warning warning = true
is_warning _ = false

-- setDoesNotMatch
set_does_not_match : MismatchType → Severity → Comparison → Comparison
unfolding is_critical is_warning
set_does_not_match t s c =
    if is_critical c.severity && is_warning s
    then c
    else record c { mismatch_type = t; severity = s }

-- compareAnnotation
compare_annotation : Pod → Pod → String → Bool
compare_annotation current desired a =
    get_text a current.annotations == get_text a desired.annotations

-- The two statements for an annotation that differs.
mark_annotation : Severity → String → Comparison → Comparison
unfolding set_does_not_match
mark_annotation s a c =
    let d = set_does_not_match annotation s c in
    record d { annotation_mismatches = d.annotation_mismatches ++ a ∷ [] }

-- One loop of processAnnotations.
annotation_loop : Pod → Pod → Severity → List String → Comparison → Comparison
unfolding compare_annotation mark_annotation
annotation_loop current desired s [] c = c
annotation_loop current desired s (a ∷ rest) c =
    annotation_loop current desired s rest
      (if compare_annotation current desired a then c else mark_annotation s a c)

-- processAnnotations
process_annotations : Pod → Pod → Comparison → Comparison
unfolding annotation_loop
process_annotations current desired c =
    annotation_loop current desired warning (managed_fields_hash_annotation ∷ [])
      (annotation_loop current desired critical critical_annotations c)

-- The two loops that fill `currentEnvVars` and `desiredEnvVars`.
env_map_loop : List EnvVar → List EnvVar → Map String → Map String
env_map_loop all [] m = m
env_map_loop all (e ∷ es) m = env_map_loop all es (insert e.name (env_var_value all e.name) m)

env_map : List EnvVar → Map String
unfolding env_map_loop
env_map envs = env_map_loop envs envs []

-- `!exists || currentValue != desiredValue`
differs : Option String → String → Bool
differs none v = true
differs (some w) v = not (w == v)

-- The loops over the two maps. Go goes through a map in no fixed order: the list is one of the
-- orders that are possible.
desired_loop : Map String → Map String → List String → List String
unfolding differs
desired_loop current [] out = out
desired_loop current ((k, v) ∷ rest) out =
    desired_loop current rest (if differs (lookup k current) v then out ++ k ∷ [] else out)

current_loop : Map String → Map String → List String → List String
current_loop desired [] out = out
current_loop desired ((k, v) ∷ rest) out =
    current_loop desired rest (if is_some (lookup k desired) then out else out ++ k ∷ [])

-- The names that processEnvironmentVariables appends.
unfoldable pub env_mismatches : List EnvVar → List EnvVar → List String → List String
unfolding env_map desired_loop current_loop
env_mismatches current desired out =
    current_loop (env_map desired) (env_map current)
      (desired_loop (env_map current) (env_map desired) out)

-- processEnvironmentVariables
process_environment_variables : Comparison → Comparison
process_environment_variables c = record c {
  env_mismatches = env_mismatches c.current_container.env c.desired_container.env c.env_mismatches;
}

-- The comparison before anything is processed.
abbrev pub start : Container → Container → Comparison
start current desired = record {
  current_container = current;
  desired_container = desired;
  annotation_mismatches = [];
  env_mismatches = [];
  container_mismatch = record { to = none; from = none };
  severity = no_severity;
  mismatch_type = no_mismatch;
}

module _ (new_version : String → Option Semver) where
  -- processHumioContainerImages
  process_container_images : Comparison → Comparison
  unfolding set_does_not_match
  process_container_images c =
      if not (c.current_container.image == c.desired_container.image)
      then record (set_does_not_match version critical c) {
        container_mismatch = record {
          from = some (humio_version_from_string new_version c.current_container.image);
          to = some (humio_version_from_string new_version c.desired_container.image);
        };
      }
      else c

  -- What NewPodComparison does with the two sanitized pods. `none` is the error of a pod with no
  -- container named "humio".
  compare_sanitized : Pod → Pod → Option Comparison
  unfolding process_container_images process_environment_variables process_annotations
  compare_sanitized current desired =
      elim (container_by_name humio_container_name current.spec.containers) [
        | none ↦ none
        | some cc' ↦ elim (container_by_name humio_container_name desired.spec.containers) [
          | none ↦ none
          | some dc ↦ some (
              process_container_images (
                process_environment_variables (process_annotations current desired (start cc' dc))))
        ]
      ]

  -- NewPodComparison
  unfoldable pub new_pod_comparison : Getenv → HumioNodePool → Pod → Pod → Option Comparison
  unfolding compare_sanitized
  new_pod_comparison getenv pool current desired =
      compare_sanitized (sanitize_pod getenv pool current) (sanitize_pod getenv pool desired)

-- HasCriticalMismatch
unfoldable pub has_critical_mismatch : Comparison → Bool
unfolding is_critical
has_critical_mismatch c = is_critical c.severity

-- HasWarningMismatch
unfoldable pub has_warning_mismatch : Comparison → Bool
unfolding is_warning
has_warning_mismatch c = is_warning c.severity

-- Matches
unfoldable pub matches : Comparison → Bool
unfolding has_critical_mismatch has_warning_mismatch
matches c = not (has_critical_mismatch c) && not (has_warning_mismatch c)

-- MismatchedHumioVersions
unfoldable pub mismatched_humio_versions : Comparison → Bool × VersionMismatch
mismatched_humio_versions c = elim c.mismatch_type [
  | version ↦ (true, c.container_mismatch)
  | _ ↦ (false, c.container_mismatch)
]
