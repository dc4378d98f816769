-- ===== src/Cluster/EnvVars.antt =====
-- Environment variables of containers, and what the operator manages of a container.
-- internal/controller/humiocluster_pods.go, humiocluster_defaults.go, humiocluster_controller.go.
pub mod Merging
pub mod Duplicates
use humio_operator.Common.{
  ℕ, suc, String, Bool, true, false, not, Option, none, some, List, [], ◌∷◌, ◌++◌, ltb, ◌==◌, ◌&&◌,
  if◌then◌else◌,
}
use humio_operator.Common.Map.{Map, lookup, insert}
use humio_operator.K8s.{EnvVar, Container, PodSpec}

-- EnvVarValue
unfoldable pub env_var_value : List EnvVar → String → String
env_var_value [] key = ""
env_var_value (e ∷ es) key = if e.name == key then e.value else env_var_value es key

-- EnvVarHasValue
unfoldable pub env_var_has_value : List EnvVar → String → String → Bool
env_var_has_value [] key value = false
env_var_has_value (e ∷ es) key value =
    if e.name == key && e.value == value then true else env_var_has_value es key value

-- EnvVarHasKey
unfoldable pub env_var_has_key : List EnvVar → String → Bool
env_var_has_key [] key = false
env_var_has_key (e ∷ es) key = if e.name == key then true else env_var_has_key es key

-- The inner loop of mergeEnvVars: the flag `add` when the loop over `into` ends.
merge_add : EnvVar → List EnvVar → Bool → Bool
merge_add common [] add = add
merge_add common (node ∷ rest) add =
    if common.name == node.name then false else merge_add common rest true

-- The outer loop of mergeEnvVars, where `into` is not empty and grows.
merge_loop : List EnvVar → List EnvVar → List EnvVar
unfolding merge_add
merge_loop [] into = into
merge_loop (common ∷ rest) into =
    merge_loop rest (if merge_add common into false then into ++ common ∷ [] else into)

-- mergeEnvVars
unfoldable pub merge_env_vars : List EnvVar → List EnvVar → List EnvVar
unfolding merge_loop
merge_env_vars from [] = from
merge_env_vars from (e ∷ es) = merge_loop from (e ∷ es)

-- The second loop of mergeEnvironmentVariables: `existing` is read before anything is added.
add_new : List EnvVar → List EnvVar → List EnvVar → List EnvVar
unfolding env_var_has_key
add_new existing [] env = env
add_new existing (e ∷ es) env =
    add_new existing es (if env_var_has_key existing e.name then env else env ++ e ∷ [])

-- mergeEnvironmentVariables, on the variables of `src` and `dest`
unfoldable pub merge_environment_variables : List EnvVar → List EnvVar → List EnvVar
unfolding add_new
merge_environment_variables [] dest = dest
merge_environment_variables (e ∷ es) dest = add_new dest (e ∷ es) dest

-- mergeContainers: the new `dest`
unfoldable pub merge_containers : Container → Container → Container
unfolding merge_environment_variables
merge_containers src dest = record dest {
  image = if src.image == "" then dest.image else src.image;
  env = merge_environment_variables src.env dest.env;
}

-- The loop of MergeContainerIntoPod: the first container of that name is merged, or one is added.
merge_into : List Container → Container → List Container
unfolding merge_containers
merge_into [] new = new ∷ []
merge_into (c ∷ cs) new =
    if c.name == new.name then merge_containers new c ∷ cs else c ∷ merge_into cs new

-- MergeContainerIntoPod
unfoldable pub merge_container_into_pod : PodSpec → Container → PodSpec
unfolding merge_into
merge_container_into_pod pod new = record pod { containers = merge_into pod.containers new }

-- MergeInitContainerIntoPod
unfoldable pub merge_init_container_into_pod : PodSpec → Container → PodSpec
unfolding merge_into
merge_init_container_into_pod pod new = record pod {
  init_containers = merge_into pod.init_containers new;
}

-- envVarCount[name], which is 0 for a missing key
count_of : String → Map ℕ → ℕ
count_of k m = elim (lookup k m) [ none ↦ 0 | some n ↦ n ]

-- The loop of findDuplicateEnvVars over `envVarCount` and `duplicates`.
duplicates_loop : List EnvVar → Map ℕ → Map ℕ → Map ℕ
unfolding count_of
duplicates_loop [] counts duplicates = duplicates
duplicates_loop (e ∷ es) counts duplicates =
    let n = suc (count_of e.name counts) in
    duplicates_loop es (insert e.name n counts)
      (if ltb 1 n then insert e.name n duplicates else duplicates)

-- findDuplicateEnvVars
unfoldable pub find_duplicate_env_vars : List EnvVar → Map ℕ
unfolding duplicates_loop
find_duplicate_env_vars envs = duplicates_loop envs [] []
