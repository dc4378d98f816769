-- ===== src/Cluster/PodHash.antt =====
-- The hash of a pod, internal/controller/humiocluster_pod_hasher.go. The JSON of a pod's spec and its
-- SHA-256 are a parameter. What DeepCopy copies is a value.
pub mod Managed
use humio_operator.Common.{
  String, Bool, not, Option, none, some, List, [], ◌∷◌, ◌==◌, map, if◌then◌else◌,
}
use humio_operator.K8s.{EnvVar, Container, PodSpec, Pod}

-- The inner loop over the variables of one container, for a managed variable
unfoldable pub clear_variable : EnvVar → List EnvVar → List EnvVar
clear_variable managed [] = []
clear_variable managed (v ∷ vs) =
    (if managed.name == v.name then record v { value = "" } else v) ∷ clear_variable managed vs

-- The loop over the managed variables
unfoldable pub clear_variables : List EnvVar → List EnvVar → List EnvVar
unfolding clear_variable
clear_variables [] env = env
clear_variables (m ∷ ms) env = clear_variables ms (clear_variable m env)

-- The body of the loop over the containers of the pod, for a managed container
unfoldable pub clear_container : Container → Container → Container
unfolding clear_variables
clear_container managed c = if not (c.name == managed.name) then c else record c {
  image = if not (managed.image == "") then "" else c.image;
  env = clear_variables managed.env c.env;
}

-- The loop over the managed containers
unfoldable pub clear_containers : List Container → List Container → List Container
unfolding clear_container
clear_containers [] cs = cs
clear_containers (m ∷ ms) cs = clear_containers ms (map (clear_container m) cs)

-- podHasherMinusManagedFields: the pod that it hashes
unfoldable pub pod_hasher_minus_managed_fields : Option Pod → Pod → Pod
unfolding clear_containers
pod_hasher_minus_managed_fields none pod = pod
pod_hasher_minus_managed_fields (some managed) pod = record pod {
  spec = record pod.spec {
    containers = clear_containers managed.spec.containers pod.spec.containers;
    init_containers = clear_containers managed.spec.init_containers pod.spec.init_containers;
  };
}

module _ (digest : PodSpec → Option String) where
  -- calculateHash; `none` is an error, also that of a nil pod.
  unfoldable pub calculate_hash : Option Pod → Option String
  calculate_hash none = none
  calculate_hash (some pod) = digest pod.spec

  -- PodHashOnlyManagedFields
  unfoldable pub pod_hash_only_managed_fields : Option Pod → Option String
  unfolding calculate_hash
  pod_hash_only_managed_fields managed = calculate_hash managed

  -- PodHashMinusManagedFields
  unfoldable pub pod_hash_minus_managed_fields : Option Pod → Pod → Option String
  unfolding calculate_hash pod_hasher_minus_managed_fields
  pod_hash_minus_managed_fields managed pod =
      calculate_hash (some (pod_hasher_minus_managed_fields managed pod))
