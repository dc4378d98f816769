-- ===== src/K8s.antt =====
-- The Kubernetes objects that the operator reads and writes: the fields of `corev1` types which the
-- modelled code names. A reference that the code hands on unread stands as text.
use humio_operator.Common.{ℕ, String, Bool, Option, List}
use humio_operator.Common.Int.{ℤ}
use humio_operator.Common.Map.{Map}

pub record EnvVar : Type 0 where
  pub name : String
  pub value : String
  pub value_from : Option String

pub record Container : Type 0 where
  pub name : String
  pub image : String
  pub env : List EnvVar
  pub image_pull_policy : String
  pub termination_message_path : String
  pub termination_message_policy : String
  pub other_fields : String

pub data VolumeSource : Type 0 where
  empty_source : VolumeSource
  persistent_volume_claim : String → VolumeSource
  secret : String → ℤ → VolumeSource
  other_source : String → VolumeSource

pub record Volume : Type 0 where
  pub name : String
  pub source : VolumeSource

pub record PodSpec : Type 0 where
  pub containers : List Container
  pub init_containers : List Container
  pub volumes : List Volume
  pub hostname : String
  pub restart_policy : String
  pub dns_policy : String
  pub scheduler_name : String
  pub priority : Option ℤ
  pub enable_service_links : Option Bool
  pub preemption_policy : Option String
  pub deprecated_service_account : String
  pub node_name : String
  pub tolerations : List String
  pub topology_spread_constraints : List String
  pub other_fields : String

-- A time in nanoseconds; `none` is Go's zero time.
pub record PodCondition : Type 0 where
  pub type : String
  pub status : String
  pub reason : String
  pub last_transition_time : Option ℕ

-- The reasons of the states that are set.
pub record ContainerStatus : Type 0 where
  pub waiting : Option String
  pub terminated : Option String

pub record Pod : Type 0 where
  pub name : String
  pub labels : Map String
  pub annotations : Map String
  pub deletion_timestamp : Option ℕ
  pub spec : PodSpec
  pub phase : String
  pub reason : String
  pub conditions : List PodCondition
  pub container_statuses : List ContainerStatus

-- The field reads of the condition values that the code compares with.
abbrev pub condition_true : String
condition_true = "True"

abbrev pub condition_false : String
condition_false = "False"

abbrev pub pod_ready : String
pod_ready = "Ready"

abbrev pub pod_failed : String
pod_failed = "Failed"

abbrev pub pod_pending : String
pod_pending = "Pending"
