-- ===== src/Cluster/Status.antt =====
-- Status updates of a cluster resource, internal/controller/humiocluster_status.go: the option
-- builder, what each option writes and answers, and the update with its retries.
pub mod Options
pub mod Update
use humio_operator.Common.{
  ℕ, String, Bool, true, false, not, Option, none, some, List, [], ◌∷◌, ◌++◌, map, ◌==◌, ◌||◌,
  if◌then◌else◌,
}
use humio_operator.Common.Int.{ℤ, pos, eqb_ℤ, ltb_ℤ}
use humio_operator.Common.Format.{itoa, seconds}
use humio_operator.Cluster.Types.{
  HumioCluster, ClusterStatus, NodePoolStatus, PodStatus, LicenseStatus, state_restarting,
  state_upgrading, state_pending, state_config_error,
}

-- `reconcile.Result`; the time is a duration in nanoseconds.
pub record Result : Type 0 where
  pub requeue : Bool
  pub requeue_after : ℤ

abbrev pub empty_result : Result
empty_result = record { requeue = false; requeue_after = pos 0 }

-- `result != emptyResult`
abbrev pub is_empty_result : Result → Bool
is_empty_result r = if r.requeue then false else eqb_ℤ r.requeue_after (pos 0)

pub record StateOption : Type 0 where
  pub state : String
  pub node_pool_name : String
  pub zone_under_maintenance : String
  pub desired_pod_revision : ℤ
  pub desired_pod_hash : String
  pub desired_bootstrap_token_hash : String
  pub requeue_period : ℤ

pub data StatusOption : Type 0 where
  message_option : String → StatusOption
  state_option : StateOption → StatusOption
  state_option_list : List StateOption → StatusOption
  version_option : String → StatusOption
  pods_option : List PodStatus → StatusOption
  license_option : LicenseStatus → StatusOption
  node_count_option : ℤ → StatusOption
  observed_generation_option : ℤ → StatusOption

-- The builder's options, in the order in which they were added.
abbrev pub Options : Type 0
Options = List StatusOption

abbrev no_state_option : StateOption
no_state_option = record {
  state = "";
  node_pool_name = "";
  zone_under_maintenance = "";
  desired_pod_revision = pos 0;
  desired_pod_hash = "";
  desired_bootstrap_token_hash = "";
  requeue_period = pos 0;
}

abbrev pub status_options : Options
status_options = []

abbrev pub with_message : String → Options → Options
with_message msg o = o ++ message_option msg ∷ []

abbrev pub with_state : String → Options → Options
with_state s o = o ++ state_option (record no_state_option { state = s }) ∷ []

abbrev pub with_requeue_period : ℤ → Options → Options
with_requeue_period period o =
    o ++ state_option (record no_state_option { requeue_period = period }) ∷ []

abbrev pub with_node_pool_state : String → String → ℤ → String → String → String → Options → Options
with_node_pool_state s pool revision hash token_hash zone o =
    o
    ++ state_option (record {
      state = s;
      node_pool_name = pool;
      zone_under_maintenance = zone;
      desired_pod_revision = revision;
      desired_pod_hash = hash;
      desired_bootstrap_token_hash = token_hash;
      requeue_period = pos 0;
    })
      ∷ []

-- One round of the loop of withNodePoolStatusList.
abbrev state_of_pool_status : NodePoolStatus → StateOption
state_of_pool_status s = record {
  state = s.state;
  node_pool_name = s.name;
  zone_under_maintenance = s.zone_under_maintenance;
  desired_pod_revision = s.desired_pod_revision;
  desired_pod_hash = s.desired_pod_hash;
  desired_bootstrap_token_hash = s.desired_bootstrap_token_hash;
  requeue_period = pos 0;
}

abbrev pub with_node_pool_status_list : List NodePoolStatus → Options → Options
with_node_pool_status_list statuses o =
    o ++ state_option_list (map state_of_pool_status statuses) ∷ []

abbrev pub with_version : String → Options → Options
with_version v o = o ++ version_option v ∷ []

abbrev pub with_pods : List PodStatus → Options → Options
with_pods pods o = o ++ pods_option pods ∷ []

abbrev pub with_license : LicenseStatus → Options → Options
with_license l o = o ++ license_option l ∷ []

abbrev pub with_node_count : ℤ → Options → Options
with_node_count n o = o ++ node_count_option n ∷ []

abbrev pub with_observed_generation : ℤ → Options → Options
with_observed_generation n o = o ++ observed_generation_option n ∷ []

-- The entry that both Apply methods of states append.
abbrev pub pool_status_of : StateOption → NodePoolStatus
pool_status_of s = record {
  name = s.node_pool_name;
  state = s.state;
  zone_under_maintenance = s.zone_under_maintenance;
  desired_pod_revision = s.desired_pod_revision;
  desired_pod_hash = s.desired_pod_hash;
  desired_bootstrap_token_hash = s.desired_bootstrap_token_hash;
}

-- The loop of stateOption.Apply: the first entry of the name is written and the loop returns; with
-- no such entry, one is appended.
write_pool_status : StateOption → List NodePoolStatus → List NodePoolStatus
write_pool_status s [] = pool_status_of s ∷ []
write_pool_status s (p ∷ ps) =
    if p.name == s.node_pool_name
    then record p {
      state = s.state;
      zone_under_maintenance = s.zone_under_maintenance;
      desired_pod_revision = s.desired_pod_revision;
      desired_pod_hash = s.desired_pod_hash;
      desired_bootstrap_token_hash = s.desired_bootstrap_token_hash;
    }
      ∷ ps
    else p ∷ write_pool_status s ps

-- stateOption.Apply
apply_state : StateOption → ClusterStatus → ClusterStatus
unfolding write_pool_status
apply_state s c = record c {
  state = if s.state == "" then c.state else s.state;
  node_pool_status =
      if s.node_pool_name == "" then c.node_pool_status else write_pool_status s c.node_pool_status;
}

-- Apply of each option
unfoldable pub apply : StatusOption → ClusterStatus → ClusterStatus
unfolding apply_state
apply (message_option m) c = record c { message = m }
apply (state_option s) c = apply_state s c
apply (state_option_list ss) c = record c { node_pool_status = map pool_status_of ss }
apply (version_option v) c = record c { version = v }
apply (pods_option pods) c = record c { pod_status = pods }
apply (license_option l) c = record c { license_status = l }
apply (node_count_option n) c = record c { node_count = n }
apply (observed_generation_option n) c = record c { observed_generation = itoa n }

-- stateOption.GetResult
state_result : StateOption → Result
state_result s =
    if s.state == state_restarting || s.state == state_upgrading || s.state == state_pending
    then record { requeue = false; requeue_after = seconds 1 }
    else if s.state == state_config_error
    then record { requeue = false; requeue_after = seconds 10 }
    else record {
      requeue = false;
      requeue_after = if eqb_ℤ s.requeue_period (pos 0) then seconds 15 else s.requeue_period;
    }

-- GetResult of each option; its error is always nil, so the loop in updateStatus over the errors
-- goes through.
unfoldable pub get_result : StatusOption → Result
unfolding state_result
get_result (state_option s) = state_result s
get_result _ = empty_result

unfoldable pub apply_all : Options → ClusterStatus → ClusterStatus
unfolding apply
apply_all [] c = c
apply_all (o ∷ os) c = apply_all os (apply o c)

-- The last loop of updateStatus: the first result that asks for another round.
unfoldable pub first_requeue : Options → Result
unfolding get_result
first_requeue [] = empty_result
first_requeue (o ∷ os) =
    let r = get_result o in
    let later = first_requeue os in if r.requeue || ltb_ℤ (pos 0) r.requeue_after then r else later

-- What the API server answers to one attempt of the update: the latest resource, if it can be read,
-- and the answer to the write.
pub data WriteAnswer : Type 0 where
  written conflict failed : WriteAnswer

pub record Attempt : Type 0 where
  pub latest : Option ClusterStatus
  pub answer : WriteAnswer

-- The resource in memory after an update, with its result, which is `none` on an error.
pub record Updated : Type 0 where
  pub status : ClusterStatus
  pub result : Option Result

-- updateStatus, over the attempts that `retry.RetryOnConflict` makes, in order. It makes another
-- one only after a conflict, and its last error is returned when it makes no more.
unfoldable pub update_status : List Attempt → ClusterStatus → Options → Updated
unfolding apply_all first_requeue
update_status [] c opts = record { status = c; result = none }
update_status (a ∷ rest) c opts = elim a.latest [
  | none ↦ record { status = c; result = none }
  | some l ↦ elim a.answer [
    | written ↦ record { status = apply_all opts l; result = some (first_requeue opts) }
    | conflict ↦ update_status rest (apply_all opts l) opts
    | failed ↦ record { status = apply_all opts l; result = none }
  ]
]
