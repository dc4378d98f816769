-- ===== src/Cluster/Deletion.antt =====
-- One call of `ensureMismatchedPodsAreDeleted` of internal/controller/humiocluster_controller.go: the
-- state changes that it writes, and the pods that it deletes. What the API server answers is a
-- parameter.
pub mod Outcomes
pub mod Budget
pub mod Settling
use humio_operator.Common.{
  ℕ, zero, suc, ◌<>◌, String, Bool, true, false, not, Option, none, some, List, [], ◌∷◌, ◌==◌, ◌&&◌,
  ◌||◌, if◌then◌else◌,
}
use humio_operator.Common.Int.{ℤ, pos, eqb_ℤ, inc64, pos_part}
use humio_operator.Common.Map.{lookup}
use humio_operator.K8s.{Pod, PodSpec}
use humio_operator.Cluster.Types.{
  HumioNodePool, IntOrString, state_running, state_config_error, state_upgrading, state_restarting,
}
use humio_operator.Cluster.NodePool.{Getenv, get_node_pool_name, use_envtest}
use humio_operator.Cluster.Status.{Options, status_options, with_message, with_node_pool_state}
use humio_operator.Cluster.Sanitize.{sanitize_pod}
use humio_operator.Cluster.Version.{Semver}
use humio_operator.Cluster.PodCompare.{bootstrap_token_hash_annotation}
use humio_operator.Cluster.Zones.{
  filter_pods_by_zone_name, filter_pods_exclude_revision_and_hash,
  filter_pods_exclude_empty_node_name,
}
use humio_operator.Cluster.Lifecycle.{
  PodLifecycleState, found_version_difference, found_configuration_difference,
  should_rolling_restart, difference_detected_and_manual_deletions_not_enabled, zone_awareness,
  get_pod_desired_lifecycle_state,
}
use humio_operator.Cluster.Pvc.{Attached}
use humio_operator.Cluster.PodsStatus.{
  PodsStatus, found_evicted_or_orphaned, have_unschedulable_or_bad, waiting_on_pods,
  deletion_budget, revisions_in_sync, get_pods_status, sort_pods,
}

-- How a call returns: with an empty result, so that the reconciliation goes on; with `Requeue`;
-- with `RequeueAfter` of a second; with the result of updateStatus; with an error; or by a panic.
pub data Return : Type 0 where
  proceeds : Return
  requeues : Return
  requeues_after_second : Return
  updates : Return
  fails : Return
  panics : Return

-- What one call does: the pods deleted, the options of its one status update, and its return. The
-- answer of the update decides only between `requeues` and an error, and is left to updateStatus.
pub record Done : Type 0 where
  pub deleted : List Pod
  pub written : Option Options
  pub returned : Return

abbrev pub failed : Done
failed = record { deleted = []; written = none; returned = fails }

-- The status update that writes the entry of the pool.
unfoldable pub pool_options : HumioNodePool → String → ℤ → String → String → String → Options
pool_options pool state revision hash token_hash zone =
    with_node_pool_state state (get_node_pool_name pool) revision hash token_hash zone
      status_options

-- withNodePoolState with the pool's own revision and hashes.
unfoldable pub own_options : HumioNodePool → String → String → Options
unfolding pool_options
own_options pool state zone =
    pool_options pool state pool.desired_pod_revision pool.desired_pod_hash
      pool.desired_bootstrap_token_hash zone

abbrev waiting_on_pods_message : String
waiting_on_pods_message = "waiting for pods to become ready"

abbrev pub could_not_delete : Pod → String → Options
could_not_delete pod err =
    with_message ("could not delete pod " <> pod.name <> ": " <> err) status_options

-- One round of the deletions, with what the later rounds do: an error ends the loop.
delete_round : Pod → Option String → List Pod × Option Options → List Pod × Option Options
delete_round p (some err) rest = ([], some (could_not_delete p err))
delete_round p none (deleted, written) = (p ∷ deleted, written)

-- The loop that deletes pods, `n` of them at most: the pods deleted, and the update for the first
-- error.
unfoldable pub delete_up_to : (Pod → Option String) → ℕ → List Pod → List Pod × Option Options
unfolding delete_round
delete_up_to delete zero pods = ([], none)
delete_up_to delete (suc n) [] = ([], none)
delete_up_to delete (suc n) (p ∷ ps) = delete_round p (delete p) (delete_up_to delete n ps)

-- The first zone of the pods that is not "".
pub first_zone : (String → String) → List Pod → Option String
first_zone zone [] = none
first_zone zone (p ∷ ps) =
    let rest = first_zone zone ps in
    if zone p.spec.node_name == "" then rest else some (zone p.spec.node_name)

module _ (getenv : Getenv) (zone : String → String) (delete : Pod → Option String)
    (hash_of : Pod → PodSpec → Option String) (state : String) (pool : HumioNodePool)
    (pods : List Pod) (s : PodsStatus) (d : PodLifecycleState) (desired : Pod) where
  -- The update that pins a zone or clears it, if there is one.
  unfoldable pub zone_update : Option Options
  unfolding first_zone own_options
  zone_update =
      if zone_awareness pool && not (use_envtest getenv)
      then if pool.zone_under_maintenance == ""
        then elim (first_zone zone (
            filter_pods_exclude_empty_node_name (
              filter_pods_exclude_revision_and_hash pods pool.desired_pod_revision
                pool.desired_pod_hash))) [
                  | none ↦ none
                  | some new_zone ↦ some (own_options pool pool.state new_zone)
                ]
        else elim (filter_pods_exclude_revision_and_hash
            (filter_pods_by_zone_name zone pods pool.zone_under_maintenance)
            pool.desired_pod_revision pool.desired_pod_hash) [
              | [] ↦ some (own_options pool pool.state "")
              | p ∷ ps ↦ none
            ]
      else none

  -- The return after the deletions; `none` is the panic of ShouldRollingRestart.
  requeue_or_proceed : List Pod → Option Bool → Done
  requeue_or_proceed deleted none = record { deleted = deleted; written = none; returned = panics }
  requeue_or_proceed deleted (some rolling) = record {
    deleted = deleted;
    written = none;
    returned = if rolling then proceeds else requeues_after_second;
  }

  after_deletions : List Pod → Done
  unfolding requeue_or_proceed
  after_deletions deleted =
      if state == state_upgrading && difference_detected_and_manual_deletions_not_enabled d
      then requeue_or_proceed deleted (should_rolling_restart d)
      else record { deleted = deleted; written = none; returned = proceeds }

  after_delete_loop : List Pod × Option Options → Done
  unfolding after_deletions
  after_delete_loop (deleted, some o) = record {
    deleted = deleted;
    written = some o;
    returned = updates;
  }
  after_delete_loop (deleted, none) = after_deletions deleted

  -- The deletion of pods within the budget.
  delete_pods : Done
  unfolding after_delete_loop
  delete_pods =
      after_delete_loop (delete_up_to delete (pos_part (deletion_budget s)) d.pods_to_be_replaced)

  wait_or_delete : Option Bool → Done
  unfolding delete_pods
  wait_or_delete none = record { deleted = []; written = none; returned = panics }
  wait_or_delete (some true) = record {
    deleted = [];
    written = some (with_message waiting_on_pods_message status_options);
    returned = updates;
  }
  wait_or_delete (some false) = delete_pods

  replace_pods : Done
  unfolding wait_or_delete
  replace_pods =
      if difference_detected_and_manual_deletions_not_enabled d
      then if (state == state_restarting || state == state_upgrading) && waiting_on_pods s
        then wait_or_delete (should_rolling_restart d)
        else delete_pods
      else after_deletions []

  -- From the pinning of a zone on.
  zone_or_replace : Option Options → Done
  unfolding replace_pods
  zone_or_replace none = replace_pods
  zone_or_replace (some o) = record { deleted = []; written = some o; returned = updates }

  -- The deletion of one pod that is evicted or attached to an orphaned claim.
  delete_first : Pod → Option String → Done
  delete_first p (some err) = record {
    deleted = [];
    written = some (could_not_delete p err);
    returned = updates;
  }
  delete_first p none = record {
    deleted = p ∷ [];
    written = none;
    returned = requeues_after_second;
  }

  evicted_or_zone : List Pod → Done
  unfolding delete_first zone_or_replace
  evicted_or_zone [] = zone_or_replace zone_update
  evicted_or_zone (p ∷ ps) = delete_first p (delete p)

  -- Whether the code looks at the new hashes: the pool is new, or its cluster replaces pods.
  unfoldable pub may_change_revision : Bool
  may_change_revision =
      eqb_ℤ pool.desired_pod_revision (pos 0)
      || state == state_upgrading
      || state == state_restarting

  revision_or_delete : String → String → Done
  unfolding evicted_or_zone may_change_revision
  revision_or_delete token_hash hash =
      if may_change_revision
        && (not (hash == pool.desired_pod_hash)
            || not (token_hash == pool.desired_bootstrap_token_hash))
      then record {
        deleted = [];
        written =
            some (pool_options pool state (inc64 pool.desired_pod_revision) hash token_hash "");
        returned = requeues;
      }
      else evicted_or_zone s.evicted_or_orphaned

  -- From the annotation of the bootstrap token on.
  hashed : Option String → Option String → Done
  unfolding revision_or_delete
  hashed none hash = failed
  hashed (some token_hash) none = failed
  hashed (some token_hash) (some hash) = revision_or_delete token_hash hash

  -- `hnp.GetState() != Running && …`
  unfoldable pub is_done : Bool
  is_done =
      not (pool.state == state_running)
      && revisions_in_sync s pool.desired_pod_revision
      && eqb_ℤ s.not_ready_count (pos 0)
      && not (waiting_on_pods s)
      && not (found_configuration_difference d)
      && not (found_version_difference d)

  change_state : String → Done
  change_state new_state = record {
    deleted = [];
    written = some (own_options pool new_state "");
    returned = requeues;
  }

  -- What follows the calls that compute the pods' state and the desired lifecycle.
  unfoldable pub handle_differences : Done
  unfolding hashed change_state is_done
  handle_differences =
      let stable = state == state_running || state == state_config_error in
      if stable && found_version_difference d
      then change_state state_upgrading
      else if stable && found_configuration_difference d
      then change_state state_restarting
      else if is_done
      then change_state state_running
      else hashed (lookup bootstrap_token_hash_annotation desired.annotations)
          (hash_of (sanitize_pod getenv pool desired) pool.managed_fields_tracker)

-- The pods whose replacement is considered.
unfoldable pub considered_pods : List Pod → PodsStatus → List Pod
considered_pods pods s = if have_unschedulable_or_bad s then s.unschedulable_or_bad else pods

module _ (getenv : Getenv) (zone : String → String) (delete : Pod → Option String)
    (hash_of : Pod → PodSpec → Option String) (state : String) (pool : HumioNodePool)
    (pods : List Pod) where
  with_lifecycle : PodsStatus → Option (PodLifecycleState × Pod) → Done
  with_lifecycle s none = failed
  with_lifecycle s (some (d, desired)) =
      handle_differences getenv zone delete hash_of state pool pods s d desired

  with_status : (String → Option Semver) → Option Pod → Option String → Option PodsStatus → Done
  unfolding with_lifecycle
  with_status new_version constructed token_hash none = failed
  with_status new_version constructed token_hash (some s) = with_lifecycle s (
      get_pod_desired_lifecycle_state new_version getenv zone pool
        (found_evicted_or_orphaned s || have_unschedulable_or_bad s) constructed token_hash
        (considered_pods pods s))

module _ (getenv : Getenv) (zone : String → String) (delete : Pod → Option String)
    (hash_of : Pod → PodSpec → Option String) (state : String) (pool : HumioNodePool)
    (pods : List Pod) where
  -- ensureMismatchedPodsAreDeleted, once the attachments are there and the pods are listed. The slice of
  -- the pods is the one that getPodsStatus has sorted.
  unfoldable pub ensure_mismatched_pods_are_deleted :
      (String → Option Semver)
      → Option Pod
      → Option String
      → (Pod → Attached)
      → ℕ
      → (Option IntOrString → ℤ → Bool → Option ℤ)
      → Done
  unfolding with_status
  ensure_mismatched_pods_are_deleted new_version constructed token_hash attached now scaled_value =
      with_status getenv zone delete hash_of state pool (sort_pods pods) new_version constructed
        token_hash (get_pods_status attached now pool scaled_value pods)
