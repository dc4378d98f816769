-- ===== src/Cluster/PodsStatus.antt =====
-- The state of a node pool's pods, internal/controller/humiocluster_pod_status.go. The current time,
-- the scaling of `maxUnavailable` and the answers about orphaned claims are parameters.
pub mod Counts
pub mod Waiting
use text.Mathlib.Text.{is_lt}
use Prim.Native.String.{compare}
use humio_operator.Common.{
  ℕ, zero, suc, ◌*◌, String, Bool, true, false, not, Option, none, some, List, [], ◌∷◌, ◌++◌, ◌==◌,
  ◌&&◌, ◌||◌, length, ltb, keep, is_some, if◌then◌else◌,
}
use humio_operator.Common.Int.{
  ℤ, pos, negsuc, ◌+ℤ◌, ◌-ℤ◌, ltb_ℤ, leb_ℤ, eqb_ℤ, max_ℤ, min_ℤ, quot, pos_part, neg_part, sub_ℕ,
}
use humio_operator.Common.Format.{atoi, second, seconds}
use humio_operator.Common.Map.{get_text}
use humio_operator.K8s.{
  Pod, PodCondition, ContainerStatus, Container, condition_true, condition_false, pod_ready,
  pod_failed, pod_pending,
}
use humio_operator.Cluster.Types.{HumioNodePool, IntOrString}
use humio_operator.Cluster.NodePool.{get_update_strategy, get_node_count, ok_to_delete_pvc}
use humio_operator.Cluster.PodCompare.{pod_revision_annotation, container_by_name}
use humio_operator.Cluster.Pvc.{Attached}

-- podsStatusState
pub record PodsStatus : Type 0 where
  pub node_count : ℤ
  pub ready_count : ℤ
  pub not_ready_count : ℤ
  pub not_ready_due_to_min_ready_seconds : ℤ
  pub pod_revisions : List ℤ
  pub pod_image_versions : List String
  pub pod_deletion_timestamp_set : List Bool
  pub pod_names : List String
  pub unschedulable_or_bad : List Pod
  pub evicted_or_orphaned : List Pod
  pub pods_ready : List Pod
  pub scaled_max_unavailable : ℤ
  pub min_ready_seconds : ℤ

-- foundEvictedPodsOrPodsWithOrpahanedPVCs
abbrev pub found_evicted_or_orphaned : PodsStatus → Bool
found_evicted_or_orphaned s = ltb 0 (length s.evicted_or_orphaned)

-- haveUnschedulablePodsOrPodsWithBadStatusConditions
abbrev pub have_unschedulable_or_bad : PodsStatus → Bool
have_unschedulable_or_bad s = ltb 0 (length s.unschedulable_or_bad)

-- waitingOnPods
unfoldable pub waiting_on_pods : PodsStatus → Bool
waiting_on_pods s =
    (ltb_ℤ s.ready_count s.node_count || ltb_ℤ (pos 0) s.not_ready_count)
    && not (have_unschedulable_or_bad s)
    && not (found_evicted_or_orphaned s)

-- scaledMaxUnavailableMinusNotReadyDueToMinReadySeconds
unfoldable pub deletion_budget : PodsStatus → ℤ
deletion_budget s = max_ℤ (s.scaled_max_unavailable -ℤ s.not_ready_due_to_min_ready_seconds) (pos 0)

-- The loop of podRevisionCountMatchesNodeCountAndAllPodsHaveRevision.
count_revision : ℤ → List ℤ → ℤ → ℤ
count_revision revision [] found = found
count_revision revision (r ∷ rs) found =
    count_revision revision rs (if eqb_ℤ r revision then found +ℤ pos 1 else found)

-- podRevisionCountMatchesNodeCountAndAllPodsHaveRevision
unfoldable pub revisions_in_sync : PodsStatus → ℤ → Bool
unfolding count_revision
revisions_in_sync s revision =
    if not (eqb_ℤ (pos (length s.pod_revisions)) s.node_count)
    then false
    else eqb_ℤ (count_revision revision s.pod_revisions (pos 0)) s.node_count

-- The loop of latestTransitionTime. A zero time is skipped, and any time is after the zero time, so
-- that the first time is taken in every case.
latest_loop : Option ℕ → List PodCondition → Option ℕ
latest_loop latest [] = latest
latest_loop latest (c ∷ cs) =
    latest_loop
      (elim c.last_transition_time [
        | none ↦ latest
        | some t ↦ elim latest [ none ↦ some t | some l ↦ if ltb l t then some t else some l ]
      ])
      cs

-- latestTransitionTime
unfoldable pub latest_transition_time : List PodCondition → Option ℕ
unfolding latest_loop
latest_transition_time [] = none
latest_transition_time (c ∷ cs) = latest_loop c.last_transition_time (c ∷ cs)

abbrev pub is_ready_true : PodCondition → Bool
is_ready_true c = c.type == pod_ready && c.status == condition_true

abbrev milliseconds : ℤ → ℤ
milliseconds d = quot d 1000000

-- MaximumMinReadyRequeue
abbrev pub maximum_min_ready_requeue : ℤ
maximum_min_ready_requeue = seconds 300

-- `d` times a second; a duration in nanoseconds.
abbrev times_second : ℤ → ℤ
times_second d = sub_ℕ (pos_part d * second) (neg_part d * second)

-- remainingMinReadyWaitTime at the time `now`, in nanoseconds.
unfoldable pub remaining_min_ready_wait_time : ℤ → ℕ → Pod → ℤ
unfolding latest_transition_time
remaining_min_ready_wait_time min_ready now pod =
    elim (latest_transition_time (keep is_ready_true pod.conditions)) [
      | none ↦ negsuc 0
      | some t ↦
          let diff = milliseconds (sub_ℕ now t) in
          let min_rdy = milliseconds (times_second min_ready) in
          if leb_ℤ diff min_rdy
          then min_ℤ (times_second (quot (min_rdy -ℤ diff) 1000)) maximum_min_ready_requeue
          else negsuc 0
    ]

-- The two tests on each container status; a pod is appended once for each that passes.
after_waiting : Pod → Option String → List Pod → List Pod
after_waiting pod none bad = bad
after_waiting pod (some reason) bad =
    if not (reason == "ContainerCreating") && not (reason == "PodInitializing")
    then bad ++ pod ∷ []
    else bad

after_terminated : Pod → Option String → List Pod → List Pod
after_terminated pod none bad = bad
after_terminated pod (some reason) bad =
    if not (reason == "Completed") then bad ++ pod ∷ [] else bad

bad_container_states : Pod → List ContainerStatus → List Pod → List Pod
unfolding after_waiting after_terminated
bad_container_states pod [] bad = bad
bad_container_states pod (c ∷ cs) bad =
    bad_container_states pod cs
      (after_terminated pod c.terminated (after_waiting pod c.waiting bad))

mark_ready : Pod → PodsStatus → PodsStatus
mark_ready pod s = record s {
  pods_ready = s.pods_ready ++ pod ∷ [];
  ready_count = s.ready_count +ℤ pos 1;
  not_ready_count = s.not_ready_count -ℤ pos 1;
}

mark_not_ready : ℤ → Pod → PodsStatus → PodsStatus
unfolding bad_container_states
mark_not_ready remaining pod s = record s {
  not_ready_due_to_min_ready_seconds =
      if ltb_ℤ (pos 0) remaining
      then s.not_ready_due_to_min_ready_seconds +ℤ pos 1
      else s.not_ready_due_to_min_ready_seconds;
  unschedulable_or_bad = bad_container_states pod pod.container_statuses s.unschedulable_or_bad;
}

note_ready_condition : ℤ → Pod → PodCondition → PodsStatus → PodsStatus
unfolding mark_ready mark_not_ready
note_ready_condition remaining pod c s =
    if c.status == condition_true && leb_ℤ remaining (pos 0)
    then mark_ready pod s
    else mark_not_ready remaining pod s

-- One round of the loop over the conditions of a pod.
note_condition : ℕ → Pod → PodCondition → PodsStatus → PodsStatus
unfolding note_ready_condition
note_condition now pod c s =
    if c.status == condition_false && c.reason == "Unschedulable"
    then record s { unschedulable_or_bad = s.unschedulable_or_bad ++ pod ∷ [] }
    else if c.type == pod_ready
    then note_ready_condition (remaining_min_ready_wait_time s.min_ready_seconds now pod) pod c s
    else s

condition_loop : ℕ → Pod → List PodCondition → PodsStatus → PodsStatus
unfolding note_condition
condition_loop now pod [] s = s
condition_loop now pod (c ∷ cs) s = condition_loop now pod cs (note_condition now pod c s)

-- `pod.Spec.Containers[humioIdx].Image`, where a missing container has the index 0. `none` is a
-- panic: the pod has no container at all.
unfoldable pub image_of : Pod → Option String
image_of pod = elim (container_by_name "humio" pod.spec.containers) [
  | some c ↦ some c.image
  | none ↦ elim pod.spec.containers [ [] ↦ none | c ∷ cs ↦ some c.image ]
]

-- The pods by name; the names in a namespace are distinct.
insert_pod : Pod → List Pod → List Pod
insert_pod p [] = p ∷ []
insert_pod p (q ∷ qs) = if is_lt (compare q.name p.name) then q ∷ insert_pod p qs else p ∷ q ∷ qs

unfoldable pub sort_pods : List Pod → List Pod
unfolding insert_pod
sort_pods [] = []
sort_pods (p ∷ ps) = insert_pod p (sort_pods ps)

-- What is recorded of every pod that has a revision.
note_pod : ℤ → String → Pod → PodsStatus → PodsStatus
note_pod revision image pod s = record s {
  pod_revisions = s.pod_revisions ++ revision ∷ [];
  pod_deletion_timestamp_set = s.pod_deletion_timestamp_set ++ is_some pod.deletion_timestamp ∷ [];
  pod_names = s.pod_names ++ pod.name ∷ [];
  pod_image_versions = s.pod_image_versions ++ image ∷ [];
}

module _ (attached : Pod → Attached) (now : ℕ) (pool : HumioNodePool) where
  -- A pod that is not being deleted; `none` is the error of a pending pod.
  live_pod : Pod → PodsStatus → Option PodsStatus
  unfolding condition_loop
  live_pod pod s =
      if pod.phase == pod_failed && pod.reason == "Evicted"
      then some (record s { evicted_or_orphaned = s.evicted_or_orphaned ++ pod ∷ [] })
      else if pod.phase == pod_pending
      then if not (attached pod).orphaned && (attached pod).has_error
        then none
        else some (
            condition_loop now pod pod.conditions (
              if (attached pod).orphaned && ok_to_delete_pvc pool
              then record s { evicted_or_orphaned = s.evicted_or_orphaned ++ pod ∷ [] }
              else s))
      else some (condition_loop now pod pod.conditions s)

  -- One round of the loop over the pods; `none` is an error or a panic.
  status_step : Pod → PodsStatus → Option PodsStatus
  unfolding live_pod note_pod
  status_step pod s = elim (atoi (get_text pod_revision_annotation pod.annotations)) [
    | none ↦ none
    | some revision ↦ elim (image_of pod) [
      | none ↦ none
      | some image ↦
          if is_some pod.deletion_timestamp
          then some (note_pod revision image pod s)
          else live_pod pod (note_pod revision image pod s)
    ]
  ]

  status_loop : List Pod → PodsStatus → Option PodsStatus
  unfolding status_step
  status_loop [] s = some s
  status_loop (p ∷ ps) s = elim (status_step p s) [ none ↦ none | some t ↦ status_loop ps t ]

  initial_status : ℕ → ℤ → PodsStatus
  initial_status found scaled = record {
    node_count = get_node_count pool;
    ready_count = pos 0;
    not_ready_count = pos found;
    not_ready_due_to_min_ready_seconds = pos 0;
    pod_revisions = [];
    pod_image_versions = [];
    pod_deletion_timestamp_set = [];
    pod_names = [];
    unschedulable_or_bad = [];
    evicted_or_orphaned = [];
    pods_ready = [];
    scaled_max_unavailable = max_ℤ scaled (pos 1);
    min_ready_seconds = (get_update_strategy pool).min_ready_seconds;
  }

  -- getPodsStatus. `scaled_value` is `intstr.GetScaledValueFromIntOrPercent`, whose last argument
  -- says whether to round up; `none` is its error.
  unfoldable pub get_pods_status :
      (Option IntOrString → ℤ → Bool → Option ℤ) → List Pod → Option PodsStatus
  unfolding status_loop initial_status
  get_pods_status scaled_value found =
      elim (scaled_value (get_update_strategy pool).max_unavailable (get_node_count pool) false) [
        | none ↦ none
        | some scaled ↦ status_loop (sort_pods found) (initial_status (length found) scaled)
      ]
