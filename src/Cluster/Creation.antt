-- ===== src/Cluster/Creation.antt =====
-- The creation of pods: ensurePodsExist of internal/controller/humiocluster_controller.go, and
-- newPodAttachments, findAvailableVolumeSourceForPod and waitForNewPods of
-- internal/controller/humiocluster_pods.go. What the API server answers, and the construction of a pod,
-- are parameters that take the number of the round.
pub mod Claims
pub mod Names
use humio_operator.Common.{
  ℕ, zero, suc, ◌+◌, ◌-◌, String, Bool, true, false, not, Option, none, some, List, [], ◌∷◌, ◌++◌,
  ◌==◌, ◌&&◌, length, count, leb, if◌then◌else◌,
}
use humio_operator.Common.Int.{ℤ, pos, ltb_ℤ, pos_part}
use humio_operator.Common.Map.{get_text}
use humio_operator.K8s.{
  Pod, VolumeSource, empty_source, persistent_volume_claim, secret, other_source,
}
use humio_operator.Cluster.Types.{HumioNodePool}
use humio_operator.Cluster.NodePool.{pvcs_enabled, data_volume_claim_source, get_node_count}
use humio_operator.Cluster.PodCompare.{pod_hash_annotation}
use humio_operator.Cluster.Pvc.{Claim, claim_of, claims_in_use, find_next_available_pvc}
use humio_operator.Cluster.Eviction.{wait_for_pod_timeout_seconds}

is_empty_source : VolumeSource → Bool
is_empty_source empty_source = true
is_empty_source _ = false

-- findAvailableVolumeSourceForPod, with the map of the claims in use that it leaves; `none` is its
-- error.
find_available_volume_source_for_pod :
    HumioNodePool → List Pod → List Claim → List String → Option (VolumeSource × List String)
unfolding is_empty_source
find_available_volume_source_for_pod pool pods claims in_use =
    if pvcs_enabled pool && not (is_empty_source pool.node_spec.data_volume_source)
    then none
    else if pvcs_enabled pool
    then elim (find_next_available_pvc claims pods in_use) [
      | none ↦ none
      | some n ↦ some (data_volume_claim_source pool n, claims_in_use pods in_use)
    ]
    else some (pool.node_spec.data_volume_source, in_use)

-- What is answered in one round of the loop: the claims that can be scheduled, if they could be read;
-- whether the other attachments were found; and the pod created with a volume, if it could be.
pub record Answers : Type 0 where
  pub claims : Option (List Claim)
  pub rest_found : Bool
  pub create : VolumeSource → Option Pod

-- pvcList, which asks for claims only if the pool has them
pvc_list : HumioNodePool → Answers → Option (List Claim)
pvc_list pool a = if pvcs_enabled pool then a.claims else some []

mark : VolumeSource → List String → List String
mark source in_use = elim (claim_of source) [ none ↦ in_use | some c ↦ c ∷ in_use ]

-- newPodAttachments: the volume source, and the map of the claims in use with its claim.
unfoldable pub new_pod_attachments :
    HumioNodePool → List Pod → List String → Answers → Option (VolumeSource × List String)
unfolding find_available_volume_source_for_pod pvc_list mark
new_pod_attachments pool pods in_use a = elim (pvc_list pool a) [
  | none ↦ none
  | some claims ↦ elim (find_available_volume_source_for_pod pool pods claims in_use) [
    | none ↦ none
    | some (source, used) ↦ if a.rest_found then some (source, mark source used) else none
  ]
]

-- The pods created, each with the source of its data volume, and whether the loop came to its end. An
-- error of a round ends the loop.
pub record Created : Type 0 where
  pub pods : List (VolumeSource × Pod)
  pub complete : Bool

abbrev pub none_created : Created
none_created = record { pods = []; complete = false }

abbrev pub with_pod : VolumeSource → Pod → Created → Created
with_pod source pod rest = record rest { pods = (source, pod) ∷ rest.pods }

module _ (pool : HumioNodePool) (pods : List Pod) (answers : ℕ → Answers) where
  -- The loop of ensurePodsExist, for so many rounds to come, from a round and the claims in use on.
  unfoldable pub create_loop : ℕ → ℕ → List String → Created
  create_loop zero i in_use = record { pods = []; complete = true }
  create_loop (suc n) i in_use = elim (new_pod_attachments pool pods in_use (answers i)) [
    | none ↦ none_created
    | some (source, used) ↦
        let rest = create_loop n (suc i) used in
        elim ((answers i).create source) [
          | none ↦ none_created
          | some pod ↦ with_pod source pod rest
        ]
  ]

-- The pods of a list that have the hash.
has_hash : String → Pod → Bool
has_hash hash pod = get_text pod_hash_annotation pod.annotations == hash

-- The rounds of waitForNewPods: whether one of them lists enough pods before an error.
wait_rounds : ℕ → ℕ → String → ℕ → (ℕ → Option (List Pod)) → Bool
unfolding has_hash
wait_rounds zero i hash expected lists = false
wait_rounds (suc n) i hash expected lists =
    let later = wait_rounds n (suc i) hash expected lists in
    elim (lists i) [
      | none ↦ false
      | some latest ↦ if leb expected (count (has_hash hash) latest) then true else later
    ]

-- waitForNewPods; `none` is the panic without a new pod.
unfoldable pub wait_for_new_pods :
    List Pod → List (VolumeSource × Pod) → (ℕ → Option (List Pod)) → Option Bool
unfolding wait_rounds
wait_for_new_pods previous [] lists = none
wait_for_new_pods previous ((v, first) ∷ rest) lists =
    let hash = get_text pod_hash_annotation first.annotations in
    some (
      wait_rounds wait_for_pod_timeout_seconds 0 hash
        (count (has_hash hash) previous + suc (length rest)) lists)

-- How ensurePodsExist returns: nothing is to be done, with Requeue, with an error and a requeue after 5
-- seconds, with an error, or by a panic.
pub data Creation : Type 0 where
  complete_pool requeued creation_failed wait_failed creation_panics : Creation

after_creation : List Pod → Created → (ℕ → Option (List Pod)) → Creation
after_creation pods c lists =
    if c.complete
    then elim (wait_for_new_pods pods c.pods lists) [
      | none ↦ creation_panics
      | some true ↦ requeued
      | some false ↦ wait_failed
    ]
    else creation_failed

-- ensurePodsExist past the list of the pods: what it creates, and how it returns.
unfoldable pub ensure_pods_exist :
    HumioNodePool
    → List Pod
    → (ℕ → Answers)
    → (ℕ → Option (List Pod))
    → List (VolumeSource × Pod) × Creation
unfolding after_creation
ensure_pods_exist pool pods answers lists =
    let c = create_loop pool pods answers (pos_part (get_node_count pool) - length pods) 1 [] in
    if ltb_ℤ (pos (length pods)) (get_node_count pool)
    then (c.pods, after_creation pods c lists)
    else ([], complete_pool)
