-- ===== src/Cluster/Pvc.antt =====
-- Persistent volume claims: internal/controller/humiocluster_persistent_volumes.go, findPodForPvc
-- of internal/controller/humiocluster_pods.go, and the orphan tests of
-- internal/controller/humiocluster_controller.go. The reads of the API server are parameters.
pub mod Orphans
pub mod Available
use text.Mathlib.Text.{is_lt}
use Prim.Native.String.{compare}
use humio_operator.Common.{
  String, Bool, true, false, not, Option, none, some, List, [], ◌∷◌, ◌++◌, ◌==◌, ◌&&◌, any,
  if◌then◌else◌,
}
use humio_operator.K8s.{
  Pod, Volume, VolumeSource, persistent_volume_claim, empty_source, secret, other_source,
}
use humio_operator.Cluster.Types.{PodStatus}
use humio_operator.Cluster.Sanitize.{humio_data_volume_name}

pub record Claim : Type 0 where
  pub name : String
  pub phase : String

-- The claim of a volume source, if it is one.
unfoldable pub claim_of : VolumeSource → Option String
claim_of (persistent_volume_claim c) = some c
claim_of _ = none

-- The inner loop of FindPvcForPod.
uses_claim : String → List Volume → Bool
unfolding claim_of
uses_claim name [] = false
uses_claim name (v ∷ vs) =
    if v.name == humio_data_volume_name
    then elim (claim_of v.source) [
      | none ↦ uses_claim name vs
      | some c ↦ if c == name then true else uses_claim name vs
    ]
    else uses_claim name vs

-- FindPvcForPod; `none` is its error.
unfoldable pub find_pvc_for_pod : List Claim → Pod → Option Claim
unfolding uses_claim
find_pvc_for_pod [] pod = none
find_pvc_for_pod (c ∷ cs) pod =
    if uses_claim c.name pod.spec.volumes then some c else find_pvc_for_pod cs pod

-- findPodForPvc, as it is written: a pod is returned where FindPvcForPod has an error. `none` is
-- the error, which comes with an empty pod.
unfoldable pub find_pod_for_pvc : List Pod → Claim → Option Pod
unfolding find_pvc_for_pod
find_pod_for_pvc [] claim = none
find_pod_for_pvc (p ∷ ps) claim = elim (find_pvc_for_pod (claim ∷ []) p) [
  | none ↦ some p
  | some c ↦ find_pod_for_pvc ps claim
]

-- The answer of the API server to a read of a node.
pub data NodeAnswer : Type 0 where
  node_found node_not_found node_failed : NodeAnswer

-- The second loop of isPvcOrphaned, over the pods in the status. `none` is an error.
orphaned_by_status : (String → NodeAnswer) → Claim → List PodStatus → Option Bool
orphaned_by_status get_node claim [] = some false
orphaned_by_status get_node claim (s ∷ ss) =
    let rest = orphaned_by_status get_node claim ss in
    if s.pvc_name == claim.name && not (s.node_name == "")
    then elim (get_node s.node_name) [
      | node_not_found ↦ some true
      | node_failed ↦ none
      | node_found ↦ rest
    ]
    else rest

-- The node that the first test of isPvcOrphaned reads: it looks at the pod that findPodForPvc
-- returns beside an error, and that pod is empty.
node_of_failed_search : Option Pod → String
node_of_failed_search result = ""

-- isPvcOrphaned. `listed` are the pods, if they could be listed.
unfoldable pub is_pvc_orphaned :
    (String → NodeAnswer) → Option (List Pod) → List PodStatus → Claim → Option Bool
unfolding orphaned_by_status find_pod_for_pvc node_of_failed_search
is_pvc_orphaned get_node none statuses claim = none
is_pvc_orphaned get_node (some pods) statuses claim =
    let by_status = orphaned_by_status get_node claim statuses in
    elim (find_pod_for_pvc pods claim) [
      | some pod ↦ by_status
      | none ↦
          if not (node_of_failed_search none == "")
          then elim (get_node (node_of_failed_search none)) [
            | node_not_found ↦ some true
            | node_failed ↦ none
            | node_found ↦ some false
          ]
          else by_status
    ]

-- The boolean and whether there is an error.
pub record Attached : Type 0 where
  pub orphaned : Bool
  pub has_error : Bool

-- isPodAttachedToOrphanedPvc. `claims` are the claims of the node pool, if they could be listed.
unfoldable pub is_pod_attached_to_orphaned_pvc :
    (String → NodeAnswer)
    → Option (List Claim)
    → Option (List Pod)
    → List PodStatus
    → Pod
    → Attached
unfolding is_pvc_orphaned find_pvc_for_pod
is_pod_attached_to_orphaned_pvc get_node none pods statuses pod = record {
  orphaned = false;
  has_error = true;
}
is_pod_attached_to_orphaned_pvc get_node (some claims) pods statuses pod =
    elim (find_pvc_for_pod claims pod) [
      | none ↦ record { orphaned = true; has_error = true }
      | some c ↦ elim (is_pvc_orphaned get_node pods statuses c) [
        | none ↦ record { orphaned = false; has_error = true }
        | some b ↦ record { orphaned = b; has_error = false }
      ]
    ]

-- The claims that the data volumes of the pods name, which FindNextAvailablePvc adds to those in
-- use.
unfoldable pub volume_claims : List Volume → List String → List String
unfolding claim_of
volume_claims [] in_use = in_use
volume_claims (v ∷ vs) in_use = volume_claims vs (
    if v.name == humio_data_volume_name
    then elim (claim_of v.source) [ none ↦ in_use | some c ↦ c ∷ in_use ]
    else in_use)

unfoldable pub claims_in_use : List Pod → List String → List String
unfolding volume_claims
claims_in_use [] in_use = in_use
claims_in_use (p ∷ ps) in_use = claims_in_use ps (volume_claims p.spec.volumes in_use)

-- The comparison of the sort: bound claims first, then by name.
claim_before : Claim → Claim → Bool
claim_before a b =
    if a.phase == "Bound" && not (b.phase == "Bound")
    then true
    else if not (a.phase == "Bound") && b.phase == "Bound"
    then false
    else is_lt (compare a.name b.name)

insert_claim : Claim → List Claim → List Claim
unfolding claim_before
insert_claim c [] = c ∷ []
insert_claim c (d ∷ ds) = if claim_before d c then d ∷ insert_claim c ds else c ∷ d ∷ ds

unfoldable pub sort_claims : List Claim → List Claim
unfolding insert_claim
sort_claims [] = []
sort_claims (c ∷ cs) = insert_claim c (sort_claims cs)

abbrev pub is_in_use : List String → Claim → Bool
is_in_use in_use c = any (λ (n : String). n == c.name) in_use

first_free : List String → List Claim → Option String
first_free in_use [] = none
first_free in_use (c ∷ cs) = if is_in_use in_use c then first_free in_use cs else some c.name

-- FindNextAvailablePvc, for a map of claims in use that is not nil; `none` is its error.
unfoldable pub find_next_available_pvc : List Claim → List Pod → List String → Option String
unfolding claims_in_use sort_claims first_free
find_next_available_pvc claims pods in_use =
    first_free (claims_in_use pods in_use) (sort_claims claims)
