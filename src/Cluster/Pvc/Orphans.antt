-- ===== src/Cluster/Pvc/Orphans.antt =====
-- What the orphan tests look at.
use humio_operator.Common.{
  String, ◌≡◌, refl, Bool, true, false, not, some, List, [], ◌∷◌, arith, any, keep, ◌==◌, ◌&&◌,
}
use mathlib.Core.List.{head?}
use humio_operator.K8s.{Pod}
use humio_operator.Cluster.Types.{PodStatus}
use humio_operator.Cluster.Pvc.{
  Claim, find_pod_for_pvc, NodeAnswer, node_not_found, node_failed, is_pvc_orphaned,
  orphaned_by_status, uses_claim,
}

-- The pod mounts the claim as its data volume.
unfoldable pub mounts : Claim → Pod → Bool
unfolding uses_claim
mounts claim pod = uses_claim claim.name pod.spec.volumes

-- The pod that is found for a claim is the first one that does not mount it.
pub find_pod_for_pvc_inverted :
    (pods : List Pod) (claim : Claim)
    → find_pod_for_pvc pods claim ≡ head? (keep (λ (p : Pod). not (mounts claim p)) pods)
unfolding find_pod_for_pvc mounts
find_pod_for_pvc_inverted [] claim = refl
find_pod_for_pvc_inverted (q ∷ qs) claim = ground (arith, find_pod_for_pvc_inverted qs claim)

-- The status records the claim, on a node with a name.
abbrev records : Claim → PodStatus → Bool
records claim s = s.pvc_name == claim.name && not (s.node_name == "")

abbrev pub is_gone : (String → NodeAnswer) → Claim → PodStatus → Bool
is_gone get_node claim s =
    records claim s && elim (get_node s.node_name) [ node_not_found ↦ true | _ ↦ false ]

abbrev pub read_fails : (String → NodeAnswer) → Claim → PodStatus → Bool
read_fails get_node claim s =
    records claim s && elim (get_node s.node_name) [ node_failed ↦ true | _ ↦ false ]

orphaned_by_status_lem :
    (get_node : String → NodeAnswer) (statuses : List PodStatus) (claim : Claim)
    → any (read_fails get_node claim) statuses ≡ false
    → orphaned_by_status get_node claim statuses ≡ some (any (is_gone get_node claim) statuses)
unfolding orphaned_by_status
orphaned_by_status_lem get_node [] claim h = refl
orphaned_by_status_lem get_node (s ∷ ss) claim h =
    ground (arith, orphaned_by_status_lem get_node ss claim)

-- Whatever pods run, if no read of a node fails, a claim counts as orphaned exactly if the status
-- of the cluster records it for a pod on a node that no longer exists.
pub is_pvc_orphaned_exact :
    (get_node : String → NodeAnswer) (pods : List Pod) (statuses : List PodStatus) (claim : Claim)
    → any (read_fails get_node claim) statuses ≡ false
    → is_pvc_orphaned get_node (some pods) statuses claim
      ≡ some (any (is_gone get_node claim) statuses)
unfolding is_pvc_orphaned
is_pvc_orphaned_exact get_node pods statuses claim h =
    ground (arith, orphaned_by_status_lem get_node statuses claim h)
