-- ===== src/Cluster/Zones.antt =====
-- Zones of worker nodes, internal/kubernetes/nodes.go, and the pod filters of
-- internal/controller/humiocluster_pods.go. The node reads of the API server are a parameter.
use humio_operator.Common.{
  String, Option, none, some, List, [], ◌∷◌, ◌≡◌, arith, ◌==◌, eq_iff, ◌&&◌, Option-cases, inl, inr,
  if◌then◌else◌,
}
use humio_operator.Common.Int.{ℤ}
use humio_operator.Common.Map.{Map, lookup, insert, get_text, has_key, lookup-insert}
use humio_operator.Common.Format.{itoa}
use humio_operator.K8s.{Pod}
use humio_operator.Cluster.PodCompare.{pod_revision_annotation, pod_hash_annotation}

-- The labels of a node, if it can be read.
abbrev pub Nodes : Type 0
Nodes = String → Option (Map String)

zone_of_labels : Map String → String
zone_of_labels labels = elim (lookup "topology.kubernetes.io/zone" labels) [
  | none ↦ get_text "failure-domain.beta.kubernetes.io/zone" labels
  | some zone ↦ zone
]

-- GetZoneForNodeName: the zone and the cache `nodeNameToZoneName`. The error that it returns is
-- always nil: a node that cannot be read has the zone "", which is not cached.
unfoldable pub zone_for_node_name : Nodes → Map String → String → String × Map String
unfolding zone_of_labels
zone_for_node_name nodes cache name = elim (lookup name cache) [
  | some zone ↦ (zone, cache)
  | none ↦ elim (nodes name) [
    | none ↦ ("", cache)
    | some labels ↦ (zone_of_labels labels, insert name (zone_of_labels labels) cache)
  ]
]

-- The zone that a reconciliation sees for a node, from the cache that it starts with.
unfoldable pub zone_of : Nodes → Map String → String → String
unfolding zone_for_node_name
zone_of nodes cache name = (zone_for_node_name nodes cache name).0

-- Looking one node up does not change what is answered for any node, so the order of the lookups in
-- a reconciliation does not matter.
zone_of-zone_for_node_name :
    (nodes : Nodes) (cache : Map String) (a b : String)
    → zone_of nodes (zone_for_node_name nodes cache a).1 b ≡ zone_of nodes cache b
unfolding zone_of
zone_of-zone_for_node_name nodes cache a b = elim (Option-cases (nodes a)) [
  | inl e ↦ ground (arith, eq_iff a b)
  | inr (labels, e) ↦ ground (arith, eq_iff a b, lookup-insert a b (zone_of_labels labels) cache)
]

-- FilterPodsByZoneName
unfoldable pub filter_pods_by_zone_name : (String → String) → List Pod → String → List Pod
filter_pods_by_zone_name zone [] name = []
filter_pods_by_zone_name zone (p ∷ ps) name =
    let rest = filter_pods_by_zone_name zone ps name in
    if zone p.spec.node_name == name then p ∷ rest else rest

-- FilterPodsExcludePodsWithPodRevisionOrPodHash
unfoldable pub filter_pods_exclude_revision_and_hash : List Pod → ℤ → String → List Pod
filter_pods_exclude_revision_and_hash [] revision hash = []
filter_pods_exclude_revision_and_hash (p ∷ ps) revision hash =
    let rest = filter_pods_exclude_revision_and_hash ps revision hash in
    if has_key pod_revision_annotation p.annotations
      && has_key pod_hash_annotation p.annotations
      && itoa revision == get_text pod_revision_annotation p.annotations
      && hash == get_text pod_hash_annotation p.annotations
    then rest
    else p ∷ rest

-- FilterPodsExcludePodsWithEmptyNodeName
unfoldable pub filter_pods_exclude_empty_node_name : List Pod → List Pod
filter_pods_exclude_empty_node_name [] = []
filter_pods_exclude_empty_node_name (p ∷ ps) =
    let rest = filter_pods_exclude_empty_node_name ps in
    if p.spec.node_name == "" then rest else p ∷ rest
