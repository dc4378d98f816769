-- ===== src/Cluster/Examples/Pools.antt =====
-- The theorems on node pools, variables and claims at concrete lists.
use humio_operator.Common.{
  ◌≡◌, ◌⊎◌, String, true, false, not, none, some, List, [], ◌∷◌, any, ◌||◌, ◌==◌,
}
use humio_operator.Common.Int.{pos}
use humio_operator.Cluster.Types.{
  HumioNodePool, NodePoolStatus, PodStatus, state_running, state_upgrading,
}
use humio_operator.Cluster.NodePool.{allows_maintenance_operations}
use humio_operator.Cluster.NodePool.Maintenance.{
  is_in_maintenance, allows_maintenance_operations_exact,
}
use humio_operator.Cluster.Pvc.{Claim, NodeAnswer, node_not_found, find_next_available_pvc}
use humio_operator.Cluster.Pvc.Available.{find_next_available_pvc_exact, is_taken}
use humio_operator.K8s.{Pod, persistent_volume_claim}
use humio_operator.Cluster.Examples.{pod_of, pool_with, pool_status, rolling}

abbrev main_pool : HumioNodePool
main_pool = pool_with rolling "" (pos 3)

abbrev ingest_pool : HumioNodePool
ingest_pool = pool_with rolling "ingest" (pos 2)

abbrev statuses : List NodePoolStatus
statuses =
    pool_status "example" state_running
    ∷ pool_status "example-ingest" state_upgrading
    ∷ pool_status "example-old" state_running
    ∷ []

abbrev claim_1 : Claim
claim_1 = record { name = "claim-1"; phase = "Bound" }

abbrev lost_worker : PodStatus
lost_worker = record { pod_name = "p0"; pvc_name = "claim-1"; node_name = "worker-9" }

abbrev no_node : String → NodeAnswer
no_node name = node_not_found

allows_maintenance_operations_exact_example :
    allows_maintenance_operations statuses ingest_pool (main_pool ∷ ingest_pool ∷ []) ≡ (
      not (any (is_in_maintenance statuses) (main_pool ∷ ingest_pool ∷ []))
      || is_in_maintenance statuses ingest_pool)
allows_maintenance_operations_exact_example =
    allows_maintenance_operations_exact statuses ingest_pool (main_pool ∷ []) []

abbrev holder : Pod
holder =
    let p = pod_of "pod-1" [] "image" in
    record p {
      spec = record p.spec {
        volumes = record { name = "humio-data"; source = persistent_volume_claim "claim-1" } ∷ [];
      };
    }

abbrev claim_2 : Claim
claim_2 = record { name = "claim-2"; phase = "Bound" }

find_next_available_pvc_exact_example :
    ((find_next_available_pvc (claim_1 ∷ claim_2 ∷ []) (holder ∷ []) [] ≡ none)
      × (any (λ (c : Claim). not (is_taken [] (holder ∷ []) c.name)) (claim_1 ∷ claim_2 ∷ [])
          ≡ false))
    ⊎ ((n : String) × (find_next_available_pvc (claim_1 ∷ claim_2 ∷ []) (holder ∷ []) [] ≡ some n)
        × (any (λ (c : Claim). c.name == n) (claim_1 ∷ claim_2 ∷ []) ≡ true)
        × (is_taken [] (holder ∷ []) n ≡ false))
find_next_available_pvc_exact_example =
    find_next_available_pvc_exact (claim_1 ∷ claim_2 ∷ []) (holder ∷ []) []
