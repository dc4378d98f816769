-- ===== src/Cluster/NodePool/Cleanup.antt =====
-- Removing the status entries of pools that are no longer configured.
use humio_operator.Common.{ℕ, zero, suc, not, Option, none, some, List, count}
use humio_operator.Cluster.Types.{HumioNodePool, NodePoolStatus}
use humio_operator.Cluster.NodePool.{
  valid_pool, unused_node_pool_status, cleanup_unused_node_pool_status,
}

-- One reconciliation: the first unused entry is removed, if there is one.
unfoldable pub cleanup_step : List HumioNodePool → List NodePoolStatus → List NodePoolStatus
cleanup_step pools statuses = elim (unused_node_pool_status pools statuses) [
  | none ↦ statuses
  | some idx ↦ cleanup_unused_node_pool_status statuses idx
]

-- So many reconciliations in a row, while the configured pools stay.
unfoldable pub cleanup_rounds : ℕ → List HumioNodePool → List NodePoolStatus → List NodePoolStatus
unfolding cleanup_step
cleanup_rounds zero pools statuses = statuses
cleanup_rounds (suc n) pools statuses = cleanup_rounds n pools (cleanup_step pools statuses)

abbrev pub count_unused : List HumioNodePool → List NodePoolStatus → ℕ
count_unused pools = count (λ s. not (valid_pool pools s))

shift : Option ℕ → Option ℕ
shift none = none
shift (some i) = some (suc i)
