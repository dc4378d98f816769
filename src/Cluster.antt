-- ===== src/Cluster.antt =====
-- The reconciler of `HumioCluster` resources (internal/controller/humiocluster_*.go).
pub mod Types
pub mod EnvVars
pub mod NodePool
pub mod Status
pub mod Sanitize
pub mod Version
pub mod PodCompare
pub mod Zones
pub mod PodHash
pub mod Lifecycle
pub mod Pvc
pub mod PodsStatus
pub mod Deletion
pub mod Eviction
pub mod Downscaling
pub mod Creation
mod Examples
