-- ===== src/Cluster/Status/Options.antt =====
-- What the options write.
use humio_operator.Common.{
  ℕ, String, ◌≡◌, refl, ◌≢◌, ◌≤◌, All, List, [], ◌∷◌, map, arith, ap, ◌==◌, eq_iff, if◌then◌else◌,
  count, max,
}
use humio_operator.Cluster.Types.{ClusterStatus, NodePoolStatus}
use humio_operator.Cluster.NodePool.{PoolState, pool_state}
use humio_operator.Cluster.Status.{
  StateOption, StatusOption, message_option, state_option, state_option_list, version_option,
  pods_option, license_option, node_count_option, observed_generation_option, Options,
  status_options, with_node_pool_status_list, pool_status_of, write_pool_status, apply, apply_all,
  state_of_pool_status,
}

-- What a node pool manager reads of an option.
abbrev pub pool_state_of : StateOption → PoolState
pool_state_of s = record {
  state = s.state;
  zone_under_maintenance = s.zone_under_maintenance;
  desired_pod_revision = s.desired_pod_revision;
  desired_pod_hash = s.desired_pod_hash;
  desired_bootstrap_token_hash = s.desired_bootstrap_token_hash;
}

pool_state-write_pool_status :
    (s : StateOption) (j : String) (ps : List NodePoolStatus)
    → pool_state j (write_pool_status s ps)
      ≡ (if s.node_pool_name == j then pool_state_of s else pool_state j ps)
unfolding write_pool_status pool_state
pool_state-write_pool_status s j [] = refl
pool_state-write_pool_status s j (p ∷ ps) = ground (
  arith,
  pool_state-write_pool_status s j ps,
  eq_iff p.name s.node_pool_name,
  eq_iff p.name j,
  eq_iff s.node_pool_name j,
)

-- After an option for a named pool, a manager of that pool reads the option's values from the
-- status, and a manager of any other pool reads what it read before.
pub pool_state-apply :
    (s : StateOption) (j : String) (c : ClusterStatus)
    → s.node_pool_name ≢ ""
    → pool_state j (apply (state_option s) c).node_pool_status
      ≡ (if s.node_pool_name == j then pool_state_of s else pool_state j c.node_pool_status)
unfolding apply
pool_state-apply s j c h =
    ground (arith, pool_state-write_pool_status s j c.node_pool_status, eq_iff s.node_pool_name "")

abbrev pub entries : String → List NodePoolStatus → ℕ
entries j = count (λ (p : NodePoolStatus). p.name == j)

entries-write_pool_status :
    (s : StateOption) (j : String) (ps : List NodePoolStatus)
    → entries j (write_pool_status s ps)
      ≡ (if s.node_pool_name == j then max 1 (entries j ps) else entries j ps)
unfolding write_pool_status
entries-write_pool_status s j [] = ground arith
entries-write_pool_status s j (p ∷ ps) = ground (
  arith,
  entries-write_pool_status s j ps,
  eq_iff p.name s.node_pool_name,
  eq_iff p.name j,
  eq_iff s.node_pool_name j,
)

-- No name stands twice in the list.
abbrev pub IsUnique : List NodePoolStatus → Type 0
IsUnique ps = (j : String) → entries j ps ≤ 1

-- An option that replaces the whole list hands over one with no name twice.
abbrev pub IsUniqueOption : StatusOption → Type 0
IsUniqueOption (state_option_list ss) = IsUnique (map pool_status_of ss)
IsUniqueOption _ = Unit

apply-IsUnique :
    (o : StatusOption) (c : ClusterStatus)
    → IsUniqueOption o
    → IsUnique c.node_pool_status
    → IsUnique (apply o c).node_pool_status
unfolding apply
apply-IsUnique (state_option s) c u h j =
    ground (arith, entries-write_pool_status s j c.node_pool_status, h j)
apply-IsUnique (state_option_list ss) c u h j = u j
apply-IsUnique (message_option m) c u h j = h j
apply-IsUnique (version_option m) c u h j = h j
apply-IsUnique (pods_option m) c u h j = h j
apply-IsUnique (license_option m) c u h j = h j
apply-IsUnique (node_count_option m) c u h j = h j
apply-IsUnique (observed_generation_option m) c u h j = h j

-- The list of node pool statuses never gets a second entry of a name: where every name stands once
-- at most before the options of an update, it does so after them.
pub apply_all-IsUnique :
    (os : Options) (c : ClusterStatus)
    → All IsUniqueOption os
    → IsUnique c.node_pool_status
    → IsUnique (apply_all os c).node_pool_status
unfolding apply_all
apply_all-IsUnique [] c u h = h
apply_all-IsUnique (o ∷ os) c u h = apply_all-IsUnique os (apply o c) u.1 (apply-IsUnique o c u.0 h)

map-pool_status_of :
    (ps : List NodePoolStatus) → map pool_status_of (map state_of_pool_status ps) ≡ ps
map-pool_status_of [] = refl
map-pool_status_of (p ∷ ps) = ap (λ (rest : List NodePoolStatus). p ∷ rest) (map-pool_status_of ps)

-- A list of node pool statuses that goes through the builder is written as it was.
apply_all-with_node_pool_status_list :
    (ps : List NodePoolStatus) (c : ClusterStatus)
    → (apply_all (with_node_pool_status_list ps status_options) c).node_pool_status ≡ ps
unfolding apply_all
apply_all-with_node_pool_status_list ps c = map-pool_status_of ps
