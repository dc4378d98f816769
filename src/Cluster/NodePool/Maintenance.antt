-- ===== src/Cluster/NodePool/Maintenance.antt =====
-- Which node pools may be worked on.
use humio_operator.Common.{
  ◌≡◌, refl, Bool, true, false, not, List, [], ◌∷◌, ◌++◌, arith, ◌==◌, eq_iff, ◌&&◌, ◌||◌, any,
  any-append,
}
use humio_operator.Cluster.Types.{HumioNodePool, NodePoolStatus, state_running}
use humio_operator.Cluster.NodePool.{
  get_node_pool_name, maintenance_entries, node_pools_in_maintenance, among_names, allows_with,
  allows_maintenance_operations,
}

-- The status list has an entry of the pool's name in another state than `Running`.
unfoldable pub is_in_maintenance : List NodePoolStatus → HumioNodePool → Bool
is_in_maintenance statuses pool =
    any
      (λ (s : NodePoolStatus). s.name == get_node_pool_name pool && not (s.state == state_running))
      statuses

maintenance_entries_head :
    (pool p : HumioNodePool) (statuses : List NodePoolStatus)
    → among_names p (maintenance_entries pool statuses)
      ≡ (get_node_pool_name p == get_node_pool_name pool && is_in_maintenance statuses pool)
unfolding maintenance_entries is_in_maintenance among_names
maintenance_entries_head pool p [] = ground arith
maintenance_entries_head pool p (s ∷ rest) = ground (arith, maintenance_entries_head pool p rest)

among_names-append :
    (p : HumioNodePool) (xs ys : List HumioNodePool)
    → among_names p (xs ++ ys) ≡ (among_names p xs || among_names p ys)
unfolding among_names
among_names-append p [] ys = refl
among_names-append p (x ∷ xs) ys = ground (arith, among_names-append p xs ys)

-- The test of the pool's own loop over the pools in maintenance.
abbrev same_name_in_maintenance : List NodePoolStatus → HumioNodePool → HumioNodePool → Bool
same_name_in_maintenance statuses pool p =
    get_node_pool_name pool == get_node_pool_name p && is_in_maintenance statuses p

among_names-node_pools_in_maintenance :
    (statuses : List NodePoolStatus) (pool : HumioNodePool) (pools : List HumioNodePool)
    → among_names pool (node_pools_in_maintenance statuses pools)
      ≡ any (same_name_in_maintenance statuses pool) pools
unfolding node_pools_in_maintenance
among_names-node_pools_in_maintenance statuses pool [] = unfold among_names in refl
among_names-node_pools_in_maintenance statuses pool (p ∷ ps) = rw among_names-append (
    ground (
      arith,
      maintenance_entries_head p pool statuses,
      among_names-node_pools_in_maintenance statuses pool ps,
    ))

is_nil : List HumioNodePool → Bool
is_nil [] = true
is_nil (p ∷ ps) = false

is_nil-append : (xs ys : List HumioNodePool) → is_nil (xs ++ ys) ≡ (is_nil xs && is_nil ys)
unfolding is_nil
is_nil-append [] ys = refl
is_nil-append (x ∷ xs) ys = refl

is_nil-maintenance_entries :
    (pool : HumioNodePool) (statuses : List NodePoolStatus)
    → is_nil (maintenance_entries pool statuses) ≡ not (is_in_maintenance statuses pool)
unfolding maintenance_entries is_in_maintenance is_nil
is_nil-maintenance_entries pool [] = refl
is_nil-maintenance_entries pool (s ∷ rest) = ground (arith, is_nil-maintenance_entries pool rest)

is_nil-node_pools_in_maintenance :
    (statuses : List NodePoolStatus) (pools : List HumioNodePool)
    → is_nil (node_pools_in_maintenance statuses pools)
      ≡ not (any (is_in_maintenance statuses) pools)
unfolding node_pools_in_maintenance
is_nil-node_pools_in_maintenance statuses [] = unfold is_nil in refl
is_nil-node_pools_in_maintenance statuses (p ∷ ps) = rw is_nil-append (
    ground
      (arith, is_nil-maintenance_entries p statuses, is_nil-node_pools_in_maintenance statuses ps))

allows_with_lem :
    (pool : HumioNodePool) (ps : List HumioNodePool)
    → allows_with pool ps ≡ (is_nil ps || among_names pool ps)
unfolding allows_with is_nil
allows_with_lem pool [] = refl
allows_with_lem pool (p ∷ ps) = refl

-- Maintenance is a fact of the pool's name.
is_in_maintenance_of_name :
    (statuses : List NodePoolStatus) (pool p : HumioNodePool)
    → get_node_pool_name pool ≡ get_node_pool_name p
    → is_in_maintenance statuses p ≡ is_in_maintenance statuses pool
unfolding is_in_maintenance
is_in_maintenance_of_name statuses pool p e = rw e

same_name_sound :
    (statuses : List NodePoolStatus) (pool : HumioNodePool) (ps : List HumioNodePool)
    → any (same_name_in_maintenance statuses pool) ps ≡ true
    → is_in_maintenance statuses pool ≡ true
same_name_sound statuses pool [] h = cc
same_name_sound statuses pool (p ∷ ps) h = ground (
  arith,
  eq_iff (get_node_pool_name pool) (get_node_pool_name p),
  is_in_maintenance_of_name statuses pool p,
  same_name_sound statuses pool ps,
)

-- A pool of the list may be worked on exactly if no pool of the list is in maintenance or it is in
-- maintenance itself.
pub allows_maintenance_operations_exact :
    (statuses : List NodePoolStatus) (pool : HumioNodePool) (before after : List HumioNodePool)
    → allows_maintenance_operations statuses pool (before ++ pool ∷ after) ≡ (
        not (any (is_in_maintenance statuses) (before ++ pool ∷ after))
        || is_in_maintenance statuses pool)
unfolding allows_maintenance_operations
allows_maintenance_operations_exact statuses pool before after = ground (
  arith,
  allows_with_lem pool (node_pools_in_maintenance statuses (before ++ pool ∷ after)),
  is_nil-node_pools_in_maintenance statuses (before ++ pool ∷ after),
  among_names-node_pools_in_maintenance statuses pool (before ++ pool ∷ after),
  same_name_sound statuses pool (before ++ pool ∷ after),
  any-append (same_name_in_maintenance statuses pool) before (pool ∷ after),
  (eq_iff (get_node_pool_name pool) (get_node_pool_name pool)).1 refl,
)
