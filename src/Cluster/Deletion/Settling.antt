-- ===== src/Cluster/Deletion/Settling.antt =====
-- The revision settles: what one call writes is what the next reconciliation reads, and it does not
-- lead to another revision.
use humio_operator.Common.{
  String, ◌≡◌, ◌≢◌, refl, All, sym, ap, Option, some, List, arith, if◌then◌else◌, ◌==◌, eq_iff,
}
use mathlib.Core.Path.{subst}
use humio_operator.Common.Int.{ℤ, pos}
use humio_operator.Common.Map.{lookup}
use humio_operator.K8s.{Pod, PodSpec}
use humio_operator.Cluster.Types.{
  HumioNodePool, ClusterStatus, state_running, state_restarting, state_upgrading,
}
use humio_operator.Cluster.NodePool.{Getenv, pool_state, get_node_pool_name}
use humio_operator.Cluster.Sanitize.{sanitize_pod}
use humio_operator.Cluster.Status.{StateOption, apply_all}
use humio_operator.Cluster.Status.Options.{pool_state-apply}
use humio_operator.Cluster.Lifecycle.{PodLifecycleState}
use humio_operator.Cluster.PodCompare.{bootstrap_token_hash_annotation}
use humio_operator.Cluster.PodsStatus.{PodsStatus}
use humio_operator.Cluster.Deletion.{Done, handle_differences, own_options, pool_options}
use humio_operator.Cluster.Deletion.Outcomes.{handle_differences-IsExplained}
use humio_operator.Cluster.Deletion.Outcomes.Explained.{
  IsExplained, no_state, upgrades, restarts, finishes, revises, pins, clears, written_states,
}

-- The option that withNodePoolState adds for a pool.
abbrev pub pool_option : HumioNodePool → String → ℤ → String → String → String → StateOption
pool_option pool state revision hash token_hash zone = record {
  state = state;
  node_pool_name = get_node_pool_name pool;
  zone_under_maintenance = zone;
  desired_pod_revision = revision;
  desired_pod_hash = hash;
  desired_bootstrap_token_hash = token_hash;
  requeue_period = pos 0;
}

-- The state, the revision, the hashes and the zone that a call writes for a pool are those that the
-- node pool managers of the next reconciliation read for the pool, if its name is not empty, and for
-- every other name they read what was there.
pub pool_state-pool_options :
    (pool : HumioNodePool) (state : String) (revision : ℤ) (hash token_hash zone j : String)
    (c : ClusterStatus)
    → get_node_pool_name pool ≢ ""
    → pool_state j
        (apply_all (pool_options pool state revision hash token_hash zone) c).node_pool_status
      ≡ (if get_node_pool_name pool == j
          then record {
            state = state;
            zone_under_maintenance = zone;
            desired_pod_revision = revision;
            desired_pod_hash = hash;
            desired_bootstrap_token_hash = token_hash;
          }
          else pool_state j c.node_pool_status)
unfolding pool_options apply_all
pool_state-pool_options pool state revision hash token_hash zone j c h =
    pool_state-apply (pool_option pool state revision hash token_hash zone) j c h

-- The option keeps the pool's revision and hashes.
abbrev pub KeepsRevision : HumioNodePool → StateOption → Type 0
KeepsRevision pool o =
    (o.desired_pod_revision ≡ pool.desired_pod_revision)
    × (o.desired_pod_hash ≡ pool.desired_pod_hash)
    × (o.desired_bootstrap_token_hash ≡ pool.desired_bootstrap_token_hash)

own_options-KeepsRevision :
    (pool : HumioNodePool) (state zone : String)
    → All (KeepsRevision pool) (written_states (some (own_options pool state zone)))
unfolding own_options
own_options-KeepsRevision pool state zone = ((refl, refl, refl), tt)

module _ (getenv : Getenv) (zone : String → String) (delete : Pod → Option String)
    (hash_of : Pod → PodSpec → Option String) (state : String) (pool : HumioNodePool)
    (pods : List Pod) (s : PodsStatus) (d : PodLifecycleState) (desired : Pod) where
  abbrev KeepsIn : Done → Type 0
  KeepsIn done = All (KeepsRevision pool) (written_states done.written)

  own_written :
      (done : Done) (new_state new_zone : String)
      → done.written ≡ some (own_options pool new_state new_zone)
      → KeepsIn done
  own_written done new_state new_zone q =
      subst (λ w. All (KeepsRevision pool) (written_states w)) (sym q)
        (own_options-KeepsRevision pool new_state new_zone)

  explained_settles :
      (done : Done)
      → lookup bootstrap_token_hash_annotation desired.annotations
        ≡ some pool.desired_bootstrap_token_hash
      → hash_of (sanitize_pod getenv pool desired) pool.managed_fields_tracker
        ≡ some pool.desired_pod_hash
      → IsExplained getenv zone delete hash_of state pool pods s d desired done
      → KeepsIn done
  explained_settles done t e (no_state h) = subst (All (KeepsRevision pool)) (sym h) tt
  explained_settles done t e (upgrades a b q) =
      own_written done state_upgrading "" (ap (λ (x : Done). x.written) q)
  explained_settles done t e (restarts a b c q) =
      own_written done state_restarting "" (ap (λ (x : Done). x.written) q)
  explained_settles done t e (finishes a b c f g h q) =
      own_written done state_running "" (ap (λ (x : Done). x.written) q)
  explained_settles done t e (revises token_hash hash a b m c q) = absurd (
      ground (
        arith,
        t,
        e,
        a,
        b,
        c,
        eq_iff hash pool.desired_pod_hash,
        eq_iff token_hash pool.desired_bootstrap_token_hash,
      ))
  explained_settles done t e (pins z a b c f g h q) =
      own_written done pool.state z (ap (λ (x : Done). x.written) q)
  explained_settles done t e (clears a b c f g q) =
      own_written done pool.state "" (ap (λ (x : Done). x.written) q)

  -- Once the status holds the hashes of the desired pod, no call raises the revision again: every state
  -- of a pool among the options that it writes keeps the pool's revision and both hashes.
  pub revision_settles :
      lookup bootstrap_token_hash_annotation desired.annotations
        ≡ some pool.desired_bootstrap_token_hash
      → hash_of (sanitize_pod getenv pool desired) pool.managed_fields_tracker
        ≡ some pool.desired_pod_hash
      → All (KeepsRevision pool) (
          written_states
            (handle_differences getenv zone delete hash_of state pool pods s d desired).written)
  revision_settles t e =
      explained_settles (handle_differences getenv zone delete hash_of state pool pods s d desired)
        t e (handle_differences-IsExplained getenv zone delete hash_of state pool pods s d desired)
