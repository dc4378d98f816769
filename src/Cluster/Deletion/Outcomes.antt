-- ===== src/Cluster/Deletion/Outcomes.antt =====
-- What one call writes to the cluster's status.
pub mod Explained
use humio_operator.Common.{
  ℕ, zero, suc, String, ◌≡◌, refl, sym, ◌⊎◌, inl, inr, Bool, true, false, Option, none, some, List,
  [], ◌∷◌, arith, ◌&&◌, ◌||◌, ◌==◌, ap, ◌++◌, any, eq_iff, Bool-cases, Option-cases,
}
use mathlib.Core.Path.{subst}
use humio_operator.Common.Int.{pos, pos_part, inc64, eqb_ℤ, eqb_ℤ_iff}
use humio_operator.Common.Map.{lookup}
use humio_operator.K8s.{Pod, PodSpec}
use humio_operator.Cluster.Types.{
  HumioNodePool, state_running, state_config_error, state_upgrading, state_restarting,
}
use humio_operator.Cluster.NodePool.{Getenv, use_envtest}
use humio_operator.Cluster.Sanitize.{sanitize_pod}
use humio_operator.Cluster.Status.{
  Options, StateOption, state_option, message_option, state_option_list, version_option,
  pods_option, license_option, node_count_option, observed_generation_option,
}
use humio_operator.Cluster.Zones.{
  filter_pods_by_zone_name, filter_pods_exclude_revision_and_hash,
  filter_pods_exclude_empty_node_name,
}
use humio_operator.Cluster.Lifecycle.{
  PodLifecycleState, should_rolling_restart, found_version_difference,
  found_configuration_difference, zone_awareness,
}
use humio_operator.Cluster.PodCompare.{bootstrap_token_hash_annotation}
use humio_operator.Cluster.PodsStatus.{
  PodsStatus, deletion_budget, revisions_in_sync, waiting_on_pods,
}
use humio_operator.Cluster.Deletion.{
  Done, requeues, updates, first_zone, delete_round, delete_up_to, after_deletions,
  after_delete_loop, requeue_or_proceed, delete_pods, wait_or_delete, replace_pods, zone_or_replace,
  zone_update, evicted_or_zone, delete_first, revision_or_delete, hashed, handle_differences,
  own_options, pool_options, may_change_revision, is_done,
}
use humio_operator.Cluster.Deletion.Outcomes.Explained.{
  IsExplained, written_states, delete_up_to-written, to_replace, no_state, upgrades, restarts,
  finishes, revises, pins, clears, first_zone-any,
}

module _ (getenv : Getenv) (zone : String → String) (delete : Pod → Option String)
    (hash_of : Pod → PodSpec → Option String) (state : String) (pool : HumioNodePool)
    (pods : List Pod) (s : PodsStatus) (d : PodLifecycleState) (desired : Pod) where
  abbrev Silent : Done → Type 0
  Silent done = written_states done.written ≡ []

  requeue_or_proceed-Silent :
      (deleted : List Pod) (rolling : Option Bool)
      → Silent (
          requeue_or_proceed getenv zone delete hash_of state pool pods s d desired deleted rolling)
  unfolding requeue_or_proceed
  requeue_or_proceed-Silent deleted none = refl
  requeue_or_proceed-Silent deleted (some b) = refl

  after_deletions-Silent :
      (deleted : List Pod)
      → Silent (after_deletions getenv zone delete hash_of state pool pods s d desired deleted)
  unfolding after_deletions
  after_deletions-Silent deleted =
      ground (arith, requeue_or_proceed-Silent deleted (should_rolling_restart d))

  after_delete_loop-Silent :
      (loop : List Pod × Option Options)
      → written_states loop.1 ≡ []
      → Silent (after_delete_loop getenv zone delete hash_of state pool pods s d desired loop)
  unfolding after_delete_loop
  after_delete_loop-Silent (deleted, some o) h = h
  after_delete_loop-Silent (deleted, none) h = after_deletions-Silent deleted

  delete_pods-Silent : Silent (delete_pods getenv zone delete hash_of state pool pods s d desired)
  unfolding delete_pods
  delete_pods-Silent =
      after_delete_loop-Silent
        (delete_up_to delete (pos_part (deletion_budget s)) d.pods_to_be_replaced)
        (delete_up_to-written delete (pos_part (deletion_budget s)) d.pods_to_be_replaced)

  wait_or_delete-Silent :
      (rolling : Option Bool)
      → Silent (wait_or_delete getenv zone delete hash_of state pool pods s d desired rolling)
  unfolding wait_or_delete
  wait_or_delete-Silent none = refl
  wait_or_delete-Silent (some true) = refl
  wait_or_delete-Silent (some false) = delete_pods-Silent

  replace_pods-Silent : Silent (replace_pods getenv zone delete hash_of state pool pods s d desired)
  unfolding replace_pods
  replace_pods-Silent = ground (
    arith,
    delete_pods-Silent,
    wait_or_delete-Silent (should_rolling_restart d),
    after_deletions-Silent [],
  )

  -- The update of the zone, if there is one.
  zone_update-cases :
      (o : Options)
      → zone_update getenv zone delete hash_of state pool pods s d desired ≡ some o
      → ((z : String) × (zone_awareness pool ≡ true)
          × (use_envtest getenv ≡ false)
          × ((pool.zone_under_maintenance == "") ≡ true)
          × (first_zone zone (filter_pods_exclude_empty_node_name (to_replace pool pods)) ≡ some z)
          × (o ≡ own_options pool pool.state z))
        ⊎ ((zone_awareness pool ≡ true)
            × (use_envtest getenv ≡ false)
            × ((pool.zone_under_maintenance == "") ≡ false)
            × (to_replace pool (filter_pods_by_zone_name zone pods pool.zone_under_maintenance)
                ≡ [])
            × (o ≡ own_options pool pool.state ""))
  unfolding zone_update
  zone_update-cases o h = elim (Bool-cases (pool.zone_under_maintenance == "")) [
    | inl e ↦
        elim (Option-cases
          (first_zone zone (filter_pods_exclude_empty_node_name (to_replace pool pods)))) [
            | inl n ↦ absurd (ground (arith, h, e, n))
            | inr (z, n) ↦
                inl (
                  z,
                  ground (arith, h, e, n),
                  ground (arith, h, e, n),
                  e,
                  n,
                  ground (arith, h, e, n),
                )
          ]
    | inr e ↦
        inr (
          ground (arith, h, e),
          ground (arith, h, e),
          e,
          ground (arith, h, e),
          ground (arith, h, e),
        )
  ]

  zone_or_replace-IsExplained :
      (o : Option Options)
      → s.evicted_or_orphaned ≡ []
      → zone_update getenv zone delete hash_of state pool pods s d desired ≡ o
      → IsExplained getenv zone delete hash_of state pool pods s d desired
          (zone_or_replace getenv zone delete hash_of state pool pods s d desired o)
  unfolding zone_or_replace
  zone_or_replace-IsExplained none h e = no_state replace_pods-Silent
  zone_or_replace-IsExplained (some o) h e = elim (zone_update-cases o e) [
    | inl (z, a, t, u, f, q) ↦
        let (p, r) = first_zone-any zone _ z f in
        pins z h a t u p r
          (ap (λ (x : Options). record { deleted = []; written = some x; returned = updates }) q)
    | inr (a, t, u, f, q) ↦
        clears h a t u f
          (ap (λ (x : Options). record { deleted = []; written = some x; returned = updates }) q)
  ]

  delete_first-Silent :
      (p : Pod) (answer : Option String)
      → Silent (delete_first getenv zone delete hash_of state pool pods s d desired p answer)
  unfolding delete_first
  delete_first-Silent p (some err) = refl
  delete_first-Silent p none = refl

  evicted_or_zone-IsExplained :
      (found : List Pod)
      → s.evicted_or_orphaned ≡ found
      → IsExplained getenv zone delete hash_of state pool pods s d desired
          (evicted_or_zone getenv zone delete hash_of state pool pods s d desired found)
  unfolding evicted_or_zone
  evicted_or_zone-IsExplained [] h =
      zone_or_replace-IsExplained
        (zone_update getenv zone delete hash_of state pool pods s d desired) h refl
  evicted_or_zone-IsExplained (p ∷ ps) h = no_state (delete_first-Silent p (delete p))

  revision_or_delete-cases :
      (token_hash hash : String)
      → (revision_or_delete getenv zone delete hash_of state pool pods s d desired token_hash hash
          ≡ evicted_or_zone getenv zone delete hash_of state pool pods s d desired
              s.evicted_or_orphaned)
        ⊎ (((eqb_ℤ pool.desired_pod_revision (pos 0)
                || state == state_upgrading
                || state == state_restarting)
              ≡ true)
            × ((hash == pool.desired_pod_hash && token_hash == pool.desired_bootstrap_token_hash)
                ≡ false)
            × (revision_or_delete getenv zone delete hash_of state pool pods s d desired token_hash
                  hash
                ≡ record {
                  deleted = [];
                  written = some (
                      pool_options pool state (inc64 pool.desired_pod_revision) hash token_hash "");
                  returned = requeues;
                }))
  unfolding revision_or_delete may_change_revision
  revision_or_delete-cases token_hash hash = ground arith

  hashed-IsExplained :
      (token_hash hash : Option String)
      → lookup bootstrap_token_hash_annotation desired.annotations ≡ token_hash
      → hash_of (sanitize_pod getenv pool desired) pool.managed_fields_tracker ≡ hash
      → IsExplained getenv zone delete hash_of state pool pods s d desired
          (hashed getenv zone delete hash_of state pool pods s d desired token_hash hash)
  unfolding hashed
  hashed-IsExplained none hash e f = no_state refl
  hashed-IsExplained (some t) none e f = no_state refl
  hashed-IsExplained (some t) (some h) e f = elim (revision_or_delete-cases t h) [
    | inl q ↦
        subst (IsExplained getenv zone delete hash_of state pool pods s d desired) (sym q)
          (evicted_or_zone-IsExplained s.evicted_or_orphaned refl)
    | inr (m, c, q) ↦ revises t h e f m c q
  ]

  abbrev go_on : Done
  go_on =
      hashed getenv zone delete hash_of state pool pods s d desired
        (lookup bootstrap_token_hash_annotation desired.annotations)
        (hash_of (sanitize_pod getenv pool desired) pool.managed_fields_tracker)

  abbrev changed : String → Done
  changed new_state = record {
    deleted = [];
    written = some (own_options pool new_state "");
    returned = requeues;
  }

  abbrev stable : Bool
  stable = state == state_running || state == state_config_error

  handle_differences-cases :
      ((stable ≡ true)
        × (found_version_difference d ≡ true)
        × (handle_differences getenv zone delete hash_of state pool pods s d desired
            ≡ changed state_upgrading))
      ⊎ ((stable ≡ true)
          × (found_version_difference d ≡ false)
          × (found_configuration_difference d ≡ true)
          × (handle_differences getenv zone delete hash_of state pool pods s d desired
              ≡ changed state_restarting))
      ⊎ (((pool.state == state_running) ≡ false)
          × (revisions_in_sync s pool.desired_pod_revision ≡ true)
          × (eqb_ℤ s.not_ready_count (pos 0) ≡ true)
          × (waiting_on_pods s ≡ false)
          × (found_configuration_difference d ≡ false)
          × (found_version_difference d ≡ false)
          × (handle_differences getenv zone delete hash_of state pool pods s d desired
              ≡ changed state_running))
      ⊎ (handle_differences getenv zone delete hash_of state pool pods s d desired ≡ go_on)
  unfolding handle_differences is_done
  handle_differences-cases = ground arith

  -- Whatever the API server answers, every status update that one call writes is explained: it holds
  -- no state of a pool, or it is one of six writes of the pool's entry alone, with no pod deleted. While
  -- the cluster is `Running` or in `ConfigError`, it is the state `Upgrading`, with a version
  -- difference, or `Restarting`, with a configuration difference alone. Or it is `Running`, if the pool
  -- is not, its pods' revisions are in sync, no pod is not ready or waited for, and nothing differs.
  -- These three keep the revision and the hashes. Or it is the cluster's state with the next revision
  -- and the new hashes, only if one of them is new and the cluster is upgrading or restarting or no
  -- revision was set. Or, under zone awareness outside of the test environment, with no pod evicted or
  -- orphaned, it is a zone of a pod to be replaced, if none was set, or none, if no pod of the zone that
  -- was set is to be replaced.
  pub handle_differences-IsExplained :
      IsExplained getenv zone delete hash_of state pool pods s d desired
        (handle_differences getenv zone delete hash_of state pool pods s d desired)
  handle_differences-IsExplained = elim handle_differences-cases [
    | inl (a, b, q) ↦ upgrades a b q
    | inr (inl (a, b, c, q)) ↦ restarts a b c q
    | inr (inr (inl (a, b, c, e, f, g, q))) ↦
        finishes a b ((eqb_ℤ_iff s.not_ready_count (pos 0)).0 c) e f g q
    | inr (inr (inr q)) ↦
        subst (IsExplained getenv zone delete hash_of state pool pods s d desired) (sym q) (
          hashed-IsExplained (lookup bootstrap_token_hash_annotation desired.annotations)
            (hash_of (sanitize_pod getenv pool desired) pool.managed_fields_tracker) refl refl)
  ]
