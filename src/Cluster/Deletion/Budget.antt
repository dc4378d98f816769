-- ===== src/Cluster/Deletion/Budget.antt =====
-- How many pods one call deletes.
use humio_operator.Common.{
  ℕ, zero, suc, ◌≤◌, String, ◌≡◌, refl, ◌⊎◌, inl, inr, Bool, true, false, not, Option, none, some,
  List, [], ◌∷◌, arith, take, ◌∙◌, ◌&&◌, ◌||◌, ◌==◌, eq_iff,
}
use humio_operator.Common.Int.{pos_part}
use humio_operator.Common.Map.{lookup}
use humio_operator.K8s.{Pod, PodSpec}
use humio_operator.Cluster.Types.{
  HumioNodePool, strategy_on_delete, state_running, state_upgrading, state_restarting,
}
use humio_operator.Cluster.NodePool.{Getenv, get_update_strategy}
use humio_operator.Cluster.Sanitize.{sanitize_pod}
use humio_operator.Cluster.Status.{Options}
use humio_operator.Cluster.Lifecycle.{
  PodLifecycleState, should_rolling_restart, difference_detected_and_manual_deletions_not_enabled,
}
use humio_operator.Cluster.PodCompare.{bootstrap_token_hash_annotation}
use humio_operator.Cluster.PodsStatus.{PodsStatus, deletion_budget, waiting_on_pods}
use humio_operator.Cluster.Deletion.{
  Done, delete_round, delete_up_to, after_deletions, after_delete_loop, requeue_or_proceed,
  delete_pods, wait_or_delete, replace_pods, zone_or_replace, zone_update, evicted_or_zone,
  delete_first, revision_or_delete, hashed, handle_differences, change_state,
}

-- The first pods of a list, `n` of them at most.
abbrev pub IsStart : ℕ → List Pod → List Pod → Type 0
IsStart n start pods = (m : ℕ) × (m ≤ n) × (start ≡ take m pods)

IsStart-of_eq : (n : ℕ) (xs ys pods : List Pod) → xs ≡ ys → IsStart n ys pods → IsStart n xs pods
IsStart-of_eq n xs ys pods h (m, l, e) = (m, l, h ∙ e)

IsStart-∷ :
    (n : ℕ) (p : Pod) (start pods : List Pod)
    → IsStart n start pods
    → IsStart (suc n) (p ∷ start) (p ∷ pods)
IsStart-∷ n p start pods (m, l, e) = (suc m, omega (arith, l), ground (arith, e))

delete_round-IsStart :
    (n : ℕ) (p : Pod) (answer : Option String) (rest : List Pod × Option Options) (ps : List Pod)
    → IsStart n rest.0 ps
    → IsStart (suc n) (delete_round p answer rest).0 (p ∷ ps)
unfolding delete_round
delete_round-IsStart n p (some err) rest ps h = (0, omega arith, refl)
delete_round-IsStart n p none (deleted, written) ps h = IsStart-∷ n p deleted ps h

delete_up_to-IsStart :
    (delete : Pod → Option String) (n : ℕ) (pods : List Pod)
    → IsStart n (delete_up_to delete n pods).0 pods
unfolding delete_up_to
delete_up_to-IsStart delete zero pods = (0, omega arith, refl)
delete_up_to-IsStart delete (suc n) [] = (0, omega arith, refl)
delete_up_to-IsStart delete (suc n) (p ∷ ps) =
    delete_round-IsStart n p (delete p) (delete_up_to delete n ps) ps
      (delete_up_to-IsStart delete n ps)

-- Whether pods that differ may be deleted: the strategy lets the operator delete them, and while the
-- cluster replaces pods one after another, no pod is waited for.
pub may_replace : String → PodsStatus → PodLifecycleState → Bool
may_replace state s d =
    difference_detected_and_manual_deletions_not_enabled d
    && not (
        (state == state_restarting || state == state_upgrading)
        && waiting_on_pods s
        && elim (should_rolling_restart d) [ none ↦ true | some rolling ↦ rolling ])

-- What a call deletes: nothing; or the first of the pods that are evicted or attached to an orphaned
-- claim; or, if there is none of these and pods may be replaced, the first pods to be replaced,
-- within the budget.
pub data IsBudgeted (state : String) (s : PodsStatus) (d : PodLifecycleState) (done : Done)
    : Type 0 where
  nothing : done.deleted ≡ [] → IsBudgeted state s d done
  one_evicted : done.deleted ≡ take 1 s.evicted_or_orphaned → IsBudgeted state s d done
  replaced :
      s.evicted_or_orphaned ≡ []
      → may_replace state s d ≡ true
      → IsStart (pos_part (deletion_budget s)) done.deleted d.pods_to_be_replaced
      → IsBudgeted state s d done

module _ (getenv : Getenv) (zone : String → String) (delete : Pod → Option String)
    (hash_of : Pod → PodSpec → Option String) (state : String) (pool : HumioNodePool)
    (pods : List Pod) (s : PodsStatus) (d : PodLifecycleState) (desired : Pod) where
  requeue_or_proceed-deleted :
      (deleted : List Pod) (rolling : Option Bool)
      → (requeue_or_proceed getenv zone delete hash_of state pool pods s d desired deleted
          rolling).deleted
        ≡ deleted
  unfolding requeue_or_proceed
  requeue_or_proceed-deleted deleted none = refl
  requeue_or_proceed-deleted deleted (some b) = refl

  after_deletions-deleted :
      (deleted : List Pod)
      → (after_deletions getenv zone delete hash_of state pool pods s d desired deleted).deleted
        ≡ deleted
  unfolding after_deletions
  after_deletions-deleted deleted =
      ground (arith, requeue_or_proceed-deleted deleted (should_rolling_restart d))

  after_delete_loop-deleted :
      (loop : List Pod × Option Options)
      → (after_delete_loop getenv zone delete hash_of state pool pods s d desired loop).deleted
        ≡ loop.0
  unfolding after_delete_loop
  after_delete_loop-deleted (deleted, some o) = refl
  after_delete_loop-deleted (deleted, none) = after_deletions-deleted deleted

  delete_pods-deleted :
      (delete_pods getenv zone delete hash_of state pool pods s d desired).deleted
      ≡ (delete_up_to delete (pos_part (deletion_budget s)) d.pods_to_be_replaced).0
  unfolding delete_pods
  delete_pods-deleted =
      after_delete_loop-deleted
        (delete_up_to delete (pos_part (deletion_budget s)) d.pods_to_be_replaced)

  abbrev replacing : List Pod
  replacing = (delete_up_to delete (pos_part (deletion_budget s)) d.pods_to_be_replaced).0

  wait_or_delete-deleted :
      (rolling : Option Bool)
      → ((wait_or_delete getenv zone delete hash_of state pool pods s d desired rolling).deleted
          ≡ [])
        ⊎ ((rolling ≡ some false)
            × ((wait_or_delete getenv zone delete hash_of state pool pods s d desired
                  rolling).deleted
                ≡ replacing))
  unfolding wait_or_delete
  wait_or_delete-deleted none = inl refl
  wait_or_delete-deleted (some true) = inl refl
  wait_or_delete-deleted (some false) = inr (refl, delete_pods-deleted)

  replace_pods-deleted :
      ((replace_pods getenv zone delete hash_of state pool pods s d desired).deleted ≡ [])
      ⊎ ((may_replace state s d ≡ true)
          × ((replace_pods getenv zone delete hash_of state pool pods s d desired).deleted
              ≡ replacing))
  unfolding replace_pods may_replace
  replace_pods-deleted = ground (
    arith,
    delete_pods-deleted,
    wait_or_delete-deleted (should_rolling_restart d),
    after_deletions-deleted [],
  )

  zone_or_replace-deleted :
      (o : Option Options)
      → ((zone_or_replace getenv zone delete hash_of state pool pods s d desired o).deleted ≡ [])
        ⊎ ((may_replace state s d ≡ true)
            × ((zone_or_replace getenv zone delete hash_of state pool pods s d desired o).deleted
                ≡ replacing))
  unfolding zone_or_replace
  zone_or_replace-deleted none = replace_pods-deleted
  zone_or_replace-deleted (some o) = inl refl

  delete_first-deleted :
      (p : Pod) (answer : Option String)
      → ((delete_first getenv zone delete hash_of state pool pods s d desired p answer).deleted
          ≡ [])
        ⊎ ((delete_first getenv zone delete hash_of state pool pods s d desired p answer).deleted
            ≡ p ∷ [])
  unfolding delete_first
  delete_first-deleted p (some err) = inl refl
  delete_first-deleted p none = inr refl

  abbrev Deletes : Done → Type 0
  Deletes done =
      (done.deleted ≡ [])
      ⊎ (done.deleted ≡ take 1 s.evicted_or_orphaned)
      ⊎ ((s.evicted_or_orphaned ≡ []) × (may_replace state s d ≡ true) × (done.deleted ≡ replacing))

  evicted_or_zone-Deletes :
      (found : List Pod)
      → s.evicted_or_orphaned ≡ found
      → Deletes (evicted_or_zone getenv zone delete hash_of state pool pods s d desired found)
  unfolding evicted_or_zone
  evicted_or_zone-Deletes [] h = ground (
    arith,
    zone_or_replace-deleted (zone_update getenv zone delete hash_of state pool pods s d desired),
  )
  evicted_or_zone-Deletes (p ∷ ps) h = ground (arith, delete_first-deleted p (delete p))

  revision_or_delete-Deletes :
      (token_hash hash : String)
      → Deletes (
          revision_or_delete getenv zone delete hash_of state pool pods s d desired token_hash hash)
  unfolding revision_or_delete
  revision_or_delete-Deletes token_hash hash =
      ground (arith, evicted_or_zone-Deletes s.evicted_or_orphaned refl)

  hashed-Deletes :
      (token_hash hash : Option String)
      → Deletes (hashed getenv zone delete hash_of state pool pods s d desired token_hash hash)
  unfolding hashed
  hashed-Deletes none hash = inl refl
  hashed-Deletes (some t) none = inl refl
  hashed-Deletes (some t) (some h) = revision_or_delete-Deletes t h

  change_state-deleted :
      (new_state : String)
      → (change_state getenv zone delete hash_of state pool pods s d desired new_state).deleted ≡ []
  unfolding change_state
  change_state-deleted new_state = refl

  handle_differences-Deletes :
      Deletes (handle_differences getenv zone delete hash_of state pool pods s d desired)
  unfolding handle_differences
  handle_differences-Deletes = ground (
    arith,
    change_state-deleted state_upgrading,
    change_state-deleted state_restarting,
    change_state-deleted state_running,
    hashed-Deletes (lookup bootstrap_token_hash_annotation desired.annotations)
        (hash_of (sanitize_pod getenv pool desired) pool.managed_fields_tracker),
  )

  -- Whatever the API server answers, one call deletes nothing; or the first of the pods that are
  -- evicted or attached to an orphaned claim and no other; or, if there is none of these, the first
  -- pods to be replaced, and no more of them than the deletion budget. It deletes pods to be replaced
  -- only under a strategy that lets the operator delete them, and, while the cluster restarts or
  -- upgrades pods one after another, only if no pod is waited for.
  pub handle_differences-IsBudgeted :
      IsBudgeted state s d
        (handle_differences getenv zone delete hash_of state pool pods s d desired)
  handle_differences-IsBudgeted = elim handle_differences-Deletes [
    | inl h ↦ nothing h
    | inr (inl h) ↦ one_evicted h
    | inr (inr (h, m, e)) ↦ replaced h m (
        IsStart-of_eq (pos_part (deletion_budget s))
          (handle_differences getenv zone delete hash_of state pool pods s d desired).deleted
          replacing d.pods_to_be_replaced e
          (delete_up_to-IsStart delete (pos_part (deletion_budget s)) d.pods_to_be_replaced))
  ]

  may_replace-OnDelete :
      (get_update_strategy d.node_pool).type ≡ strategy_on_delete → may_replace state s d ≡ false
  unfolding may_replace difference_detected_and_manual_deletions_not_enabled
  may_replace-OnDelete h =
      ground (arith, eq_iff (get_update_strategy d.node_pool).type strategy_on_delete)

  -- Under the strategy `OnDelete`, a call that finds no evicted and no orphaned pod deletes nothing,
  -- whatever differs.
  on_delete_deletes_nothing :
      (get_update_strategy d.node_pool).type ≡ strategy_on_delete
      → s.evicted_or_orphaned ≡ []
      → (handle_differences getenv zone delete hash_of state pool pods s d desired).deleted ≡ []
  on_delete_deletes_nothing h e = elim handle_differences-Deletes [
    | inl q ↦ q
    | inr (inl q) ↦ ground (arith, q, e)
    | inr (inr (_, m, q)) ↦ absurd (ground (arith, m, may_replace-OnDelete h))
  ]
