-- ===== src/Cluster/Downscaling.antt =====
-- processDownscaling of internal/controller/humiocluster_controller.go: the eviction of the data of one
-- node after another, and the removal of their pods.
pub mod Keeping
pub mod Marking
pub mod Removal
pub mod Composition
pub mod Safety
pub mod Pace
pub mod Hosts
use humio_operator.Common.{
  ℕ, String, Bool, true, false, not, Option, none, some, List, [], ◌∷◌, ◌==◌, ◌&&◌, length, keep,
  if◌then◌else◌,
}
use humio_operator.Common.Int.{ℤ, pos, ltb_ℤ}
use humio_operator.Common.Map.{lookup}
use humio_operator.K8s.{Pod}
use humio_operator.Cluster.Eviction.{NodeStatus}
use humio_operator.Cluster.Downscaling.Marking.{
  Host, Progress, Step, NodeLabels, MarkAnswers, pod_marked_for_data_eviction,
  handle_unmarked_evictions, mark_pod_for_eviction,
}
use humio_operator.Cluster.Downscaling.Removal.{
  UnregisterAnswers, RemoveAnswers, lingering_loop, removal_loop,
}

-- What one call is answered: NewCluster, the pods of the node pool, the calls of
-- handleUnmarkedEvictions, those for the lingering nodes, the pods marked for eviction, and the calls
-- of markPodForEviction and for the pods that are marked.
pub record Answers : Type 0 where
  pub cluster_ok : Bool
  pub pods : Option (List Pod)
  pub hosts : Option (List Host)
  pub statuses : Option (List NodeStatus)
  pub update_fails : String → Bool
  pub lingering : ℤ → UnregisterAnswers
  pub marked_pods : Option (List Pod)
  pub marking : MarkAnswers
  pub removal : Pod → RemoveAnswers

-- How a call returns: with an empty result, with a result that asks for a requeue after 60 seconds, or
-- with an error.
pub data Return : Type 0 where
  proceeds requeues fails : Return

-- The test of getPodsNotMarkedForEviction
unfoldable pub is_unmarked : Pod → Bool
is_unmarked pod = elim (lookup pod_marked_for_data_eviction pod.labels) [
  | none ↦ true
  | some value ↦ not (value == "true")
]

-- getPodsNotMarkedForEviction
unfoldable pub get_pods_not_marked_for_eviction : Option (List Pod) → Option (List Pod)
unfolding is_unmarked
get_pods_not_marked_for_eviction none = none
get_pods_not_marked_for_eviction (some pods) = some (keep is_unmarked pods)

-- A step, and what follows if it is no error.
unfoldable pub and_then {ℓ} :
    {A : Type ℓ} → Step A → (A → Progress → Progress × Return) → Progress × Return
and_then (p, none) next = (p, fails)
and_then (p, some x) next = next x p

after_removal : Step Bool → Progress × Return
after_removal (p, none) = (p, fails)
after_removal (p, some unregistered) = (p, if unregistered then proceeds else requeues)

-- The part for the pods that are marked, if there are any.
unfoldable pub remove_marked : Answers → List Pod → Progress → Progress × Return
unfolding after_removal
remove_marked a [] p = (p, proceeds)
remove_marked a (pod ∷ pods) p = after_removal (removal_loop a.removal (pod ∷ pods) false p)

module _ (hostname : String → Option String) (labels : NodeLabels) (node_count : ℤ) where
  -- The part that marks a pod, if there are more pods than nodes and none is marked.
  unfoldable pub mark_one : Answers → List Pod → List Pod → Progress → Step (Unit {0})
  mark_one a unmarked marked p =
      if ltb_ℤ node_count (pos (length unmarked)) && elim marked [ [] ↦ true | _ ∷ _ ↦ false ]
      then mark_pod_for_eviction hostname a.marking labels unmarked p
      else (p, some tt)

  -- The call from the listing of the marked pods.
  unfoldable pub downscale_marked : Answers → List Pod → Progress → Progress × Return
  unfolding mark_one remove_marked
  downscale_marked a unmarked p =
      and_then (p, a.marked_pods)
        (λ marked q. and_then (mark_one a unmarked marked q) (λ _. remove_marked a marked))

  -- The call from the loop over the lingering nodes.
  unfoldable pub downscale_lingering : Answers → List Pod → Progress → Progress × Return
  unfolding downscale_marked
  downscale_lingering a unmarked p =
      and_then (lingering_loop a.lingering p.evicted p) (λ _. downscale_marked a unmarked)

  -- processDownscaling, from the list of evicted nodes in the status.
  unfoldable pub process_downscaling : Answers → List ℤ → Progress × Return
  unfolding downscale_lingering get_pods_not_marked_for_eviction
  process_downscaling a evicted =
      let start : Progress = record { evicted = evicted; actions = [] } in
      if not a.cluster_ok
      then (start, fails)
      else and_then (start, get_pods_not_marked_for_eviction a.pods)
          (λ unmarked p.
            and_then
              (handle_unmarked_evictions hostname a.update_fails a.hosts a.statuses unmarked p)
              (λ _. downscale_lingering a unmarked))
