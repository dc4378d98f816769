-- ===== src/Cluster/Downscaling/Removal.antt =====
-- The removal of evicted nodes and their pods, internal/controller/humiocluster_controller.go.
use humio_operator.Common.{ℕ, Bool, Option, none, some, List, [], ◌∷◌, ◌++◌, any, if◌then◌else◌}
use humio_operator.Common.Int.{ℤ, eqb_ℤ}
use humio_operator.Common.Map.{get_text}
use humio_operator.Common.Format.{atoi}
use humio_operator.K8s.{Pod}
use humio_operator.Cluster.Eviction.{
  NodeStatus, Round, unregister_node, check_eviction_status_for_pod,
}
use humio_operator.Cluster.Downscaling.Marking.{
  Progress, Step, note, unregister, record_node, delete_pod, log_scale_cluster_vhost,
}

-- The answers to the calls of unregisterNode: GetEvictionStatus, the request, and the write of the
-- status.
pub record UnregisterAnswers : Type 0 where
  pub nodes : Option (List NodeStatus)
  pub response : Option (List ℤ)
  pub update_fails : Bool

-- unregisterNode, as a step
unfoldable pub unregister_step : UnregisterAnswers → ℤ → Progress → Step Bool
unregister_step a vhost p =
    let u = unregister_node a.nodes a.response a.update_fails p.evicted vhost in
    let q = record p { evicted = u.evicted } in
    (if u.asked then note (unregister vhost) q else q, u.answer)

-- The loop over the lingering nodes
unfoldable pub lingering_loop : (ℤ → UnregisterAnswers) → List ℤ → Progress → Step (Unit {0})
lingering_loop answers [] p = (p, some tt)
lingering_loop answers (vhost ∷ rest) p =
    let (q, answer) = unregister_step (answers vhost) vhost p in
    let later = lingering_loop answers rest q in elim answer [ none ↦ (q, none) | some b ↦ later ]

-- The answers for a pod that is marked for eviction: the rounds of checkEvictionStatusForPod,
-- whether the write of the status fails and the deletion of the pod, and those of unregisterNode.
pub record RemoveAnswers : Type 0 where
  pub rounds : ℕ → Round
  pub status_fails : Bool
  pub delete_fails : Bool
  pub unregistering : UnregisterAnswers

-- slices.Contains
abbrev pub contains : List ℤ → ℤ → Bool
contains vs v = any (λ w. eqb_ℤ w v) vs

-- The node is put on the list of evicted nodes, if it is not there, and the list is written.
unfoldable pub keep_track : Bool → ℤ → Progress → Step (Unit {0})
keep_track status_fails vhost p =
    if contains p.evicted vhost
    then (p, some tt)
    else let q = record p { evicted = p.evicted ++ vhost ∷ [] } in
      if status_fails then (q, none) else (note (record_node vhost) q, some tt)

-- The deletion of the pod, and the unregistering of its node.
unfoldable pub delete_and_unregister : RemoveAnswers → Pod → ℤ → Progress → Step Bool
delete_and_unregister a pod vhost p =
    if a.delete_fails
    then (p, none)
    else unregister_step a.unregistering vhost (note (delete_pod pod) p)

unfoldable pub after_tracking : RemoveAnswers → Pod → ℤ → Step (Unit {0}) → Step Bool
after_tracking a pod vhost (p, none) = (p, none)
after_tracking a pod vhost (p, some done) = delete_and_unregister a pod vhost p

-- What follows once the data of the node is gone.
unfoldable pub remove_evicted : RemoveAnswers → Pod → ℤ → Progress → Step Bool
unfolding after_tracking
remove_evicted a pod vhost p = after_tracking a pod vhost (keep_track a.status_fails vhost p)

-- One round of the loop over the pods that are marked; the Boolean is `successfullyUnregistered`.
unfoldable pub remove_pod : RemoveAnswers → Pod → ℤ → Bool → Progress → Step Bool
remove_pod a pod vhost before p = elim (check_eviction_status_for_pod a.rounds vhost) [
  | none ↦ (p, none)
  | some gone ↦ if gone then remove_evicted a pod vhost p else (p, some before)
]

-- The vhost in the annotation of a pod; `none` is the error of Atoi.
unfoldable pub annotated_vhost : Pod → Option ℤ
annotated_vhost pod = atoi (get_text log_scale_cluster_vhost pod.annotations)

-- The loop over the pods that are marked
unfoldable pub removal_loop : (Pod → RemoveAnswers) → List Pod → Bool → Progress → Step Bool
removal_loop answers [] before p = (p, some before)
removal_loop answers (pod ∷ pods) before p = elim (annotated_vhost pod) [
  | none ↦ (p, none)
  | some vhost ↦
      let (q, answer) = remove_pod (answers pod) pod vhost before p in
      elim answer [ none ↦ (q, none) | some now ↦ removal_loop answers pods now q ]
]
