-- ===== src/Cluster/Examples/Nodes.antt =====
-- The theorems on eviction at concrete answers of LogScale.
use humio_operator.Common.{ℕ, ◌≡◌, refl, ◌⊎◌, String, true, false, none, some, List, [], ◌∷◌}
use humio_operator.Common.Int.{pos}
use humio_operator.Cluster.Eviction.{
  Reasons, NodeStatus, Round, unregister_node, check_eviction_status_for_pod,
}
use humio_operator.Cluster.Eviction.Nodes.{
  unregister_node_exact, check_eviction_status_for_pod_sound, FreeInRound,
}

abbrev no_reason : Reasons
no_reason = record {
  leads_digest = false;
  has_under_replicated_data = false;
  has_data_that_exists_only_here = false;
}

abbrev dead : NodeStatus
dead = record { id = pos 3; is_alive = false; is_being_evicted = some true; reasons = no_reason }

abbrev alive : NodeStatus
alive = record { id = pos 4; is_alive = true; is_being_evicted = none; reasons = no_reason }

abbrev answered : Round
answered = record { nodes = some (dead ∷ alive ∷ []); refresh = λ i. some no_reason }

unregister_node_exact_example :
    let u =
      unregister_node
        (some (dead ∷ alive ∷ []))
        (some (pos 4 ∷ []))
        false
        (pos 3 ∷ pos 5 ∷ [])
        (pos 3) in
    (u.asked ≡ true) × ((u.evicted ≡ pos 3 ∷ pos 5 ∷ []) ⊎ (u.evicted ≡ pos 5 ∷ []))
unregister_node_exact_example =
    unregister_node_exact (dead ∷ alive ∷ []) (some (pos 4 ∷ [])) false (pos 3 ∷ pos 5 ∷ []) (pos 3)

check_eviction_status_for_pod_sound_example : FreeInRound (pos 4) (λ i. answered) 0 10
unfolding check_eviction_status_for_pod
check_eviction_status_for_pod_sound_example =
    check_eviction_status_for_pod_sound (λ i. answered) (pos 4) refl

abbrev two_zones : List (String × ℕ)
two_zones = ("zone-a", 1) ∷ ("zone-b", 2) ∷ []
