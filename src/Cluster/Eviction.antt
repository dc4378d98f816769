-- ===== src/Cluster/Eviction.antt =====
-- Downscaling by eviction, internal/controller/humiocluster_controller.go: whether a node is registered,
-- alive and may be removed, its unregistering, and the choice of the zone to remove a pod from
-- (internal/controller/utils.go). The answers of the LogScale API and of the API server are parameters.
pub mod Nodes
pub mod Choice
use humio_operator.Common.{
  ℕ, zero, suc, String, Bool, true, false, not, Option, none, some, List, [], ◌∷◌, ◌==◌, ◌&&◌, eqb,
  ltb, if◌then◌else◌,
}
use humio_operator.Common.Int.{ℤ, eqb_ℤ}
use humio_operator.Common.Map.{Map, lookup, insert, get_text}
use humio_operator.K8s.{Pod}

-- The reasons against unregistering a node.
pub record Reasons : Type 0 where
  pub leads_digest : Bool
  pub has_under_replicated_data : Bool
  pub has_data_that_exists_only_here : Bool

-- An entry of the answer to GetEvictionStatus
pub record NodeStatus : Type 0 where
  pub id : ℤ
  pub is_alive : Bool
  -- a pointer
  pub is_being_evicted : Option Bool
  pub reasons : Reasons

-- waitForPodTimeoutSeconds
abbrev pub wait_for_pod_timeout_seconds : ℕ
wait_for_pod_timeout_seconds = 10

-- isNodeRegistered
unfoldable pub is_node_registered : List NodeStatus → ℤ → Bool
is_node_registered [] vhost = false
is_node_registered (n ∷ ns) vhost = if eqb_ℤ n.id vhost then true else is_node_registered ns vhost

-- The inner loop of isEvictedNodeAlive: whether it returns, with false.
finds_dead : List NodeStatus → ℤ → Bool
finds_dead [] vhost = false
finds_dead (n ∷ ns) vhost =
    let rest = finds_dead ns vhost in
    if eqb_ℤ n.id vhost then (if not n.is_alive then true else rest) else rest

-- The outer loop, of so many rounds over the same answer.
alive_rounds : ℕ → List NodeStatus → ℤ → Bool
unfolding finds_dead
alive_rounds zero nodes vhost = true
alive_rounds (suc n) nodes vhost =
    let rest = alive_rounds n nodes vhost in if finds_dead nodes vhost then false else rest

-- isEvictedNodeAlive
unfoldable pub is_evicted_node_alive : List NodeStatus → ℤ → Bool
unfolding alive_rounds
is_evicted_node_alive nodes vhost = alive_rounds wait_for_pod_timeout_seconds nodes vhost

-- RemoveIntFromSlice
unfoldable pub remove_int_from_slice : List ℤ → ℤ → List ℤ
remove_int_from_slice [] value = []
remove_int_from_slice (v ∷ vs) value =
    let rest = remove_int_from_slice vs value in if not (eqb_ℤ v value) then v ∷ rest else rest

-- What a call of unregisterNode does: its Boolean (`none` is an error), the list
-- `hc.Status.EvictedNodeIds` in memory, and whether it asked LogScale to unregister the node.
pub record Unregistered : Type 0 where
  pub answer : Option Bool
  pub evicted : List ℤ
  pub asked : Bool

-- The removal of the node from the list, and the write of the status.
forget_node : Bool → Bool → List ℤ → ℤ → Unregistered
forget_node update_fails asked evicted vhost = record {
  answer = if update_fails then none else some true;
  evicted = remove_int_from_slice evicted vhost;
  asked = asked;
}

-- The loop over the nodes that the answer to the request names.
still_there : List ℤ → ℤ → Bool
still_there [] vhost = false
still_there (i ∷ is) vhost = if eqb_ℤ i vhost then true else still_there is vhost

-- The end of unregisterNode, with the answer of LogScale to the request.
after_request : Option (List ℤ) → Bool → List ℤ → ℤ → Unregistered
unfolding forget_node still_there
after_request none update_fails evicted vhost = record {
  answer = none;
  evicted = evicted;
  asked = true;
}
after_request (some ids) update_fails evicted vhost =
    if still_there ids vhost
    then record { answer = some false; evicted = evicted; asked = true }
    else forget_node update_fails true evicted vhost

-- unregisterNode. `nodes` is the answer to GetEvictionStatus, `response` that to the request, and
-- `update_fails` says whether the write of the status fails.
unfoldable pub unregister_node :
    Option (List NodeStatus) → Option (List ℤ) → Bool → List ℤ → ℤ → Unregistered
unfolding after_request forget_node
unregister_node none response update_fails evicted vhost = record {
  answer = none;
  evicted = evicted;
  asked = false;
}
unregister_node (some nodes) response update_fails evicted vhost =
    if not (is_node_registered nodes vhost)
    then forget_node update_fails false evicted vhost
    else if not (is_evicted_node_alive nodes vhost)
    then after_request response update_fails evicted vhost
    else record { answer = some true; evicted = evicted; asked = false }

-- The three tests that checkEvictionStatusForPod and its refresh make.
abbrev pub is_safe : Reasons → Bool
is_safe r =
    not r.has_data_that_exists_only_here && not r.has_under_replicated_data && not r.leads_digest

-- checkEvictionStatusForPodUsingClusterRefresh, whose error the caller ignores: `none` is an error.
abbrev pub refreshed_safe : Option Reasons → Bool
refreshed_safe none = false
refreshed_safe (some r) = is_safe r

-- The inner loop of checkEvictionStatusForPod. `refresh i` is the answer to the refresh for the node
-- at the place `i` of the answer.
safe_in_round : (ℕ → Option Reasons) → ℕ → List NodeStatus → ℤ → Bool
safe_in_round refresh i [] vhost = false
safe_in_round refresh i (n ∷ ns) vhost =
    let rest = safe_in_round refresh (suc i) ns vhost in
    if eqb_ℤ n.id vhost && is_safe n.reasons && refreshed_safe (refresh i) then true else rest

-- What LogScale answers in one round: the nodes, and the refreshes of single nodes.
pub record Round : Type 0 where
  pub nodes : Option (List NodeStatus)
  pub refresh : ℕ → Option Reasons

-- The outer loop of checkEvictionStatusForPod, of so many rounds from the round `i` on, over the
-- answers of the rounds.
safe_rounds : ℕ → ℕ → (ℕ → Round) → ℤ → Option Bool
unfolding safe_in_round
safe_rounds zero i rounds vhost = some false
safe_rounds (suc n) i rounds vhost =
    let rest = safe_rounds n (suc i) rounds vhost in
    elim (rounds i).nodes [
      | none ↦ none
      | some nodes ↦ if safe_in_round (rounds i).refresh 0 nodes vhost then some true else rest
    ]

-- checkEvictionStatusForPod, over the answers of its rounds; `none` is an error.
unfoldable pub check_eviction_status_for_pod : (ℕ → Round) → ℤ → Option Bool
unfolding safe_rounds
check_eviction_status_for_pod rounds vhost = safe_rounds wait_for_pod_timeout_seconds 0 rounds vhost

-- The loop of GetKeyWithHighestValue over the entries of a map, in the order in which Go yields them.
highest_loop : String → ℕ → List (String × ℕ) → String
highest_loop key value [] = key
highest_loop key value ((k, v) ∷ rest) =
    if ltb value v then highest_loop k v rest else highest_loop key value rest

-- GetKeyWithHighestValue; `none` is the error of an empty map.
unfoldable pub get_key_with_highest_value : List (String × ℕ) → Option String
unfolding highest_loop
get_key_with_highest_value [] = none
get_key_with_highest_value ((k, v) ∷ rest) = some (highest_loop k v rest)

-- getZoneFromPodNode; `none` is an error.
unfoldable pub zone_from_pod_node : (String → Option (Map String)) → Pod → Option String
zone_from_pod_node nodes pod =
    if pod.spec.node_name == "" then none else elim (nodes pod.spec.node_name) [
      | none ↦ none
      | some labels ↦ some (get_text "topology.kubernetes.io/zone" labels)
    ]

-- The count of one more pod in a zone.
count_zone : String → Map ℕ → Map ℕ
count_zone zone counts =
    insert zone (elim (lookup zone counts) [ none ↦ 1 | some n ↦ suc n ]) counts

-- The loop of getZoneForPodRemoval, to the counts; `none` is an error, and `some none` the early
-- return of the zone "" without an error.
zone_counts : (String → Option (Map String)) → List Pod → Map ℕ → Option (Option (Map ℕ))
unfolding count_zone
zone_counts nodes [] counts = some (some counts)
zone_counts nodes (p ∷ ps) counts = elim (zone_from_pod_node nodes p) [
  | none ↦ none
  | some zone ↦ if zone == "" then some none else zone_counts nodes ps (count_zone zone counts)
]

-- getZoneForPodRemoval
zone_of_counts : Option (Option (Map ℕ)) → Option String
zone_of_counts none = none
zone_of_counts (some none) = some ""
zone_of_counts (some (some counts)) = get_key_with_highest_value counts

unfoldable pub zone_for_pod_removal : (String → Option (Map String)) → List Pod → Option String
unfolding zone_counts zone_of_counts
zone_for_pod_removal nodes pods = zone_of_counts (zone_counts nodes pods [])
