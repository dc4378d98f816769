-- ===== src/Cluster/Downscaling/Marking.antt =====
-- The marking of pods for the eviction of their data, internal/controller/humiocluster_controller.go.
-- What the code does to LogScale and to the API server is a list of actions; the answers are parameters.
-- The labels and annotations of a pod are maps that are not nil.
use humio_operator.Common.{
  ℕ, zero, suc, String, Bool, true, false, not, Option, none, some, List, [], ◌∷◌, ◌++◌, ◌==◌, ◌&&◌,
  if◌then◌else◌, String,
}
use humio_operator.Common.Int.{ℤ, pos, eqb_ℤ}
use humio_operator.Common.Map.{Map, lookup, insert}
use humio_operator.K8s.{Pod}
use humio_operator.Cluster.Eviction.{
  NodeStatus, wait_for_pod_timeout_seconds, zone_from_pod_node, zone_for_pod_removal,
}

-- PodMarkedForDataEviction
abbrev pub pod_marked_for_data_eviction : String
pod_marked_for_data_eviction = "humio.com/marked-for-data-eviction"

-- LogScaleClusterVhost
abbrev pub log_scale_cluster_vhost : String
log_scale_cluster_vhost = "humio.com/cluster-vhost"

-- A node in the answer to GetCluster
pub record Host : Type 0 where
  pub id : ℤ
  pub is_available : Bool
  pub uri : String

-- The effects outside: SetIsBeingEvicted with true, the update of a pod that marks it for eviction, the
-- request to unregister a node, the write of a node into the status, and the deletion of a pod.
pub data Action : Type 0 where
  set_evicted : ℤ → Action
  mark : Pod → ℤ → Action
  unregister : ℤ → Action
  record_node : ℤ → Action
  delete_pod : Pod → Action

-- `hc.Status.EvictedNodeIds` in memory, and the actions so far.
pub record Progress : Type 0 where
  pub evicted : List ℤ
  pub actions : List Action

-- A step with the progress that it leaves; no value is an error, or a panic.
abbrev pub Step {ℓ} : Type ℓ → Type ℓ
Step A = Progress × Option A

abbrev pub note : Action → Progress → Progress
note a p = record p { actions = p.actions ++ a ∷ [] }

-- strings.Split at ".", the first part
before_dot : String → String
before_dot String.[] = ""
before_dot (String.◌∷◌ c s) =
    let rest = before_dot s in if String.◌∷◌ c String.[] == "." then "" else String.◌∷◌ c rest

-- GetPodNameFromNodeUri, for the host name that url.Parse finds; `none` is an error.
unfoldable pub get_pod_name_from_node_uri : (String → Option String) → String → Option String
unfolding before_dot
get_pod_name_from_node_uri hostname uri = elim (hostname uri) [
  | none ↦ none
  | some name ↦ some (before_dot name)
]

-- The node is available, and its URI names the pod.
unfoldable pub is_host_of : (String → Option String) → Pod → Host → Bool
unfolding get_pod_name_from_node_uri
is_host_of hostname pod host =
    host.is_available && elim (get_pod_name_from_node_uri hostname host.uri) [
      | none ↦ false
      | some name ↦ name == pod.name
    ]

-- The inner loop of matchPodsToHosts
unfoldable pub match_pod : (String → Option String) → Pod → List Host → Map ℤ → Map ℤ
unfolding is_host_of
match_pod hostname pod [] map = map
match_pod hostname pod (h ∷ hs) map =
    match_pod hostname pod hs (if is_host_of hostname pod h then insert pod.name h.id map else map)

-- matchPodsToHosts, from a map
unfoldable pub match_pods_to_hosts : (String → Option String) → List Pod → List Host → Map ℤ → Map ℤ
match_pods_to_hosts hostname [] hosts map = map
match_pods_to_hosts hostname (p ∷ ps) hosts map =
    match_pods_to_hosts hostname ps hosts (match_pod hostname p hosts map)

-- The read of the map, which gives 0 for a pod that is not in it.
unfoldable pub vhost_of : Map ℤ → Pod → ℤ
vhost_of map pod = elim (lookup pod.name map) [ none ↦ pos 0 | some v ↦ v ]

-- One round of updateEvictionStatus over the nodes; `none` is the panic of a nil pointer.
unfoldable pub is_evicting : List NodeStatus → ℤ → Option Bool
is_evicting [] vhost = some false
is_evicting (n ∷ ns) vhost =
    let rest = is_evicting ns vhost in
    if not (eqb_ℤ n.id vhost)
    then rest
    else elim n.is_being_evicted [ none ↦ none | some b ↦ if b then some true else rest ]

-- The wait, of so many rounds over the same answer.
unfoldable pub evicting_rounds : ℕ → List NodeStatus → ℤ → Option Bool
evicting_rounds zero nodes vhost = some false
evicting_rounds (suc n) nodes vhost =
    let rest = evicting_rounds n nodes vhost in
    elim (is_evicting nodes vhost) [ none ↦ none | some b ↦ if b then some true else rest ]

-- updateEvictionStatus; the first argument says for which pods the update fails.
unfoldable pub update_eviction_status :
    (String → Bool) → List NodeStatus → Pod → ℤ → Progress → Step Bool
unfolding evicting_rounds
update_eviction_status update_fails nodes pod vhost p =
    elim (evicting_rounds wait_for_pod_timeout_seconds nodes vhost) [
      | none ↦ (p, none)
      | some b ↦
          if not b
          then (p, some false)
          else if update_fails pod.name
          then (p, none)
          else (note (mark pod vhost) p, some true)
    ]

-- The loop of handleUnmarkedEvictions
unfoldable pub unmarked_loop :
    (String → Bool) → List NodeStatus → Map ℤ → List Pod → Progress → Step (Unit {0})
unmarked_loop update_fails nodes map [] p = (p, some tt)
unmarked_loop update_fails nodes map (pod ∷ pods) p =
    let skipped = unmarked_loop update_fails nodes map pods p in
    let (q, answer) = update_eviction_status update_fails nodes pod (vhost_of map pod) p in
    let rest = unmarked_loop update_fails nodes map pods q in
    if pod.spec.node_name == "" then skipped else elim answer [ none ↦ (q, none) | some b ↦ rest ]

-- handleUnmarkedEvictions, for the answers to GetCluster and GetEvictionStatus
unfoldable pub handle_unmarked_evictions :
    (String → Option String)
    → (String → Bool)
    → Option (List Host)
    → Option (List NodeStatus)
    → List Pod
    → Progress
    → Step (Unit {0})
handle_unmarked_evictions hostname update_fails none statuses pods p = (p, none)
handle_unmarked_evictions hostname update_fails (some hosts) none pods p = (p, none)
handle_unmarked_evictions hostname update_fails (some hosts) (some nodes) pods p =
    unmarked_loop update_fails nodes (match_pods_to_hosts hostname pods hosts []) pods p

-- The labels of the Kubernetes nodes, by name
abbrev pub NodeLabels : Type 0
NodeLabels = String → Option (Map String)

-- The answers to the calls of markPodForEviction: NewCluster, GetCluster, SetIsBeingEvicted,
-- GetEvictionStatus, and the updates of pods.
pub record MarkAnswers : Type 0 where
  pub cluster_ok : Bool
  pub hosts : Option (List Host)
  pub set_fails : Bool
  pub statuses : Option (List NodeStatus)
  pub update_fails : String → Bool

-- The rest of the loop of markPodForEviction for the pod that was chosen.
unfoldable pub evict_chosen : MarkAnswers → Pod → ℤ → Progress → Step (Unit {0})
evict_chosen a pod vhost p =
    if a.set_fails
    then (p, none)
    else let asked = note (set_evicted vhost) p in
      elim a.statuses [
        | none ↦ (asked, none)
        | some nodes ↦
            let (q, answer) = update_eviction_status a.update_fails nodes pod vhost asked in
            (q, elim answer [ none ↦ none | some marked ↦ some tt ])
      ]

-- The tests of the loop: the pod is in the zone, and on a node.
unfoldable pub is_eligible : NodeLabels → String → Pod → Bool
is_eligible labels zone pod =
    elim (zone_from_pod_node labels pod) [ none ↦ false | some z ↦ z == zone ]
    && not (pod.spec.node_name == "")

-- The loop of markPodForEviction, which ends with an error if no pod is eligible.
unfoldable pub mark_loop :
    MarkAnswers → NodeLabels → Map ℤ → String → List Pod → Progress → Step (Unit {0})
unfolding evict_chosen is_eligible
mark_loop a labels map zone [] p = (p, none)
mark_loop a labels map zone (pod ∷ pods) p =
    let rest = mark_loop a labels map zone pods p in
    if is_eligible labels zone pod then evict_chosen a pod (vhost_of map pod) p else rest

-- markPodForEviction
unfoldable pub mark_pod_for_eviction :
    (String → Option String) → MarkAnswers → NodeLabels → List Pod → Progress → Step (Unit {0})
mark_pod_for_eviction hostname a labels pods p =
    if not a.cluster_ok then (p, none) else elim a.hosts [
      | none ↦ (p, none)
      | some hosts ↦ elim (zone_for_pod_removal labels pods) [
        | none ↦ (p, none)
        | some zone ↦ mark_loop a labels (match_pods_to_hosts hostname pods hosts []) zone pods p
      ]
    ]
