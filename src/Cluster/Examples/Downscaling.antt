-- ===== src/Cluster/Examples/Downscaling.antt =====
-- The theorems on downscaling at a pool of two unmarked pods and one that is marked for eviction.
use mathlib.Core.Path.{subst}
use humio_operator.Common.{
  is_some, arith, ◌≤◌, ◌≡◌, refl, sym, inl, inr, String, true, false, Option, some, List, [], ◌∷◌,
  count,
}
use humio_operator.Common.Int.{ℤ, pos}
use humio_operator.Common.Map.{Map, lookup, get_text}
use humio_operator.Common.Format.{atoi}
use humio_operator.K8s.{Pod}
use humio_operator.Cluster.Eviction.{
  Reasons, NodeStatus, check_eviction_status_for_pod, unregister_node, is_node_registered,
  is_evicted_node_alive,
}
use humio_operator.Cluster.Downscaling.Marking.{
  Host, mark, record_node, delete_pod, log_scale_cluster_vhost, pod_marked_for_data_eviction,
  match_pods_to_hosts, match_pod, vhost_of, is_evicting, handle_unmarked_evictions,
  get_pod_name_from_node_uri, unmarked_loop, update_eviction_status,
}
use humio_operator.Cluster.Downscaling.Removal.{
  UnregisterAnswers, removal_loop, annotated_vhost, remove_pod, remove_evicted, keep_track,
  delete_and_unregister, unregister_step, lingering_loop,
}
use humio_operator.Cluster.Downscaling.Composition.{listed}
use humio_operator.Cluster.Downscaling.Keeping.{In}
use humio_operator.Cluster.Downscaling.Safety.{IsJustified, process_downscaling-IsJustified}
use humio_operator.Cluster.Downscaling.Pace.{is_eviction, process_downscaling-evictions}
use humio_operator.Cluster.Downscaling.Hosts.{stranger_marked}
use humio_operator.Cluster.Downscaling.{
  Answers, process_downscaling, get_pods_not_marked_for_eviction, and_then,
}
use humio_operator.Cluster.Examples.{pod_of}

abbrev on_node : String → String → Pod
on_node name node =
    let p = pod_of name [] "image" in record p { spec = record p.spec { node_name = node } }

abbrev leaving : Pod
leaving = record (on_node "pod-3" "node-3") {
  labels = (pod_marked_for_data_eviction, "true") ∷ [];
  annotations = (log_scale_cluster_vhost, "3") ∷ [];
}

abbrev clear : Reasons
clear = record {
  leads_digest = false;
  has_under_replicated_data = false;
  has_data_that_exists_only_here = false;
}

abbrev nodes : List NodeStatus
nodes =
    record { id = pos 0; is_alive = true; is_being_evicted = some true; reasons = clear }
    ∷ record { id = pos 3; is_alive = true; is_being_evicted = some true; reasons = clear }
    ∷ []

abbrev hosts : List Host
hosts =
    record { id = pos 0; is_available = true; uri = "pod-1.svc" }
    ∷ record { id = pos 3; is_available = true; uri = "pod-3.svc" }
    ∷ []

abbrev unregistering : UnregisterAnswers
unregistering = record { nodes = some nodes; response = some []; update_fails = false }

abbrev hostname : String → Option String
hostname uri = some uri

abbrev labels : String → Option (Map String)
labels node = some (("topology.kubernetes.io/zone", "zone-a") ∷ [])

-- LogScale evicts the data of the node 3, and has moved it.
abbrev moved : Answers
moved = record {
  cluster_ok = true;
  pods = some (on_node "pod-1" "node-1" ∷ on_node "pod-2" "node-2" ∷ leaving ∷ []);
  hosts = some hosts;
  statuses = some [];
  update_fails = λ name. false;
  lingering = λ v. unregistering;
  marked_pods = some (leaving ∷ []);
  marking = record {
    cluster_ok = true;
    hosts = some hosts;
    set_fails = false;
    statuses = some nodes;
    update_fails = λ name. false;
  };
  removal = λ pod. record {
    rounds = λ i. record { nodes = some nodes; refresh = λ j. some clear };
    status_fails = false;
    delete_fails = false;
    unregistering = unregistering;
  };
}

-- The node 3 is put into the status, and its pod is deleted; the node, still alive, is not unregistered.
moved_actions :
    (process_downscaling hostname labels (pos 2) moved []).0.actions
    ≡ record_node (pos 3) ∷ delete_pod leaving ∷ []
unfolding process_downscaling match_pods_to_hosts match_pod lookup unmarked_loop
    update_eviction_status is_evicting handle_unmarked_evictions lingering_loop removal_loop
    annotated_vhost atoi get_text remove_pod remove_evicted keep_track delete_and_unregister
    unregister_step unregister_node check_eviction_status_for_pod and_then vhost_of
    is_node_registered is_evicted_node_alive
moved_actions = refl

deleted : In (delete_pod leaving) (process_downscaling hostname labels (pos 2) moved []).0.actions
deleted = subst (In (delete_pod leaving)) (sym moved_actions) (inr (inl refl))

process_downscaling-IsJustified_example :
    IsJustified hostname labels
      (pos 2)
      moved
      []
      (listed (get_pods_not_marked_for_eviction moved.pods))
      (leaving ∷ [])
      (delete_pod leaving)
      (process_downscaling hostname labels (pos 2) moved []).0.actions
process_downscaling-IsJustified_example =
    process_downscaling-IsJustified hostname labels (pos 2) moved [] (delete_pod leaving) deleted

process_downscaling-evictions_example :
    count is_eviction
      (process_downscaling hostname labels
        (pos 1)
        (record moved { marked_pods = some [] })
        []).0.actions
    ≤ 1
process_downscaling-evictions_example =
    process_downscaling-evictions hostname labels (pos 1) (record moved { marked_pods = some [] })
      []

all_known : (v : ℤ) → is_some (is_evicting nodes v) ≡ true
unfolding is_evicting
all_known v = ground arith

-- The node 0 is that of `pod-1`, and `pod-2` is marked with it.
stranger_marked_example :
    In
      (mark (on_node "pod-2" "node-2") (pos 0))
      (handle_unmarked_evictions hostname
        (λ name. false)
        (some hosts)
        (some nodes)
        (on_node "pod-1" "node-1" ∷ on_node "pod-2" "node-2" ∷ [])
        (record { evicted = []; actions = [] })).0.actions
unfolding is_evicting get_pod_name_from_node_uri
stranger_marked_example =
    stranger_marked hostname (λ name. false) nodes hosts (on_node "pod-2" "node-2")
      (on_node "pod-1" "node-1" ∷ on_node "pod-2" "node-2" ∷ [])
      (record { evicted = []; actions = [] }) (inr (inl refl)) refl refl refl all_known
      (λ name. refl)
