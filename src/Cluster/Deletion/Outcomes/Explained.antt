-- ===== src/Cluster/Deletion/Outcomes/Explained.antt =====
-- What explains a status update of ensureMismatchedPodsAreDeleted.
use humio_operator.Common.{
  ℕ, zero, suc, String, ◌≡◌, refl, inl, inr, true, false, Option, none, some, List, [], ◌∷◌, arith,
  ◌&&◌, ◌||◌, ◌==◌, ◌++◌, any, eq_iff, Bool-cases,
}
use mathlib.Core.Path.{subst}
use humio_operator.Common.Int.{pos, inc64, eqb_ℤ}
use humio_operator.Common.Map.{lookup}
use humio_operator.K8s.{Pod, PodSpec}
use humio_operator.Cluster.Types.{
  HumioNodePool, state_running, state_config_error, state_upgrading, state_restarting,
}
use humio_operator.Cluster.NodePool.{Getenv, use_envtest}
use humio_operator.Cluster.Sanitize.{sanitize_pod}
use humio_operator.Cluster.Status.{
  Options, StateOption, state_option, message_option, state_option_list, version_option,
  pods_option, license_option, node_count_option, observed_generation_option,
}
use humio_operator.Cluster.Zones.{
  filter_pods_by_zone_name, filter_pods_exclude_revision_and_hash,
  filter_pods_exclude_empty_node_name,
}
use humio_operator.Cluster.Lifecycle.{
  PodLifecycleState, found_version_difference, found_configuration_difference, zone_awareness,
}
use humio_operator.Cluster.PodCompare.{bootstrap_token_hash_annotation}
use humio_operator.Cluster.PodsStatus.{PodsStatus, revisions_in_sync, waiting_on_pods}
use humio_operator.Cluster.Deletion.{
  Done, requeues, updates, first_zone, delete_round, delete_up_to, own_options, pool_options,
}

-- The options among those written that write states of pools.
abbrev pub states_in : Options → List StateOption
states_in [] = []
states_in (state_option o ∷ rest) = o ∷ states_in rest
states_in (message_option m ∷ rest) = states_in rest
states_in (state_option_list os ∷ rest) = os ++ states_in rest
states_in (version_option v ∷ rest) = states_in rest
states_in (pods_option pods ∷ rest) = states_in rest
states_in (license_option l ∷ rest) = states_in rest
states_in (node_count_option n ∷ rest) = states_in rest
states_in (observed_generation_option n ∷ rest) = states_in rest

abbrev pub written_states : Option Options → List StateOption
written_states none = []
written_states (some opts) = states_in opts

delete_round-written :
    (p : Pod) (answer : Option String) (rest : List Pod × Option Options)
    → written_states rest.1 ≡ []
    → written_states (delete_round p answer rest).1 ≡ []
unfolding delete_round
delete_round-written p (some err) rest h = refl
delete_round-written p none rest h = h

pub delete_up_to-written :
    (delete : Pod → Option String) (n : ℕ) (pods : List Pod)
    → written_states (delete_up_to delete n pods).1 ≡ []
unfolding delete_up_to
delete_up_to-written delete zero pods = refl
delete_up_to-written delete (suc n) [] = refl
delete_up_to-written delete (suc n) (p ∷ ps) =
    delete_round-written p (delete p) (delete_up_to delete n ps) (delete_up_to-written delete n ps)

-- The pods that the filter by the revision and the hash of the pool leaves, which are to be replaced.
abbrev pub to_replace : HumioNodePool → List Pod → List Pod
to_replace pool pods =
    filter_pods_exclude_revision_and_hash pods pool.desired_pod_revision pool.desired_pod_hash

-- What a call writes, with the pods it deletes: no state of a pool; or the pool's entry with the state
-- `Upgrading`, `Restarting` or `Running` and the same revision; or the pool's entry with the next
-- revision and the new hashes; or the pool's entry with a zone set or cleared.
pub data IsExplained (getenv : Getenv) (zone : String → String) (delete : Pod → Option String)
    (hash_of : Pod → PodSpec → Option String) (state : String) (pool : HumioNodePool)
    (pods : List Pod) (s : PodsStatus) (d : PodLifecycleState) (desired : Pod) (done : Done)
    : Type 0 where
  no_state :
      written_states done.written ≡ []
      → IsExplained getenv zone delete hash_of state pool pods s d desired done
  upgrades :
      (state == state_running || state == state_config_error) ≡ true
      → found_version_difference d ≡ true
      → done ≡ record {
        deleted = [];
        written = some (own_options pool state_upgrading "");
        returned = requeues;
      }
      → IsExplained getenv zone delete hash_of state pool pods s d desired done
  restarts :
      (state == state_running || state == state_config_error) ≡ true
      → found_version_difference d ≡ false
      → found_configuration_difference d ≡ true
      → done ≡ record {
        deleted = [];
        written = some (own_options pool state_restarting "");
        returned = requeues;
      }
      → IsExplained getenv zone delete hash_of state pool pods s d desired done
  finishes :
      (pool.state == state_running) ≡ false
      → revisions_in_sync s pool.desired_pod_revision ≡ true
      → s.not_ready_count ≡ pos 0
      → waiting_on_pods s ≡ false
      → found_configuration_difference d ≡ false
      → found_version_difference d ≡ false
      → done ≡ record {
        deleted = [];
        written = some (own_options pool state_running "");
        returned = requeues;
      }
      → IsExplained getenv zone delete hash_of state pool pods s d desired done
  revises :
      (token_hash hash : String)
      → lookup bootstrap_token_hash_annotation desired.annotations ≡ some token_hash
      → hash_of (sanitize_pod getenv pool desired) pool.managed_fields_tracker ≡ some hash
      → (eqb_ℤ pool.desired_pod_revision (pos 0)
          || state == state_upgrading
          || state == state_restarting)
        ≡ true
      → (hash == pool.desired_pod_hash && token_hash == pool.desired_bootstrap_token_hash) ≡ false
      → done ≡ record {
        deleted = [];
        written =
            some (pool_options pool state (inc64 pool.desired_pod_revision) hash token_hash "");
        returned = requeues;
      }
      → IsExplained getenv zone delete hash_of state pool pods s d desired done
  pins :
      (new_zone : String)
      → s.evicted_or_orphaned ≡ []
      → zone_awareness pool ≡ true
      → use_envtest getenv ≡ false
      → (pool.zone_under_maintenance == "") ≡ true
      → (new_zone == "") ≡ false
      → any
          (λ (p : Pod). zone p.spec.node_name == new_zone)
          (filter_pods_exclude_empty_node_name (to_replace pool pods))
        ≡ true
      → done ≡ record {
        deleted = [];
        written = some (own_options pool pool.state new_zone);
        returned = updates;
      }
      → IsExplained getenv zone delete hash_of state pool pods s d desired done
  clears :
      s.evicted_or_orphaned ≡ []
      → zone_awareness pool ≡ true
      → use_envtest getenv ≡ false
      → (pool.zone_under_maintenance == "") ≡ false
      → to_replace pool (filter_pods_by_zone_name zone pods pool.zone_under_maintenance) ≡ []
      → done ≡ record {
        deleted = [];
        written = some (own_options pool pool.state "");
        returned = updates;
      }
      → IsExplained getenv zone delete hash_of state pool pods s d desired done

pub first_zone-any :
    (zone : String → String) (pods : List Pod) (z : String)
    → first_zone zone pods ≡ some z
    → ((z == "") ≡ false) × (any (λ (p : Pod). zone p.spec.node_name == z) pods ≡ true)
unfolding first_zone
first_zone-any zone [] z h = absurd (ground (arith, h))
first_zone-any zone (p ∷ ps) z h = elim (Bool-cases (zone p.spec.node_name == "")) [
  | inl e ↦ let (q, r) = first_zone-any zone ps z (ground (arith, h, e)) in (q, ground (arith, r))
  | inr e ↦
      let same : zone p.spec.node_name ≡ z = ground (arith, h, e) in
      (
        subst (λ x. (x == "") ≡ false) same e,
        ground (arith, (eq_iff (zone p.spec.node_name) z).1 same),
      )
]
