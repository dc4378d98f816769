-- ===== src/Cluster/Examples/Statuses.antt =====
-- The theorems on status updates at concrete updates.
use humio_operator.Common.{◌≡◌, ◌≢◌, refl, false, [], ◌∷◌, arith}
use humio_operator.Common.Int.{pos}
use humio_operator.Common.Format.{seconds}
use humio_operator.Cluster.Types.{ClusterStatus, state_running, state_upgrading}
use humio_operator.Cluster.NodePool.{pool_state}
use humio_operator.Cluster.Status.{StateOption, state_option, update_status, apply, Result}
use humio_operator.Cluster.Status.Options.{pool_state-apply, pool_state_of, IsUnique}
use humio_operator.Cluster.Status.Update.{
  AppliedToLatest, update_status_applies_to_latest, won_race,
}
use humio_operator.Cluster.Examples.{pool_status, status_with}

abbrev before : ClusterStatus
before = status_with (pool_status "a" state_running ∷ [])

abbrev upgrading : StateOption
upgrading = record {
  state = state_upgrading;
  node_pool_name = "a";
  zone_under_maintenance = "";
  desired_pod_revision = pos 2;
  desired_pod_hash = "h2";
  desired_bootstrap_token_hash = "t1";
  requeue_period = pos 0;
}

a_is_named : upgrading.node_pool_name ≢ ""
a_is_named e = cc e

one_entry-IsUnique : IsUnique before.node_pool_status
one_entry-IsUnique j = ground arith

abbrev in_a_second : Result
in_a_second = record { requeue = false; requeue_after = seconds 1 }

update_status_applies_to_latest_example :
    AppliedToLatest
      (won_race before ∷ [])
      (state_option upgrading ∷ [])
      (update_status (won_race before ∷ []) before (state_option upgrading ∷ [])).status
      in_a_second
unfolding update_status
update_status_applies_to_latest_example =
    update_status_applies_to_latest (won_race before ∷ []) before (state_option upgrading ∷ [])
      in_a_second refl

pool_state-apply_example :
    pool_state "a" (apply (state_option upgrading) before).node_pool_status
    ≡ pool_state_of upgrading
pool_state-apply_example = pool_state-apply upgrading "a" before a_is_named
