-- ===== src/Cluster/Lifecycle/Strategy.antt =====
-- When pods are replaced one after another.
use humio_operator.Common.{
  String, ◌≡◌, Bool, false, not, none, some, arith, ◌==◌, eq_iff, ◌&&◌, ◌||◌, eqb,
}
use humio_operator.Cluster.Types.{
  strategy_rolling_update, strategy_best_effort, strategy_replace_all, strategies_distinct,
}
use humio_operator.Cluster.NodePool.{get_update_strategy}
use humio_operator.Cluster.Version.{HumioVersion, IsResolved}
use humio_operator.Cluster.Lifecycle.{PodLifecycleState, should_rolling_restart}

abbrev pub simultaneous : PodLifecycleState → Bool
simultaneous p = elim p.configuration_difference [ none ↦ false | some b ↦ b ]

abbrev pub strategy_type : PodLifecycleState → String
strategy_type p = (get_update_strategy p.node_pool).type

-- Two parsed versions of one minor release.
abbrev pub same_minor_release : HumioVersion → HumioVersion → Bool
same_minor_release f t = elim f.version [
  | none ↦ false
  | some a ↦ elim t.version [ none ↦ false | some b ↦ eqb a.major b.major && eqb a.minor b.minor ]
]

-- With no version difference, pods are replaced one after another exactly under the strategy
-- `RollingUpdate`, if no change asks for a restart of all of them at once.
rolling_of_configuration :
    (p : PodLifecycleState)
    → p.version_difference ≡ none
    → should_rolling_restart p
      ≡ some (not (simultaneous p) && strategy_type p == strategy_rolling_update)
unfolding should_rolling_restart
rolling_of_configuration p h = ground (
  arith,
  strategies_distinct,
  eq_iff (strategy_type p) strategy_replace_all,
  eq_iff (strategy_type p) strategy_rolling_update,
  eq_iff (strategy_type p) strategy_best_effort,
)

-- With a difference between two resolved versions the question is always answered, and with yes
-- exactly if neither version is the latest one, no change asks for a restart of all pods at once,
-- and the strategy is `RollingUpdate`, or it is `RollingUpdateBestEffort` and both versions belong
-- to one minor release.
pub rolling_of_version :
    (p : PodLifecycleState) (f t : HumioVersion)
    → p.version_difference ≡ some (record { from = some f; to = some t })
    → IsResolved f
    → IsResolved t
    → should_rolling_restart p
      ≡ some (
          not f.assume_latest
          && not t.assume_latest
          && not (simultaneous p)
          && (strategy_type p == strategy_rolling_update
              || (strategy_type p == strategy_best_effort && same_minor_release f t)))
unfolding should_rolling_restart
rolling_of_version p f t h rf rt = ground (
  arith,
  strategies_distinct,
  eq_iff (strategy_type p) strategy_replace_all,
  eq_iff (strategy_type p) strategy_rolling_update,
  eq_iff (strategy_type p) strategy_best_effort,
)
