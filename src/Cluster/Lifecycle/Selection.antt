-- ===== src/Cluster/Lifecycle/Selection.antt =====
-- Which pods are to be replaced.
use humio_operator.Common.{
  String, ◌≡◌, ◌⊎◌, inl, inr, Bool, true, false, not, Option, none, some, List, [], ◌∷◌, ◌++◌,
  arith, any, keep, ◌&&◌, ◌||◌, is_some, Bool-cases, Option-cases, if◌then◌else◌, ap, sym, ◌==◌,
}
use mathlib.Core.List.{append-nil, append_assoc}
use humio_operator.K8s.{Pod}
use humio_operator.Cluster.Types.{HumioNodePool}
use humio_operator.Cluster.NodePool.{Getenv, use_envtest}
use humio_operator.Cluster.Version.{Semver}
use humio_operator.Cluster.PodCompare.{
  Comparison, new_pod_comparison, matches, has_critical_mismatch, has_warning_mismatch,
  mismatched_humio_versions,
}
use humio_operator.Cluster.Lifecycle.{
  PodLifecycleState, new_pod_lifecycle_state, zone_awareness, zone_allows, consider, lifecycle_loop,
}

matches-critical :
    (c : Comparison) → (matches c || has_warning_mismatch c) ≡ not (has_critical_mismatch c)
unfolding matches has_warning_mismatch has_critical_mismatch
matches-critical c = ground arith

append_kept {ℓ} :
    {A : Type ℓ} (b : Bool) (xs : List A) (x : A) (rest : List A)
    → (xs ++ (if b then x ∷ [] else [])) ++ rest ≡ xs ++ (if b then x ∷ rest else rest)
append_kept true xs x rest = append_assoc xs (x ∷ []) rest
append_kept false xs x rest = ap (λ ys. ys ++ rest) (append-nil xs)

module _ (new_version : String → Option Semver) (getenv : Getenv) (zone : String → String)
    (pool : HumioNodePool) (bypass : Bool) (desired : Pod) where
  -- A pod that is not being deleted and differs critically from the desired one.
  pub to_restart : Pod → Bool
  to_restart pod =
      not (is_some pod.deletion_timestamp)
      && elim (new_pod_comparison new_version getenv pool pod desired) [
        | none ↦ false
        | some c ↦ has_critical_mismatch c
      ]

  pub has_other_image : Pod → Bool
  has_other_image pod = elim (new_pod_comparison new_version getenv pool pod desired) [
    | none ↦ false
    | some c ↦ (mismatched_humio_versions c).0
  ]

  abbrev loop : List Pod → PodLifecycleState → Option PodLifecycleState
  loop = lifecycle_loop new_version getenv zone pool bypass desired

  -- Zone awareness plays no role, or the pod is on a node, which lies in the zone under maintenance if
  -- there is one.
  abbrev pub in_open_zone : Pod → Bool
  in_open_zone pod =
      use_envtest getenv
      || bypass
      || not (zone_awareness pool)
      || (not (pod.spec.node_name == "")
          && (pool.zone_under_maintenance == ""
              || zone pod.spec.node_name == pool.zone_under_maintenance))

  zone_allows-in_open_zone :
      (pod : Pod) → zone_allows getenv zone pool bypass pod ≡ in_open_zone pod
  unfolding zone_allows
  zone_allows-in_open_zone pod = ground arith

  abbrev pub replaceable : Pod → Bool
  replaceable pod = to_restart pod && in_open_zone pod

  abbrev pub with_new_image : Pod → Bool
  with_new_image pod = to_restart pod && has_other_image pod

  consider-pods :
      (c : Comparison) (pod : Pod) (s : PodLifecycleState)
      → (consider new_version getenv zone pool bypass desired c pod s).pods_to_be_replaced
        ≡ s.pods_to_be_replaced
          ++ (if has_critical_mismatch c && in_open_zone pod then pod ∷ [] else [])
  unfolding consider
  consider-pods c pod s =
      rw (sym (zone_allows-in_open_zone pod))
        (ground (arith, matches-critical c, append-nil s.pods_to_be_replaced))

  consider-version :
      (c : Comparison) (pod : Pod) (s : PodLifecycleState)
      → is_some (consider new_version getenv zone pool bypass desired c pod s).version_difference
        ≡ (is_some s.version_difference
            || (has_critical_mismatch c && (mismatched_humio_versions c).0))
  unfolding consider
  consider-version c pod s = ground (arith, matches-critical c)

  loop_step :
      (pod : Pod) (pods : List Pod) (s t : PodLifecycleState)
      → loop (pod ∷ pods) s ≡ some t
      → ((is_some pod.deletion_timestamp ≡ true) × (loop pods s ≡ some t))
        ⊎ ((c : Comparison) × (is_some pod.deletion_timestamp ≡ false)
            × (new_pod_comparison new_version getenv pool pod desired ≡ some c)
            × (loop pods (consider new_version getenv zone pool bypass desired c pod s) ≡ some t))
  unfolding lifecycle_loop
  loop_step pod pods s t h = elim (Bool-cases (is_some pod.deletion_timestamp)) [
    | inl e ↦ inl (e, ground arith)
    | inr e ↦ elim (Option-cases (new_pod_comparison new_version getenv pool pod desired)) [
      | inl n ↦ absurd (ground arith)
      | inr (c, q) ↦ inr (c, e, q, ground arith)
    ]
  ]

  to_restart_deleted : (pod : Pod) → is_some pod.deletion_timestamp ≡ true → to_restart pod ≡ false
  unfolding to_restart
  to_restart_deleted pod h = ground arith

  to_restart_compared :
      (pod : Pod) (c : Comparison)
      → is_some pod.deletion_timestamp ≡ false
      → new_pod_comparison new_version getenv pool pod desired ≡ some c
      → (to_restart pod ≡ has_critical_mismatch c)
        × (has_other_image pod ≡ (mismatched_humio_versions c).0)
  unfolding to_restart has_other_image
  to_restart_compared pod c h q = ground arith

  loop-pods :
      (pods : List Pod) (s t : PodLifecycleState)
      → loop pods s ≡ some t
      → t.pods_to_be_replaced ≡ s.pods_to_be_replaced ++ keep replaceable pods
  unfolding lifecycle_loop
  loop-pods [] s t h = ground (arith, append-nil s.pods_to_be_replaced)
  loop-pods (pod ∷ pods) s t h = elim (loop_step pod pods s t h) [
    | inl (d, r) ↦ ground (arith, loop-pods pods s t r, to_restart_deleted pod d)
    | inr (c, d, q, r) ↦ ground (
      arith,
      loop-pods pods (consider new_version getenv zone pool bypass desired c pod s) t r,
      consider-pods c pod s,
      to_restart_compared pod c d q,
      append_kept (has_critical_mismatch c && in_open_zone pod) s.pods_to_be_replaced pod
          (keep replaceable pods),
    )
  ]

  loop-version :
      (pods : List Pod) (s t : PodLifecycleState)
      → loop pods s ≡ some t
      → is_some t.version_difference ≡ (is_some s.version_difference || any with_new_image pods)
  unfolding lifecycle_loop
  loop-version [] s t h = ground arith
  loop-version (pod ∷ pods) s t h = elim (loop_step pod pods s t h) [
    | inl (d, r) ↦ ground (arith, loop-version pods s t r, to_restart_deleted pod d)
    | inr (c, d, q, r) ↦ ground (
      arith,
      loop-version pods (consider new_version getenv zone pool bypass desired c pod s) t r,
      consider-version c pod s,
      to_restart_compared pod c d q,
    )
  ]

  -- The pods to be replaced are exactly those found, in their order, that are not being deleted,
  -- differ critically from the desired pod, and are in a zone that is open: under zone awareness, which
  -- the test environment and the bypass turn off, on a node, which lies in the zone under maintenance if
  -- there is one.
  -- A version difference is recorded exactly if one of the pods that are not being deleted and
  -- differ critically has another image.
  pub lifecycle_loop_exact :
      (pods : List Pod) (t : PodLifecycleState)
      → loop pods (new_pod_lifecycle_state pool) ≡ some t
      → (t.pods_to_be_replaced ≡ keep replaceable pods)
        × (is_some t.version_difference ≡ any with_new_image pods)
  lifecycle_loop_exact pods t h = (
    loop-pods pods (new_pod_lifecycle_state pool) t h,
    loop-version pods (new_pod_lifecycle_state pool) t h,
  )
