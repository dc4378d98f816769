-- ===== src/Cluster/PodsStatus/Waiting.antt =====
-- When the pods are in sync, how many may be deleted, and how long a pod is waited for.
use humio_operator.Common.{
  ℕ, ◌+◌, ◌≤◌, ◌≡◌, refl, ◌⊎◌, inl, inr, Bool, true, false, List, [], ◌∷◌, arith, ◌&&◌, length,
  count, all, count-le-length, keep, Option-cases,
}
use humio_operator.Common.Int.{ℤ, pos, negsuc, ◌+ℤ◌, ◌-ℤ◌, ◌≤ℤ◌, +ℤ_parts, -ℤ_parts, eqb_ℤ}
use humio_operator.K8s.{Pod}
use humio_operator.Cluster.PodsStatus.{
  PodsStatus, count_revision, revisions_in_sync, deletion_budget, remaining_min_ready_wait_time,
  maximum_min_ready_requeue, latest_transition_time, is_ready_true,
}
use humio_operator.Cluster.PodsStatus.Counts.{IsCounted}

abbrev pub is_revision : ℤ → ℤ → Bool
is_revision revision r = eqb_ℤ r revision

count_revision-count :
    (revision : ℤ) (rs : List ℤ) (n : ℕ)
    → count_revision revision rs (pos n) ≡ pos (n + count (is_revision revision) rs)
unfolding count_revision ◌+ℤ◌
count_revision-count revision [] n = ground arith
count_revision-count revision (r ∷ rs) n =
    ground (arith, count_revision-count revision rs n, count_revision-count revision rs (n + 1))

all-count {ℓ} :
    {A : Type ℓ} (p : A → Bool) (xs : List A)
    → ((all p xs ≡ true) × (count p xs ≡ length xs))
      ⊎ ((all p xs ≡ false) × (count p xs + 1 ≤ length xs))
all-count p [] = inl (refl, refl)
all-count p (x ∷ xs) = ground (arith, all-count p xs, count-le-length p xs)

-- The pods are in sync with a revision exactly if there are as many of them as the pool has nodes,
-- and every one has this revision.
revisions_in_sync_exact :
    (s : PodsStatus) (revision : ℤ)
    → revisions_in_sync s revision ≡ (
        eqb_ℤ (pos (length s.pod_revisions)) s.node_count
        && all (is_revision revision) s.pod_revisions)
unfolding revisions_in_sync
revisions_in_sync_exact s revision = ground (
  arith,
  count_revision-count revision s.pod_revisions 0,
  all-count (is_revision revision) s.pod_revisions,
)

-- Of a counted state, the number of pods that may be deleted is at least 0 and at most the number of
-- pods that may be unavailable. With the pods that wait for their minimum time of being ready it comes
-- to at least the number of pods that may be unavailable.
pub deletion_budget_bounds :
    (n : ℕ) (s : PodsStatus)
    → IsCounted n s
    → (pos 0 ≤ℤ deletion_budget s)
      × (deletion_budget s ≤ℤ s.scaled_max_unavailable)
      × (s.scaled_max_unavailable ≤ℤ deletion_budget s +ℤ s.not_ready_due_to_min_ready_seconds)
unfolding deletion_budget
deletion_budget_bounds n s h = (
  ground arith,
  ground (
    arith,
    h.is_scaled,
    h.is_due,
    -ℤ_parts s.scaled_max_unavailable s.not_ready_due_to_min_ready_seconds,
  ),
  ground (
    arith,
    h.is_scaled,
    h.is_due,
    -ℤ_parts s.scaled_max_unavailable s.not_ready_due_to_min_ready_seconds,
    +ℤ_parts (s.scaled_max_unavailable -ℤ s.not_ready_due_to_min_ready_seconds)
        s.not_ready_due_to_min_ready_seconds,
    +ℤ_parts (pos 0) s.not_ready_due_to_min_ready_seconds,
  ),
)

-- The remaining time of waiting for a pod is -1 ns, or between 0 and the maximum of five minutes,
-- for all settings and all clocks.
remaining_min_ready_wait_time_bounds :
    (min_ready : ℤ) (now : ℕ) (pod : Pod)
    → (remaining_min_ready_wait_time min_ready now pod ≡ negsuc 0)
      ⊎ ((pos 0 ≤ℤ remaining_min_ready_wait_time min_ready now pod)
          × (remaining_min_ready_wait_time min_ready now pod ≤ℤ maximum_min_ready_requeue))
unfolding remaining_min_ready_wait_time ◌-ℤ◌
remaining_min_ready_wait_time_bounds min_ready now pod =
    elim (Option-cases (latest_transition_time (keep is_ready_true pod.conditions))) [
      | inl e ↦ inl (ground arith)
      | inr (t, e) ↦ ground arith
    ]
