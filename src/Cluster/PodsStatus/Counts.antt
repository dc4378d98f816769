-- ===== src/Cluster/PodsStatus/Counts.antt =====
-- How many pods are counted as ready and as not ready.
use humio_operator.Common.{
  ℕ, String, ◌≡◌, refl, Bool, false, Option, some, List, [], ◌∷◌, ◌++◌, arith, length,
  length-append, is_some, Bool-cases, Option-cases, inl, inr, ◌+◌,
}
use humio_operator.Common.Int.{ℤ, pos, ◌+ℤ◌, ◌-ℤ◌, ◌≤ℤ◌, +ℤ_parts, -ℤ_parts, eq_of_parts}
use humio_operator.Common.Format.{atoi}
use humio_operator.Common.Map.{get_text}
use humio_operator.K8s.{Pod, PodCondition}
use humio_operator.Cluster.Types.{HumioNodePool, IntOrString}
use humio_operator.Cluster.NodePool.{get_update_strategy, get_node_count}
use humio_operator.Cluster.PodCompare.{pod_revision_annotation}
use humio_operator.Cluster.Pvc.{Attached}
use humio_operator.Cluster.PodsStatus.{
  PodsStatus, mark_ready, mark_not_ready, note_ready_condition, note_condition, condition_loop,
  image_of, sort_pods, insert_pod, note_pod, live_pod, status_step, status_loop, initial_status,
  get_pods_status, remaining_min_ready_wait_time,
}

-- The counters of ready pods, of the rest, and the list of the ready pods agree, for `n` pods found;
-- one pod at least may be unavailable, and the number of pods that wait is not negative.
pub record IsCounted (n : ℕ) (s : PodsStatus) : Type 0 where
  pub is_total : s.ready_count +ℤ s.not_ready_count ≡ pos n
  pub is_listed : s.ready_count ≡ pos (length s.pods_ready)
  pub is_scaled : pos 1 ≤ℤ s.scaled_max_unavailable
  pub is_due : pos 0 ≤ℤ s.not_ready_due_to_min_ready_seconds

mark_ready-IsCounted :
    (n : ℕ) (pod : Pod) (s : PodsStatus) → IsCounted n s → IsCounted n (mark_ready pod s)
unfolding mark_ready
mark_ready-IsCounted n pod s h = record {
  is_total = ground (
    arith,
    +ℤ_parts s.ready_count (pos 1),
    -ℤ_parts s.not_ready_count (pos 1),
    +ℤ_parts s.ready_count s.not_ready_count,
    +ℤ_parts (s.ready_count +ℤ pos 1) (s.not_ready_count -ℤ pos 1),
    eq_of_parts ((s.ready_count +ℤ pos 1) +ℤ (s.not_ready_count -ℤ pos 1)) (pos n),
    h.is_total,
  );
  is_listed = ground (
    arith,
    +ℤ_parts s.ready_count (pos 1),
    eq_of_parts (s.ready_count +ℤ pos 1) (pos (length (s.pods_ready ++ pod ∷ []))),
    length-append s.pods_ready (pod ∷ []),
    h.is_listed,
  );
  is_scaled = h.is_scaled;
  is_due = h.is_due;
}

mark_not_ready-IsCounted :
    (n : ℕ) (r : ℤ) (pod : Pod) (s : PodsStatus)
    → IsCounted n s
    → IsCounted n (mark_not_ready r pod s)
unfolding mark_not_ready
mark_not_ready-IsCounted n r pod s h = record {
  is_total = h.is_total;
  is_listed = h.is_listed;
  is_scaled = h.is_scaled;
  is_due = ground (arith, +ℤ_parts s.not_ready_due_to_min_ready_seconds (pos 1), h.is_due);
}

note_ready_condition-IsCounted :
    (n : ℕ) (r : ℤ) (pod : Pod) (c : PodCondition) (s : PodsStatus)
    → IsCounted n s
    → IsCounted n (note_ready_condition r pod c s)
unfolding note_ready_condition
note_ready_condition-IsCounted n r pod c s h =
    ground (arith, mark_ready-IsCounted n pod s h, mark_not_ready-IsCounted n r pod s h)

with_bad :
    (n : ℕ) (bad : List Pod) (s : PodsStatus)
    → IsCounted n s
    → IsCounted n (record s { unschedulable_or_bad = bad })
with_bad n bad s h = record {
  is_total = h.is_total;
  is_listed = h.is_listed;
  is_scaled = h.is_scaled;
  is_due = h.is_due;
}

with_evicted :
    (n : ℕ) (evicted : List Pod) (s : PodsStatus)
    → IsCounted n s
    → IsCounted n (record s { evicted_or_orphaned = evicted })
with_evicted n evicted s h = record {
  is_total = h.is_total;
  is_listed = h.is_listed;
  is_scaled = h.is_scaled;
  is_due = h.is_due;
}

note_condition-IsCounted :
    (n now : ℕ) (pod : Pod) (c : PodCondition) (s : PodsStatus)
    → IsCounted n s
    → IsCounted n (note_condition now pod c s)
unfolding note_condition
note_condition-IsCounted n now pod c s h = ground (
  arith,
  with_bad n (s.unschedulable_or_bad ++ pod ∷ []) s h,
  note_ready_condition-IsCounted n (remaining_min_ready_wait_time s.min_ready_seconds now pod) pod c
      s h,
)

condition_loop-IsCounted :
    (n now : ℕ) (pod : Pod) (cs : List PodCondition) (s : PodsStatus)
    → IsCounted n s
    → IsCounted n (condition_loop now pod cs s)
unfolding condition_loop
condition_loop-IsCounted n now pod [] s h = h
condition_loop-IsCounted n now pod (c ∷ cs) s h =
    condition_loop-IsCounted n now pod cs (note_condition now pod c s)
      (note_condition-IsCounted n now pod c s h)

note_pod-IsCounted :
    (n : ℕ) (revision : ℤ) (image : String) (pod : Pod) (s : PodsStatus)
    → IsCounted n s
    → IsCounted n (note_pod revision image pod s)
unfolding note_pod
note_pod-IsCounted n revision image pod s h = record {
  is_total = h.is_total;
  is_listed = h.is_listed;
  is_scaled = h.is_scaled;
  is_due = h.is_due;
}

length-insert_pod : (p : Pod) (ps : List Pod) → length (insert_pod p ps) ≡ length ps + 1
unfolding insert_pod
length-insert_pod p [] = refl
length-insert_pod p (q ∷ qs) = ground (arith, length-insert_pod p qs)

pub length-sort_pods : (ps : List Pod) → length (sort_pods ps) ≡ length ps
unfolding sort_pods
length-sort_pods [] = refl
length-sort_pods (p ∷ ps) = ground (arith, length-sort_pods ps, length-insert_pod p (sort_pods ps))

module _ (attached : Pod → Attached) (now : ℕ) (pool : HumioNodePool) where
  live_pod-IsCounted :
      (n : ℕ) (pod : Pod) (s t : PodsStatus)
      → IsCounted n s
      → live_pod attached now pool pod s ≡ some t
      → IsCounted n t
  unfolding live_pod
  live_pod-IsCounted n pod s t h e = ground (
    arith,
    with_evicted n (s.evicted_or_orphaned ++ pod ∷ []) s h,
    condition_loop-IsCounted n now pod pod.conditions s h,
    condition_loop-IsCounted n now pod pod.conditions
        (record s { evicted_or_orphaned = s.evicted_or_orphaned ++ pod ∷ [] })
        (with_evicted n (s.evicted_or_orphaned ++ pod ∷ []) s h),
  )

  -- What a round that succeeds did: the pod has a revision and an image, and is counted.
  status_step-IsCounted :
      (n : ℕ) (pod : Pod) (s t : PodsStatus)
      → IsCounted n s
      → status_step attached now pool pod s ≡ some t
      → IsCounted n t
  unfolding status_step
  status_step-IsCounted n pod s t h e =
      elim (Option-cases (atoi (get_text pod_revision_annotation pod.annotations))) [
        | inl a ↦ absurd (ground arith)
        | inr (revision, a) ↦ elim (Option-cases (image_of pod)) [
          | inl b ↦ absurd (ground arith)
          | inr (image, b) ↦ elim (Bool-cases (is_some pod.deletion_timestamp)) [
            | inl d ↦ ground (arith, note_pod-IsCounted n revision image pod s h)
            | inr d ↦ ground (
              arith,
              live_pod-IsCounted n pod (note_pod revision image pod s) t
                  (note_pod-IsCounted n revision image pod s h),
            )
          ]
        ]
      ]

  status_loop-IsCounted :
      (n : ℕ) (pods : List Pod) (s t : PodsStatus)
      → IsCounted n s
      → status_loop attached now pool pods s ≡ some t
      → IsCounted n t
  unfolding status_loop
  status_loop-IsCounted n [] s t h e = ground (arith, h)
  status_loop-IsCounted n (p ∷ ps) s t h e =
      elim (Option-cases (status_step attached now pool p s)) [
        | inl a ↦ absurd (ground arith)
        | inr (u, a) ↦
            status_loop-IsCounted n ps u t (status_step-IsCounted n p s u h a) (ground arith)
      ]

  initial-IsCounted : (n : ℕ) (scaled : ℤ) → IsCounted n (initial_status attached now pool n scaled)
  unfolding initial_status
  initial-IsCounted n scaled = record {
    is_total = ground (arith, +ℤ_parts (pos 0) (pos n), eq_of_parts (pos 0 +ℤ pos n) (pos n));
    is_listed = refl;
    is_scaled = ground arith;
    is_due = ground arith;
  }

  -- Whenever the pods' state is computed without an error, the number of ready pods and the number
  -- of pods not ready add up to the number of pods found, and the number of ready pods is the length
  -- of the list of ready pods. One pod at least may be unavailable, and the number of pods that wait
  -- for their minimum time of being ready is not negative.
  pub get_pods_status-IsCounted :
      (scaled_value : Option IntOrString → ℤ → Bool → Option ℤ) (found : List Pod) (t : PodsStatus)
      → get_pods_status attached now pool scaled_value found ≡ some t
      → IsCounted (length found) t
  unfolding get_pods_status
  get_pods_status-IsCounted scaled_value found t e =
      elim (Option-cases
        (scaled_value (get_update_strategy pool).max_unavailable (get_node_count pool) false)) [
          | inl a ↦ absurd (ground arith)
          | inr (scaled, a) ↦
              status_loop-IsCounted (length found) (sort_pods found)
                (initial_status attached now pool (length found) scaled) t
                (initial-IsCounted (length found) scaled) (ground arith)
        ]
