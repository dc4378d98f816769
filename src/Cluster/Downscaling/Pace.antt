-- ===== src/Cluster/Downscaling/Pace.antt =====
-- One call of processDownscaling asks for the eviction of one node at most.
use mathlib.Core.Path.{subst}
use humio_operator.Common.{
  ℕ, ◌+◌, ◌≤◌, ◌≡◌, refl, sym, Option, some, String, Bool, true, false, List, [], ◌∷◌, ◌++◌, arith,
  count, count-append, not,
}
use humio_operator.Common.Int.{ℤ}
use humio_operator.K8s.{Pod}
use humio_operator.Cluster.Downscaling.Marking.{
  Action, Progress, NodeLabels, note, mark, set_evicted, unregister, record_node, delete_pod,
  handle_unmarked_evictions, mark_pod_for_eviction, vhost_of, match_pods_to_hosts,
}
use humio_operator.Cluster.Downscaling.Removal.{lingering_loop}
use humio_operator.Cluster.Downscaling.Keeping.{
  handle_unmarked_evictions-keeps, lingering_loop-keeps, mark_pod_for_eviction-keeps,
}
use humio_operator.Cluster.Downscaling.Composition.{
  and_then-keeps, if-keeps, remove_marked-removal_loop,
}
use humio_operator.Cluster.Downscaling.{
  Answers, fails, and_then, mark_one, remove_marked, downscale_marked, downscale_lingering,
  process_downscaling, get_pods_not_marked_for_eviction,
}
use humio_operator.Cluster.Downscaling.Keeping.Removing.{removal_loop-keeps}

abbrev pub is_eviction : Action → Bool
is_eviction (set_evicted v) = true
is_eviction _ = false

-- The number of evictions that were asked for.
abbrev evictions : Progress → ℕ
evictions p = count is_eviction p.actions

abbrev AtMost : ℕ → Progress → Type 0
AtMost n p = evictions p ≤ n

evictions-note :
    (x : Action) (p : Progress) → evictions (note x p) ≡ evictions p + count is_eviction (x ∷ [])
evictions-note x p = count-append is_eviction p.actions (x ∷ [])

AtMost-note :
    (n : ℕ) (x : Action) (p : Progress) → is_eviction x ≡ false → AtMost n p → AtMost n (note x p)
AtMost-note n x p h i = ground (arith, evictions-note x p)

AtMost-of_actions : (n : ℕ) (p q : Progress) → AtMost n p → q.actions ≡ p.actions → AtMost n q
AtMost-of_actions n p q i e = rw e i

module _ (hostname : String → Option String) (labels : NodeLabels) (node_count : ℤ)
    (a : Answers) where
  mark_one-AtMost :
      (unmarked marked : List Pod) (p : Progress)
      → AtMost 0 p
      → AtMost 1 (mark_one hostname labels node_count a unmarked marked p).0
  unfolding mark_one
  mark_one-AtMost unmarked marked p i =
      if-keeps (AtMost 1) _ (mark_pod_for_eviction hostname a.marking labels unmarked p)
        (p, some tt)
        (mark_pod_for_eviction-keeps (AtMost 1) hostname a.marking labels unmarked p (omega arith)
          (λ pod zone hosts _ _ _ _.
            let v = vhost_of (match_pods_to_hosts hostname unmarked hosts []) pod in
            let one : AtMost 1 (note (set_evicted v) p) =
              ground (arith, evictions-note (set_evicted v) p) in
            (one, AtMost-note 1 (mark pod v) (note (set_evicted v) p) refl one)))
        (omega arith)

  remove_marked-AtMost :
      (marked : List Pod) (p : Progress) → AtMost 1 p → AtMost 1 (remove_marked a marked p).0
  remove_marked-AtMost marked p i =
      subst (AtMost 1) (sym (remove_marked-removal_loop a marked p))
        (removal_loop-keeps (AtMost 1) (AtMost 1) (AtMost-of_actions 1)
          (λ v q r j e _. AtMost-of_actions 1 q r j e) a.removal marked false p
          (λ pod v _ _ _. (
            λ q j _. AtMost-note 1 (delete_pod pod) q refl j,
            λ q _ j. AtMost-note 1 (unregister v) q refl j,
            λ q j.
                AtMost-note 1 (record_node v) (record q { evicted = q.evicted ++ v ∷ [] }) refl j,
          ))
          i).0

  downscale_marked-AtMost :
      (unmarked : List Pod) (p : Progress)
      → AtMost 0 p
      → AtMost 1 (downscale_marked hostname labels node_count a unmarked p).0
  unfolding downscale_marked
  downscale_marked-AtMost unmarked p i =
      let marks =
        λ (l : List Pod) (q : Progress). mark_one hostname labels node_count a unmarked l q in
      and_then-keeps (AtMost 1) (p, a.marked_pods)
        (λ l q. and_then (marks l q) (λ _. remove_marked a l)) (omega arith)
        (λ l _.
          and_then-keeps (AtMost 1) (marks l p) (λ _. remove_marked a l)
            (mark_one-AtMost unmarked l p i)
            (λ _ _. remove_marked-AtMost l (marks l p).0 (mark_one-AtMost unmarked l p i)))

  downscale_lingering-AtMost :
      (unmarked : List Pod) (p : Progress)
      → AtMost 0 p
      → AtMost 1 (downscale_lingering hostname labels node_count a unmarked p).0
  unfolding downscale_lingering
  downscale_lingering-AtMost unmarked p i =
      let lingering = lingering_loop a.lingering p.evicted p in
      let j : AtMost 0 lingering.0 =
        lingering_loop-keeps (AtMost 0) a.lingering p.evicted p
          (λ v q r k e _. AtMost-of_actions 0 q r k e)
          (λ v q _ k. AtMost-note 0 (unregister v) q refl k) i in
      and_then-keeps (AtMost 1) lingering
        (λ _. downscale_marked hostname labels node_count a unmarked) (omega arith)
        (λ _ _. downscale_marked-AtMost unmarked lingering.0 j)

  -- One call asks LogScale to evict one node at most, whatever it is answered.
  pub process_downscaling-evictions :
      (evicted : List ℤ)
      → count is_eviction (process_downscaling hostname labels node_count a evicted).0.actions ≤ 1
  unfolding process_downscaling
  process_downscaling-evictions evicted =
      let start : Progress = record { evicted = evicted; actions = [] } in
      let handled = λ (l : List Pod) (p : Progress).
        handle_unmarked_evictions hostname a.update_fails a.hosts a.statuses l p in
      let next = λ (l : List Pod) (p : Progress).
        and_then (handled l p) (λ _. downscale_lingering hostname labels node_count a l) in
      if-keeps (AtMost 1) (not a.cluster_ok) (start, fails)
        (and_then (start, get_pods_not_marked_for_eviction a.pods) next) (omega arith)
        (and_then-keeps (AtMost 1) (start, get_pods_not_marked_for_eviction a.pods) next
          (omega arith)
          (λ l _.
            let i : AtMost 0 (handled l start).0 =
              handle_unmarked_evictions-keeps (AtMost 0) hostname a.update_fails a.hosts a.statuses
                l start
                (λ nodes map pod q _ _ _ k. AtMost-note 0 (mark pod (vhost_of map pod)) q refl k)
                (omega arith) in
            and_then-keeps (AtMost 1) (handled l start)
              (λ _. downscale_lingering hostname labels node_count a l) (omega arith)
              (λ _ _. downscale_lingering-AtMost l (handled l start).0 i)))
