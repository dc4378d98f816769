-- ===== src/Cluster/Downscaling/Safety.antt =====
-- Why processDownscaling evicts, deletes and unregisters what it does.
use mathlib.Core.Path.{subst}
use humio_operator.Common.{
  ◌≡◌, refl, sym, ◌⊎◌, inl, inr, String, Bool, true, false, not, Option, some, List, [], ◌∷◌, ◌++◌,
  ◌&&◌, arith, keep, any-append, length, Bool-cases,
}
use humio_operator.Common.Int.{ℤ, pos, eqb_ℤ, eqb_ℤ_iff, ltb_ℤ}
use humio_operator.K8s.{Pod}
use humio_operator.Cluster.Eviction.{
  NodeStatus, check_eviction_status_for_pod, zone_for_pod_removal,
}
use humio_operator.Cluster.Downscaling.Marking.{
  Action, Host, Progress, NodeLabels, note, mark, set_evicted, unregister, record_node, delete_pod,
  handle_unmarked_evictions, is_evicting, match_pods_to_hosts, vhost_of, is_eligible,
}
use humio_operator.Cluster.Downscaling.Removal.{
  contains, annotated_vhost, lingering_loop, removal_loop,
}
use humio_operator.Cluster.Downscaling.Keeping.{
  In, In-last, In-append, Shrinks, handle_unmarked_evictions-keeps, lingering_loop-keeps,
  mark_pod_for_eviction-keeps,
}
use humio_operator.Cluster.Downscaling.Composition.{
  and_then-keeps, if-keeps, remove_marked-removal_loop, listed, listed_lem,
}
use humio_operator.Cluster.Downscaling.{
  Answers, fails, and_then, mark_one, remove_marked, downscale_marked, downscale_lingering,
  process_downscaling, get_pods_not_marked_for_eviction,
}
use humio_operator.Cluster.Downscaling.Keeping.Removing.{removal_loop-keeps}

In-append_last : {A : Type 0} (x a : A) (xs : List A) → In x (xs ++ a ∷ []) → In x xs ⊎ (x ≡ a)
In-append_last x a [] (inl e) = inr e
In-append_last x a [] (inr h) = elim h [ ]
In-append_last x a (y ∷ xs) (inl e) = inl (inl e)
In-append_last x a (y ∷ xs) (inr h) = elim (In-append_last x a xs h) [
  | inl i ↦ inl (inr i)
  | inr e ↦ inr e
]

contains-keep :
    (p : ℤ → Bool) (vs : List ℤ) (v : ℤ) → contains (keep p vs) v ≡ true → contains vs v ≡ true
contains-keep p [] v h = h
contains-keep p (w ∷ vs) v h = ground (arith, contains-keep p vs v)

contains-append_new :
    (vs : List ℤ) (v w : ℤ) → contains (vs ++ v ∷ []) w ≡ true → contains vs w ≡ false → v ≡ w
contains-append_new vs v w h k =
    ground (arith, any-append (λ u. eqb_ℤ u w) vs (v ∷ []), eqb_ℤ_iff v w)

mark_one_test :
    (node_count : ℤ) (unmarked marked : List Pod)
    → (ltb_ℤ node_count (pos (length unmarked)) && elim marked [ [] ↦ true | _ ∷ _ ↦ false ]) ≡ true
    → (ltb_ℤ node_count (pos (length unmarked)) ≡ true) × (marked ≡ [])
mark_one_test node_count unmarked [] h = (ground (arith, h), refl)
mark_one_test node_count unmarked (m ∷ ms) h = absurd (ground (arith, h))

-- What one call of processDownscaling is asked and answered.
module _ (hostname : String → Option String) (labels : NodeLabels) (node_count : ℤ) (a : Answers)
    (evicted : List ℤ) (unmarked marked : List Pod) where
  -- The data of the node that the pod is annotated with is gone, by LogScale's answers for it.
  abbrev pub IsGone : Pod → ℤ → Type 0
  IsGone pod v =
      In pod marked
      × (annotated_vhost pod ≡ some v)
      × (check_eviction_status_for_pod (a.removal pod).rounds v ≡ some true)

  -- The reason for an action, among all actions of the call.
  abbrev pub IsJustified : Action → List Action → Type 0
  IsJustified (set_evicted v) actions =
      (pod : Pod) × (zone : String) × (hosts : List Host) × (marked ≡ [])
      × (ltb_ℤ node_count (pos (length unmarked)) ≡ true)
      × In pod unmarked
      × (a.marking.hosts ≡ some hosts)
      × (zone_for_pod_removal labels unmarked ≡ some zone)
      × (is_eligible labels zone pod ≡ true)
      × (v ≡ vhost_of (match_pods_to_hosts hostname unmarked hosts []) pod)
  IsJustified (mark pod v) actions =
      In pod unmarked
      × (In (set_evicted v) actions
          ⊎ ((nodes : List NodeStatus) × (a.statuses ≡ some nodes)
              × (is_evicting nodes v ≡ some true)))
  IsJustified (unregister v) actions =
      In v evicted ⊎ ((pod : Pod) × IsGone pod v × In (delete_pod pod) actions)
  IsJustified (record_node v) actions = (pod : Pod) × IsGone pod v
  IsJustified (delete_pod pod) actions =
      (v : ℤ) × IsGone pod v × ((contains evicted v ≡ true) ⊎ In (record_node v) actions)

  abbrev AllJustified : Progress → Type 0
  AllJustified p = (x : Action) → In x p.actions → IsJustified x p.actions

  abbrev Tracked : Progress → Type 0
  Tracked p =
      (v : ℤ)
      → contains p.evicted v ≡ true
      → (contains evicted v ≡ true) ⊎ In (record_node v) p.actions

  abbrev IsSound : Progress → Type 0
  IsSound p = AllJustified p × Tracked p

  IsJustified-append :
      (x y : Action) (xs : List Action) → IsJustified x xs → IsJustified x (xs ++ y ∷ [])
  IsJustified-append (set_evicted v) y xs h = h
  IsJustified-append (mark pod v) y xs (i, inl h) = (i, inl (In-append _ xs _ h))
  IsJustified-append (mark pod v) y xs (i, inr h) = (i, inr h)
  IsJustified-append (unregister v) y xs (inl h) = inl h
  IsJustified-append (unregister v) y xs (inr (pod, g, h)) = inr (pod, g, In-append _ xs _ h)
  IsJustified-append (record_node v) y xs h = h
  IsJustified-append (delete_pod pod) y xs (v, g, inl h) = (v, g, inl h)
  IsJustified-append (delete_pod pod) y xs (v, g, inr h) = (v, g, inr (In-append _ xs _ h))

  note-AllJustified :
      (y : Action) (p : Progress)
      → AllJustified p
      → IsJustified y (p.actions ++ y ∷ [])
      → AllJustified (note y p)
  note-AllJustified y p i h x m = elim (In-append_last x y p.actions m) [
    | inl old ↦ IsJustified-append x y p.actions (i x old)
    | inr new ↦ subst (λ z. IsJustified z (p.actions ++ y ∷ [])) (sym new) h
  ]

  note-IsSound :
      (y : Action) (p : Progress)
      → IsSound p
      → IsJustified y (p.actions ++ y ∷ [])
      → IsSound (note y p)
  note-IsSound y p (i, t) h = (
    note-AllJustified y p i h,
    λ v m. elim (t v m) [ inl old ↦ inl old | inr new ↦ inr (In-append _ p.actions _ new) ],
  )

  AllJustified-of_actions : (p q : Progress) → IsSound p → q.actions ≡ p.actions → AllJustified q
  AllJustified-of_actions p q (i, t) e =
      subst (λ l. (x : Action) → In x l → IsJustified x l) (sym e) i

  shrink-IsSound :
      (v : ℤ) (p q : Progress) → IsSound p → q.actions ≡ p.actions → Shrinks v p q → IsSound q
  shrink-IsSound v p q (i, t) e s = (
    AllJustified-of_actions p q (i, t) e,
    λ w m.
        let before : contains p.evicted w ≡ true = elim s [
          | inl same ↦ subst (λ l. contains l w ≡ true) same m
          | inr fewer ↦ contains-keep _ p.evicted w (subst (λ l. contains l w ≡ true) fewer m)
        ] in
        subst (λ l. (contains evicted w ≡ true) ⊎ In (record_node w) l) (sym e) (t w before),
  )

  record-Tracked :
      (v : ℤ) (p : Progress)
      → IsSound p
      → (pod : Pod) → IsGone pod v
      → IsSound (note (record_node v) (record p { evicted = p.evicted ++ v ∷ [] }))
  record-Tracked v p (i, t) pod g = (
    note-AllJustified (record_node v) (record p { evicted = p.evicted ++ v ∷ [] }) i (pod, g),
    λ w m. elim (Bool-cases (contains p.evicted w)) [
      | inl old ↦ elim (t w old) [ inl o ↦ inl o | inr n ↦ inr (In-append _ p.actions _ n) ]
      | inr new ↦
          let same = contains-append_new p.evicted v w m new in
          inr (
            subst (λ u. In (record_node u) (p.actions ++ record_node v ∷ [])) same
              (In-last p.actions (record_node v)))
    ],
  )

  -- Also, the list of evicted nodes is still the one of the status.
  abbrev IsSoundStart : Progress → Type 0
  IsSoundStart p = IsSound p × (p.evicted ≡ evicted)

  handle_unmarked-IsSound :
      (p : Progress)
      → IsSoundStart p
      → IsSoundStart
          (handle_unmarked_evictions hostname a.update_fails a.hosts a.statuses unmarked p).0
  handle_unmarked-IsSound p i =
      handle_unmarked_evictions-keeps IsSoundStart hostname a.update_fails a.hosts a.statuses
        unmarked p
        (λ nodes map pod q f h k (j, same).
          (note-IsSound (mark pod (vhost_of map pod)) q j (h, inr (nodes, f, k)), same))
        i

  lingering_loop-IsSound :
      (p : Progress) → IsSoundStart p → IsSound (lingering_loop a.lingering p.evicted p).0
  lingering_loop-IsSound p (i, same) =
      lingering_loop-keeps IsSound a.lingering p.evicted p (λ v q r. shrink-IsSound v q r)
        (λ v q h j. note-IsSound (unregister v) q j (inl (subst (In v) same h))) i

  mark_one-IsSound :
      (p : Progress)
      → IsSound p
      → IsSound (mark_one hostname labels node_count a unmarked marked p).0
  unfolding mark_one
  mark_one-IsSound p i =
      elim (Bool-cases
        (ltb_ℤ node_count (pos (length unmarked)) && elim marked [ [] ↦ true | _ ∷ _ ↦ false ])) [
          | inl e ↦
              rw (e, mark_one)
                (mark_pod_for_eviction-keeps IsSound hostname a.marking labels unmarked p i
                  (λ pod zone hosts h o z k.
                    let v = vhost_of (match_pods_to_hosts hostname unmarked hosts []) pod in
                    let (few, none_marked) = mark_one_test node_count unmarked marked e in
                    let chosen =
                      note-IsSound (set_evicted v) p i
                        (pod, zone, hosts, none_marked, few, h, o, z, k, refl) in
                    (
                      chosen,
                      note-IsSound (mark pod v) (note (set_evicted v) p) chosen (
                        h,
                        inl (
                            In-append _ (p.actions ++ set_evicted v ∷ []) _
                              (In-last p.actions (set_evicted v))),
                      ),
                    )))
          | inr e ↦ rw (e, mark_one) i
        ]

  deletion :
      (pod : Pod) (v : ℤ) (q : Progress)
      → IsSound q
      → In pod marked
      → annotated_vhost pod ≡ some v
      → check_eviction_status_for_pod (a.removal pod).rounds v ≡ some true
      → contains q.evicted v ≡ true
      → IsJustified (delete_pod pod) (q.actions ++ delete_pod pod ∷ [])
  deletion pod v q (i, t) h e gone k = (
    v,
    (h, e, gone),
    elim (t v k) [ inl old ↦ inl old | inr new ↦ inr (In-append _ q.actions _ new) ],
  )

  removal_loop-AllJustified :
      (p : Progress) → IsSound p → AllJustified (removal_loop a.removal marked false p).0
  removal_loop-AllJustified p i =
      (removal_loop-keeps IsSound AllJustified AllJustified-of_actions shrink-IsSound a.removal
        marked false p
        (λ pod v h e gone. (
          λ q j k. note-IsSound (delete_pod pod) q j (deletion pod v q j h e gone k),
          λ q d j.
              note-IsSound (unregister v) q j (inr (pod, (h, e, gone), In-append _ q.actions _ d)),
          λ q j. record-Tracked v q j pod (h, e, gone),
        ))
        i).0

  downscale_marked-AllJustified :
      (p : Progress)
      → ((x : List Pod) → a.marked_pods ≡ some x → marked ≡ x)
      → IsSound p
      → AllJustified (downscale_marked hostname labels node_count a unmarked p).0
  unfolding downscale_marked
  downscale_marked-AllJustified p m i =
      and_then-keeps AllJustified (p, a.marked_pods)
        (λ l q.
          and_then (mark_one hostname labels node_count a unmarked l q) (λ _. remove_marked a l))
        i.0
        (λ x e.
          subst
            (λ l.
              AllJustified
                (and_then (mark_one hostname labels node_count a unmarked l p)
                  (λ _. remove_marked a l)).0)
            (m x e)
            (let chosen = mark_one hostname labels node_count a unmarked marked p in
              let j = mark_one-IsSound p i in
              and_then-keeps AllJustified chosen (λ _. remove_marked a marked) j.0
                (λ _ _.
                  subst AllJustified (sym (remove_marked-removal_loop a marked chosen.0))
                    (removal_loop-AllJustified chosen.0 j))))

  downscale_lingering-AllJustified :
      (p : Progress)
      → ((x : List Pod) → a.marked_pods ≡ some x → marked ≡ x)
      → IsSoundStart p
      → AllJustified (downscale_lingering hostname labels node_count a unmarked p).0
  unfolding downscale_lingering
  downscale_lingering-AllJustified p m i =
      let lingering = lingering_loop a.lingering p.evicted p in
      let j = lingering_loop-IsSound p i in
      and_then-keeps AllJustified lingering
        (λ _. downscale_marked hostname labels node_count a unmarked) j.0
        (λ _ _. downscale_marked-AllJustified lingering.0 m j)

  from_unmarked-AllJustified :
      (p : Progress)
      → ((x : List Pod) → a.marked_pods ≡ some x → marked ≡ x)
      → IsSoundStart p
      → AllJustified
          (and_then
            (handle_unmarked_evictions hostname a.update_fails a.hosts a.statuses unmarked p)
            (λ _. downscale_lingering hostname labels node_count a unmarked)).0
  from_unmarked-AllJustified p m i =
      let handled =
        handle_unmarked_evictions hostname a.update_fails a.hosts a.statuses unmarked p in
      let j = handle_unmarked-IsSound p i in
      and_then-keeps AllJustified handled
        (λ _. downscale_lingering hostname labels node_count a unmarked) j.0.0
        (λ _ _. downscale_lingering-AllJustified handled.0 m j)

-- Whatever LogScale and the API server answer, each action of one call has its reason. The eviction of
-- a node is asked for only if more unmarked pods are there than nodes are wanted and no pod is marked,
-- for the host of a pod in the zone to remove pods from. A pod is marked only if that was asked for its
-- node, or LogScale says that the node is being evicted. A node is unregistered only if the status
-- lists it as evicted, or it is the node of a marked pod that the call has deleted because its data is
-- gone. A pod is deleted only if it is marked, its data is gone, and its node is in the status, where
-- the call has written it if it was not there.
pub process_downscaling-IsJustified :
    (hostname : String → Option String) (labels : NodeLabels) (node_count : ℤ) (a : Answers)
    (evicted : List ℤ) (x : Action)
    → In x (process_downscaling hostname labels node_count a evicted).0.actions
    → IsJustified hostname labels node_count a evicted
        (listed (get_pods_not_marked_for_eviction a.pods))
        (listed a.marked_pods)
        x
        (process_downscaling hostname labels node_count a evicted).0.actions
unfolding process_downscaling
process_downscaling-IsJustified hostname labels node_count a evicted =
    let start : Progress = record { evicted = evicted; actions = [] } in
    let unmarked = listed (get_pods_not_marked_for_eviction a.pods) in
    let marked = listed a.marked_pods in
    let K = AllJustified hostname labels node_count a evicted unmarked marked in
    let at_start : K start = λ x m. absurd m in
    let next = λ (l : List Pod) (p : Progress).
      and_then (handle_unmarked_evictions hostname a.update_fails a.hosts a.statuses l p)
        (λ _. downscale_lingering hostname labels node_count a l) in
    if-keeps K (not a.cluster_ok) (start, fails)
      (and_then (start, get_pods_not_marked_for_eviction a.pods) next) at_start
      (and_then-keeps K (start, get_pods_not_marked_for_eviction a.pods) next at_start
        (λ l e.
          subst (λ l. K (next l start).0) (listed_lem _ l e)
            (from_unmarked-AllJustified hostname labels node_count a evicted unmarked marked start
              (listed_lem a.marked_pods) ((at_start, λ v m. inl m), refl))))
