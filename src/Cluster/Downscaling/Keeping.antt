-- ===== src/Cluster/Downscaling/Keeping.antt =====
-- What every action of processDownscaling keeps, each phase of the call keeps.
pub mod Removing
use mathlib.Core.Path.{subst}
use humio_operator.Common.{
  ℕ, zero, suc, ◌≡◌, refl, sym, ◌⊎◌, inl, inr, String, Bool, true, false, not, Option, none, some,
  List, [], ◌∷◌, ◌++◌, ◌==◌, arith, keep, any-append, Bool-cases, Option-cases,
}
use humio_operator.Common.Int.{ℤ, eqb_ℤ, eqb_ℤ_iff}
use humio_operator.Common.Map.{Map}
use humio_operator.K8s.{Pod}
use humio_operator.Cluster.Eviction.{
  NodeStatus, unregister_node, check_eviction_status_for_pod, zone_for_pod_removal,
}
use humio_operator.Cluster.Eviction.Nodes.{unregister_node_exact}
use humio_operator.Cluster.Downscaling.Marking.{
  Host, Progress, Step, NodeLabels, MarkAnswers, note, mark, set_evicted, unregister, record_node,
  delete_pod, is_evicting, evicting_rounds, update_eviction_status, unmarked_loop,
  handle_unmarked_evictions, match_pods_to_hosts, vhost_of, evict_chosen, is_eligible, mark_loop,
  mark_pod_for_eviction,
}
use humio_operator.Cluster.Downscaling.Removal.{
  UnregisterAnswers, RemoveAnswers, unregister_step, lingering_loop, contains, keep_track,
  delete_and_unregister, remove_evicted, remove_pod, annotated_vhost, removal_loop,
}

-- The element is in the list.
abbrev pub In : {A : Type 0} → A → List A → Type 0
In x [] = ⊥
In x (y ∷ ys) = (x ≡ y) ⊎ In x ys

pub In-last : {A : Type 0} (xs : List A) (x : A) → In x (xs ++ x ∷ [])
In-last [] x = inl refl
In-last (y ∷ ys) x = inr (In-last ys x)

pub In-append : {A : Type 0} (x : A) (xs ys : List A) → In x xs → In x (xs ++ ys)
In-append x [] ys h = elim h [ ]
In-append x (y ∷ xs) ys (inl e) = inl e
In-append x (y ∷ xs) ys (inr h) = inr (In-append x xs ys h)

evicting_rounds_lem :
    (m : ℕ) (nodes : List NodeStatus) (vhost : ℤ)
    → evicting_rounds m nodes vhost ≡ some true
    → is_evicting nodes vhost ≡ some true
unfolding evicting_rounds
evicting_rounds_lem zero nodes vhost h = cc
evicting_rounds_lem (suc m) nodes vhost h = ground (arith, evicting_rounds_lem m nodes vhost)

-- The list of evicted nodes is as it was, or without the node.
abbrev pub Shrinks : ℤ → Progress → Progress → Type 0
Shrinks vhost p q =
    (q.evicted ≡ p.evicted) ⊎ (q.evicted ≡ keep (λ v. not (eqb_ℤ v vhost)) p.evicted)

unregister_node-Shrinks :
    (a : UnregisterAnswers) (vhost : ℤ) (p : Progress)
    → Shrinks vhost p (record p {
      evicted = (unregister_node a.nodes a.response a.update_fails p.evicted vhost).evicted;
    })
unregister_node-Shrinks a vhost p = elim (Option-cases a.nodes) [
  | inl e ↦ inl (rw e (unfold unregister_node in refl))
  | inr (nodes, e) ↦ rw e (unregister_node_exact nodes a.response a.update_fails p.evicted vhost).1
]

module _ (I : Progress → Type 0) where
  pub update_eviction_status-keeps :
      (update_fails : String → Bool) (nodes : List NodeStatus) (pod : Pod) (vhost : ℤ)
      (p : Progress)
      → I p
      → (is_evicting nodes vhost ≡ some true → I (note (mark pod vhost) p))
      → I (update_eviction_status update_fails nodes pod vhost p).0
  unfolding update_eviction_status
  update_eviction_status-keeps update_fails nodes pod vhost p i k =
      elim (Option-cases (evicting_rounds 10 nodes vhost)) [
        | inl e ↦ rw (e, update_eviction_status) i
        | inr (true, e) ↦ elim (Bool-cases (update_fails pod.name)) [
          | inl f ↦ rw (e, f, update_eviction_status) i
          | inr f ↦ rw (e, f, update_eviction_status) (k (evicting_rounds_lem 10 nodes vhost e))
        ]
        | inr (false, e) ↦ rw (e, update_eviction_status) i
      ]

  pub unmarked_loop-keeps :
      (update_fails : String → Bool) (nodes : List NodeStatus) (map : Map ℤ) (pods : List Pod)
      (p : Progress)
      → ((pod : Pod) (q : Progress)
          → In pod pods
          → is_evicting nodes (vhost_of map pod) ≡ some true
          → I q
          → I (note (mark pod (vhost_of map pod)) q))
      → I p
      → I (unmarked_loop update_fails nodes map pods p).0
  unfolding unmarked_loop
  unmarked_loop-keeps update_fails nodes map [] p k i = i
  unmarked_loop-keeps update_fails nodes map (pod ∷ pods) p k i =
      let later = λ (x : Pod) (q : Progress) (h : In x pods). k x q (inr h) in
      let updated = update_eviction_status update_fails nodes pod (vhost_of map pod) p in
      let i' =
        update_eviction_status-keeps update_fails nodes pod (vhost_of map pod) p i
          (λ h. k pod p (inl refl) h i) in
      elim (Bool-cases (pod.spec.node_name == "")) [
        | inl e ↦ rw e (unmarked_loop-keeps update_fails nodes map pods p later i)
        | inr e ↦ elim (Option-cases updated.1) [
          | inl o ↦ rw (e, o) i'
          | inr (b, o) ↦
              rw (e, o) (unmarked_loop-keeps update_fails nodes map pods updated.0 later i')
        ]
      ]

  pub handle_unmarked_evictions-keeps :
      (hostname : String → Option String) (update_fails : String → Bool)
      (hosts : Option (List Host)) (statuses : Option (List NodeStatus)) (pods : List Pod)
      (p : Progress)
      → ((nodes : List NodeStatus) (map : Map ℤ) (pod : Pod) (q : Progress)
          → statuses ≡ some nodes
          → In pod pods
          → is_evicting nodes (vhost_of map pod) ≡ some true
          → I q
          → I (note (mark pod (vhost_of map pod)) q))
      → I p
      → I (handle_unmarked_evictions hostname update_fails hosts statuses pods p).0
  unfolding handle_unmarked_evictions
  handle_unmarked_evictions-keeps hostname update_fails none statuses pods p k i = i
  handle_unmarked_evictions-keeps hostname update_fails (some hosts) none pods p k i = i
  handle_unmarked_evictions-keeps hostname update_fails (some hosts) (some nodes) pods p k i =
      let map = match_pods_to_hosts hostname pods hosts [] in
      unmarked_loop-keeps update_fails nodes map pods p (λ pod q. k nodes map pod q refl) i

  pub unregister_step-keeps :
      (a : UnregisterAnswers) (vhost : ℤ) (p : Progress)
      → ((q : Progress) → q.actions ≡ p.actions → Shrinks vhost p q → I q)
      → ((q : Progress) → q.actions ≡ p.actions → I q → I (note (unregister vhost) q))
      → I (unregister_step a vhost p).0
  unfolding unregister_step
  unregister_step-keeps a vhost p shrunk k =
      let u = unregister_node a.nodes a.response a.update_fails p.evicted vhost in
      let q : Progress = record p { evicted = u.evicted } in
      let i = shrunk q refl (unregister_node-Shrinks a vhost p) in
      elim (Bool-cases u.asked) [ inl e ↦ rw e (k q refl i) | inr e ↦ rw e i ]

  pub lingering_loop-keeps :
      (answers : ℤ → UnregisterAnswers) (vhosts : List ℤ) (p : Progress)
      → ((v : ℤ) (q r : Progress) → I q → r.actions ≡ q.actions → Shrinks v q r → I r)
      → ((v : ℤ) (q : Progress) → In v vhosts → I q → I (note (unregister v) q))
      → I p
      → I (lingering_loop answers vhosts p).0
  unfolding lingering_loop
  lingering_loop-keeps answers [] p s k i = i
  lingering_loop-keeps answers (v ∷ vs) p s k i =
      let i' = unregister_step-keeps (answers v) v p (λ q. s v p q i) (λ q _. k v q (inl refl)) in
      let step = unregister_step (answers v) v p in
      elim (Option-cases step.1) [
        | inl o ↦ rw (o, lingering_loop) i'
        | inr (b, o) ↦
            rw (o, lingering_loop)
              (lingering_loop-keeps answers vs step.0 s (λ x q h. k x q (inr h)) i')
      ]

  pub evict_chosen-keeps :
      (a : MarkAnswers) (pod : Pod) (vhost : ℤ) (p : Progress)
      → I p
      → I (note (set_evicted vhost) p)
      → (I (note (set_evicted vhost) p) → I (note (mark pod vhost) (note (set_evicted vhost) p)))
      → I (evict_chosen a pod vhost p).0
  unfolding evict_chosen
  evict_chosen-keeps a pod vhost p i k l = elim (Bool-cases a.set_fails) [
    | inl e ↦ rw (e, evict_chosen) i
    | inr e ↦ elim (Option-cases a.statuses) [
      | inl o ↦ rw (e, o, evict_chosen) k
      | inr (nodes, o) ↦
          rw (e, o, evict_chosen)
            (update_eviction_status-keeps a.update_fails nodes pod vhost
              (note (set_evicted vhost) p) k (λ _. l k))
    ]
  ]

  pub mark_loop-keeps :
      (a : MarkAnswers) (labels : NodeLabels) (map : Map ℤ) (zone : String) (pods : List Pod)
      (p : Progress)
      → I p
      → ((pod : Pod)
          → In pod pods
          → is_eligible labels zone pod ≡ true
          → I (note (set_evicted (vhost_of map pod)) p)
            × I (note (mark pod (vhost_of map pod)) (note (set_evicted (vhost_of map pod)) p)))
      → I (mark_loop a labels map zone pods p).0
  unfolding mark_loop
  mark_loop-keeps a labels map zone [] p i k = i
  mark_loop-keeps a labels map zone (pod ∷ pods) p i k =
      elim (Bool-cases (is_eligible labels zone pod)) [
        | inl e ↦
            let (x, y) = k pod (inl refl) e in
            rw (e, mark_loop) (evict_chosen-keeps a pod (vhost_of map pod) p i x (λ _. y))
        | inr e ↦
            rw (e, mark_loop) (mark_loop-keeps a labels map zone pods p i (λ q h. k q (inr h)))
      ]

  pub mark_pod_for_eviction-keeps :
      (hostname : String → Option String) (a : MarkAnswers) (labels : NodeLabels) (pods : List Pod)
      (p : Progress)
      → I p
      → ((pod : Pod) (zone : String) (hosts : List Host)
          → In pod pods
          → a.hosts ≡ some hosts
          → zone_for_pod_removal labels pods ≡ some zone
          → is_eligible labels zone pod ≡ true
          → let vhost = vhost_of (match_pods_to_hosts hostname pods hosts []) pod in
            I (note (set_evicted vhost) p) × I (note (mark pod vhost) (note (set_evicted vhost) p)))
      → I (mark_pod_for_eviction hostname a labels pods p).0
  unfolding mark_pod_for_eviction
  mark_pod_for_eviction-keeps hostname a labels pods p i k = elim (Bool-cases a.cluster_ok) [
    | inr e ↦ rw (e, mark_pod_for_eviction) i
    | inl e ↦ elim (Option-cases a.hosts) [
      | inl o ↦ rw (e, o, mark_pod_for_eviction) i
      | inr (hosts, o) ↦ elim (Option-cases (zone_for_pod_removal labels pods)) [
        | inl z ↦ rw (e, o, z, mark_pod_for_eviction) i
        | inr (zone, z) ↦
            rw (e, o, z, mark_pod_for_eviction)
              (mark_loop-keeps a labels (match_pods_to_hosts hostname pods hosts []) zone pods p i
                (λ pod h. k pod zone hosts h o z))
      ]
    ]
  ]
