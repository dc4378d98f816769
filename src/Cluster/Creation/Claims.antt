-- ===== src/Cluster/Creation/Claims.antt =====
-- How many pods are created, and which claims they get.
use humio_operator.Common.{
  ℕ, zero, suc, ◌-◌, ◌≤◌, ◌<◌, ◌≡◌, ◌≢◌, refl, sym, ◌∙◌, ap, ◌⊎◌, inl, inr, String, true, false,
  Option, none, some, List, [], ◌∷◌, length, arith, Option-cases,
}
use mathlib.Core.Path.{subst}
use humio_operator.Common.Int.{pos, pos_part}
use humio_operator.K8s.{Pod, VolumeSource}
use humio_operator.Cluster.Types.{HumioNodePool}
use humio_operator.Cluster.NodePool.{pvcs_enabled, data_volume_claim_source, get_node_count}
use humio_operator.Cluster.Pvc.{claim_of, claims_in_use}
use humio_operator.Cluster.Pvc.Available.{find_next_available_pvc_lem}
use humio_operator.Cluster.Creation.{
  Answers, new_pod_attachments, create_loop, after_creation, wait_for_new_pods, ensure_pods_exist,
  creation_panics, creation_failed,
}
use humio_operator.Cluster.Creation.Names.{
  is_among, claims_of, all_new, is_distinct, among-claims_in_use, among-free_named, all_new-cons,
}

module _ (pool : HumioNodePool) (pods : List Pod) where
  abbrev Taken : List String → VolumeSource × List String → Type 0
  Taken used (source, marked) =
      (c : String) × (claim_of source ≡ some c)
      × (marked ≡ c ∷ claims_in_use pods used)
      × (is_among (claims_in_use pods used) c ≡ false)

  attachments_lem :
      (used : List String) (a : Answers) (p : VolumeSource × List String)
      → pvcs_enabled pool ≡ true
      → new_pod_attachments pool pods used a ≡ some p
      → Taken used p
  unfolding new_pod_attachments data_volume_claim_source claim_of
  attachments_lem used a (source, marked) v h = elim (Option-cases a.claims) [
    | inl e ↦ absurd (ground (arith, v, h, e))
    | inr (claims, e) ↦ elim (find_next_available_pvc_lem claims pods used) [
      | inl (f, _) ↦ absurd (ground (arith, v, h, e, f))
      | inr (n, f, g) ↦ (
        n,
        ground (arith, v, h, e, f),
        ground (arith, v, h, e, f),
        among-free_named (claims_in_use pods used) n claims g,
      )
    ]
  ]

  -- The claims are new beside those given and those of the pods, and no claim stands twice.
  abbrev pub IsFresh : List String → List String → Type 0
  IsFresh used cs =
      (all_new used cs ≡ true)
      × (all_new (claims_in_use pods []) cs ≡ true)
      × (is_distinct cs ≡ true)

  IsFresh-cons :
      (used : List String) (c : String) (cs : List String)
      → is_among (claims_in_use pods used) c ≡ false
      → IsFresh (c ∷ claims_in_use pods used) cs
      → IsFresh used (c ∷ cs)
  IsFresh-cons used c cs h (new, _, apart) =
      ground (arith, h, apart, all_new-cons pods used c cs new, among-claims_in_use pods used c)

  module _ (answers : ℕ → Answers) where
    round_none :
        (n i : ℕ) (used : List String)
        → new_pod_attachments pool pods used (answers i) ≡ none
        → (create_loop pool pods answers (suc n) i used).pods ≡ []
    unfolding create_loop
    round_none n i used h = ground (arith, h)

    round_failed :
        (n i : ℕ) (used marked : List String) (source : VolumeSource)
        → new_pod_attachments pool pods used (answers i) ≡ some (source, marked)
        → (answers i).create source ≡ none
        → (create_loop pool pods answers (suc n) i used).pods ≡ []
    unfolding create_loop
    round_failed n i used marked source h k = ground (arith, h, k)

    round_created :
        (n i : ℕ) (used marked : List String) (source : VolumeSource) (pod : Pod)
        → new_pod_attachments pool pods used (answers i) ≡ some (source, marked)
        → (answers i).create source ≡ some pod
        → (create_loop pool pods answers (suc n) i used).pods
          ≡ (source, pod) ∷ (create_loop pool pods answers n (suc i) marked).pods
    unfolding create_loop
    round_created n i used marked source pod h k = ground (arith, h, k)

    claims_of_round :
        (source : VolumeSource) (pod : Pod) (c : String) (rest : List (VolumeSource × Pod))
        → claim_of source ≡ some c
        → claims_of ((source, pod) ∷ rest) ≡ c ∷ claims_of rest
    claims_of_round source pod c rest h = ground (arith, h)

    create_loop-IsFresh :
        (n i : ℕ) (used : List String)
        → pvcs_enabled pool ≡ true
        → IsFresh used (claims_of (create_loop pool pods answers n i used).pods)
    unfolding create_loop
    create_loop-IsFresh zero i used v = (refl, refl, refl)
    create_loop-IsFresh (suc n) i used v =
        elim (Option-cases (new_pod_attachments pool pods used (answers i))) [
          | inl e ↦
              subst (λ ps. IsFresh used (claims_of ps)) (sym (round_none n i used e))
                (refl, refl, refl)
          | inr ((source, marked), e) ↦ elim (Option-cases ((answers i).create source)) [
            | inl f ↦
                subst (λ ps. IsFresh used (claims_of ps))
                  (sym (round_failed n i used marked source e f)) (refl, refl, refl)
            | inr (pod, f) ↦
                let (c, p, q, u) = attachments_lem used (answers i) (source, marked) v e in
                let rest = create_loop pool pods answers n (suc i) marked in
                let later = create_loop-IsFresh n (suc i) marked v in
                subst (IsFresh used)
                  (sym (
                    ap claims_of (round_created n i used marked source pod e f)
                    ∙ claims_of_round source pod c rest.pods p))
                  (IsFresh-cons used c (claims_of rest.pods) u
                    (subst (λ m. IsFresh m (claims_of rest.pods)) q later))
          ]
        ]

    -- The round `i`, with the claims in use before it, or one of the `n - 1` rounds after it, with the
    -- claims that are then in use, fails: the attachments are not found, or the pod cannot be created.
    pub FailsIn : ℕ → ℕ → List String → Type 0
    FailsIn zero i used = ⊥
    FailsIn (suc n) i used =
        (new_pod_attachments pool pods used (answers i) ≡ none)
        ⊎ ((source : VolumeSource) × (marked : List String) × (new_pod_attachments pool pods used
                (answers i)
              ≡ some (source, marked))
            × (((answers i).create source ≡ none)
                ⊎ ((pod : Pod) × ((answers i).create source ≡ some pod)
                    × FailsIn n (suc i) marked)))

    created_at_most :
        (n i : ℕ) (used : List String) → length (create_loop pool pods answers n i used).pods ≤ n
    unfolding create_loop
    created_at_most zero i used = omega arith
    created_at_most (suc n) i used =
        elim (Option-cases (new_pod_attachments pool pods used (answers i))) [
          | inl e ↦ ground (arith, e)
          | inr ((source, marked), e) ↦ elim (Option-cases ((answers i).create source)) [
            | inl f ↦ ground (arith, e, f)
            | inr (pod, f) ↦ ground (arith, e, f, created_at_most n (suc i) marked)
          ]
        ]

    created_count :
        (n i : ℕ) (used : List String)
        → (FailsIn n i used
            × ((create_loop pool pods answers n i used).complete ≡ false)
            × (length (create_loop pool pods answers n i used).pods < n))
          ⊎ (((create_loop pool pods answers n i used).complete ≡ true)
              × (length (create_loop pool pods answers n i used).pods ≡ n))
    unfolding create_loop FailsIn
    created_count zero i used = inr (refl, refl)
    created_count (suc n) i used =
        elim (Option-cases (new_pod_attachments pool pods used (answers i))) [
          | inl e ↦ inl (inl e, ground (arith, e), ground (arith, e))
          | inr ((source, marked), e) ↦ elim (Option-cases ((answers i).create source)) [
            | inl f ↦
                inl (inr (source, marked, e, inl f), ground (arith, e, f), ground (arith, e, f))
            | inr (pod, f) ↦ elim (created_count n (suc i) marked) [
              | inl (h, c, l) ↦ inl (
                inr (source, marked, e, inr (pod, f, h)),
                ground (arith, e, f, c),
                ground (arith, e, f, l),
              )
              | inr (c, l) ↦ inr (ground (arith, e, f, c), ground (arith, e, f, l))
            ]
          ]
        ]

    -- In a pool with persistent claims, whatever the API server answers, the pods that one call
    -- creates get claims that differ from each other and from those that the pods of the pool have.
    pub ensure_pods_exist-IsFresh :
        (lists : ℕ → Option (List Pod))
        → pvcs_enabled pool ≡ true
        → (all_new (claims_in_use pods []) (claims_of (ensure_pods_exist pool pods answers lists).0)
            ≡ true)
          × (is_distinct (claims_of (ensure_pods_exist pool pods answers lists).0) ≡ true)
    unfolding ensure_pods_exist
    ensure_pods_exist-IsFresh lists v =
        ground (arith, create_loop-IsFresh (pos_part (get_node_count pool) - length pods) 1 [] v)

    complete_count :
        (n i : ℕ) (used : List String)
        → ((create_loop pool pods answers n i used).complete ≡ false)
          ⊎ (length (create_loop pool pods answers n i used).pods ≡ n)
    unfolding create_loop
    complete_count zero i used = inr refl
    complete_count (suc n) i used =
        elim (Option-cases (new_pod_attachments pool pods used (answers i))) [
          | inl e ↦ ground (arith, e)
          | inr ((source, marked), e) ↦ elim (Option-cases ((answers i).create source)) [
            | inl f ↦ ground (arith, e, f)
            | inr (pod, f) ↦ ground (arith, e, f, complete_count n (suc i) marked)
          ]
        ]

    no_panic :
        (lists : ℕ → Option (List Pod)) (nodes : ℕ)
        → get_node_count pool ≡ pos nodes
        → (ensure_pods_exist pool pods answers lists).1 ≢ creation_panics
    unfolding ensure_pods_exist after_creation wait_for_new_pods
    no_panic lists nodes h = ground (arith, h, complete_count (nodes - length pods) 1 [])

    -- Whatever the API server answers, one call brings a pool to its number of nodes at most. If one of
    -- the rounds that it makes fails, it lacks pods and the call ends with the error of the creation;
    -- else it brings the pool exactly to that number, and does not end so. A round fails if the
    -- attachments are not found beside the claims that are then in use, or the pod cannot be created. A
    -- pool that has so many pods or more gets none. The call never comes to the panic of waitForNewPods.
    pub ensure_pods_exist_exact :
        (lists : ℕ → Option (List Pod)) (nodes : ℕ)
        → get_node_count pool ≡ pos nodes
        → (length (ensure_pods_exist pool pods answers lists).0 ≤ nodes - length pods)
          × ((FailsIn (nodes - length pods) 1 []
                × ((ensure_pods_exist pool pods answers lists).1 ≡ creation_failed)
                × (length (ensure_pods_exist pool pods answers lists).0 < nodes - length pods))
              ⊎ (((ensure_pods_exist pool pods answers lists).1 ≢ creation_failed)
                  × (length (ensure_pods_exist pool pods answers lists).0 ≡ nodes - length pods)))
          × ((ensure_pods_exist pool pods answers lists).1 ≢ creation_panics)
    unfolding ensure_pods_exist after_creation wait_for_new_pods
    ensure_pods_exist_exact lists nodes h =
        let most = created_at_most (nodes - length pods) 1 [] in
        elim (created_count (nodes - length pods) 1 []) [
          | inl (f, c, l) ↦ (
            ground (arith, h, most),
            inl (f, ground (arith, h, c, l), ground (arith, h, l)),
            no_panic lists nodes h,
          )
          | inr (c, l) ↦ (
            ground (arith, h, most),
            inr (ground (arith, h, c, l), ground (arith, h, l)),
            no_panic lists nodes h,
          )
        ]
