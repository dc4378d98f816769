-- ===== src/Cluster/Downscaling/Keeping/Removing.antt =====
-- What every action keeps, the loop over the pods that are marked keeps.
use mathlib.Core.Path.{subst}
use humio_operator.Common.{
  ◌≡◌, refl, sym, ◌⊎◌, inl, inr, Bool, true, false, none, some, List, [], ◌∷◌, ◌++◌, arith,
  any-append, Bool-cases, Option-cases,
}
use humio_operator.Common.Int.{ℤ, eqb_ℤ, eqb_ℤ_iff}
use humio_operator.K8s.{Pod}
use humio_operator.Cluster.Eviction.{check_eviction_status_for_pod}
use humio_operator.Cluster.Downscaling.Marking.{
  Progress, Step, note, unregister, record_node, delete_pod,
}
use humio_operator.Cluster.Downscaling.Removal.{
  RemoveAnswers, contains, keep_track, delete_and_unregister, remove_evicted, remove_pod,
  annotated_vhost, removal_loop,
}
use humio_operator.Cluster.Downscaling.Keeping.{In, In-last, Shrinks, unregister_step-keeps}

-- A step leaves `K`, and `I` too if it is no error.
abbrev pub Leaves {ℓ} : {A : Type ℓ} → (Progress → Type 0) → (Progress → Type 0) → Step A → Type ℓ
Leaves I K s = K s.0 × ((s.1 ≡ none) ⊎ I s.0)

contains-append : (vs : List ℤ) (v : ℤ) → contains (vs ++ v ∷ []) v ≡ true
contains-append vs v =
    rw (any-append (λ w. eqb_ℤ w v) vs (v ∷ [])) (ground (arith, (eqb_ℤ_iff v v).1 refl))

module _ (status_fails : Bool) (vhost : ℤ) (p : Progress) where
  keep_track_known :
      contains p.evicted vhost ≡ true → keep_track status_fails vhost p ≡ (p, some tt)
  unfolding keep_track
  keep_track_known h = rw h

  abbrev tracked : Progress
  tracked = record p { evicted = p.evicted ++ vhost ∷ [] }

  keep_track_failed :
      contains p.evicted vhost ≡ false
      → status_fails ≡ true
      → keep_track status_fails vhost p ≡ (tracked, none)
  unfolding keep_track
  keep_track_failed h f = rw (h, f)

  keep_track_new :
      contains p.evicted vhost ≡ false
      → status_fails ≡ false
      → keep_track status_fails vhost p ≡ (note (record_node vhost) tracked, some tt)
  unfolding keep_track
  keep_track_new h f = rw (h, f)

module _ (I K : Progress → Type 0) (weakens : (q r : Progress) → I q → r.actions ≡ q.actions → K r)
    (shrinks : (v : ℤ) (q r : Progress) → I q → r.actions ≡ q.actions → Shrinks v q r → I r) where
  delete_and_unregister-keeps :
      (a : RemoveAnswers) (pod : Pod) (vhost : ℤ) (p : Progress)
      → I (note (delete_pod pod) p)
      → ((q : Progress) → In (delete_pod pod) q.actions → I q → I (note (unregister vhost) q))
      → I p
      → Leaves I K (delete_and_unregister a pod vhost p)
  unfolding delete_and_unregister
  delete_and_unregister-keeps a pod vhost p d u i = elim (Bool-cases a.delete_fails) [
    | inl e ↦ rw (e, delete_and_unregister) (weakens p p i refl, inl refl)
    | inr e ↦
        let kept =
          unregister_step-keeps I a.unregistering vhost (note (delete_pod pod) p)
            (λ q. shrinks vhost _ q d)
            (λ q same.
              u q (subst (In (delete_pod pod)) (sym same) (In-last p.actions (delete_pod pod)))) in
        rw (e, delete_and_unregister) (weakens _ _ kept refl, inr kept)
  ]

  remove_evicted-keeps :
      (a : RemoveAnswers) (pod : Pod) (vhost : ℤ) (p : Progress)
      → ((q : Progress) → I q → contains q.evicted vhost ≡ true → I (note (delete_pod pod) q))
      → ((q : Progress) → In (delete_pod pod) q.actions → I q → I (note (unregister vhost) q))
      → ((q : Progress)
          → I q
          → I (note (record_node vhost) (record q { evicted = q.evicted ++ vhost ∷ [] })))
      → I p
      → Leaves I K (remove_evicted a pod vhost p)
  unfolding remove_evicted
  remove_evicted-keeps a pod vhost p d u r i = elim (Bool-cases (contains p.evicted vhost)) [
    | inl e ↦
        rw (keep_track_known a.status_fails vhost p e, remove_evicted)
          (delete_and_unregister-keeps a pod vhost p (d p i e) u i)
    | inr e ↦ elim (Bool-cases a.status_fails) [
      | inl f ↦
          rw (keep_track_failed a.status_fails vhost p e f, remove_evicted)
            (weakens p _ i refl, inl refl)
      | inr f ↦
          rw (keep_track_new a.status_fails vhost p e f, remove_evicted)
            (delete_and_unregister-keeps a pod vhost _
              (d _ (r p i) (contains-append p.evicted vhost)) u (r p i))
    ]
  ]

  remove_pod-keeps :
      (a : RemoveAnswers) (pod : Pod) (vhost : ℤ) (before : Bool) (p : Progress)
      → (check_eviction_status_for_pod a.rounds vhost ≡ some true
          → ((q : Progress) → I q → contains q.evicted vhost ≡ true → I (note (delete_pod pod) q))
            × ((q : Progress) → In (delete_pod pod) q.actions → I q → I (note (unregister vhost) q))
            × ((q : Progress)
                → I q
                → I (note (record_node vhost) (record q { evicted = q.evicted ++ vhost ∷ [] }))))
      → I p
      → Leaves I K (remove_pod a pod vhost before p)
  unfolding remove_pod
  remove_pod-keeps a pod vhost before p k i =
      elim (Option-cases (check_eviction_status_for_pod a.rounds vhost)) [
        | inl e ↦ rw (e, remove_pod) (weakens p p i refl, inl refl)
        | inr (true, e) ↦
            let (d, u, r) = k e in rw (e, remove_pod) (remove_evicted-keeps a pod vhost p d u r i)
        | inr (false, e) ↦ rw (e, remove_pod) (weakens p p i refl, inr i)
      ]

  pub removal_loop-keeps :
      (answers : Pod → RemoveAnswers) (pods : List Pod) (before : Bool) (p : Progress)
      → ((pod : Pod) (vhost : ℤ)
          → In pod pods
          → annotated_vhost pod ≡ some vhost
          → check_eviction_status_for_pod (answers pod).rounds vhost ≡ some true
          → ((q : Progress) → I q → contains q.evicted vhost ≡ true → I (note (delete_pod pod) q))
            × ((q : Progress) → In (delete_pod pod) q.actions → I q → I (note (unregister vhost) q))
            × ((q : Progress)
                → I q
                → I (note (record_node vhost) (record q { evicted = q.evicted ++ vhost ∷ [] }))))
      → I p
      → Leaves I K (removal_loop answers pods before p)
  unfolding removal_loop
  removal_loop-keeps answers [] before p k i = (weakens p p i refl, inr i)
  removal_loop-keeps answers (pod ∷ pods) before p k i = elim (Option-cases (annotated_vhost pod)) [
    | inl e ↦ rw (e, removal_loop) (weakens p p i refl, inl refl)
    | inr (v, e) ↦
        let step = remove_pod (answers pod) pod v before p in
        let left = remove_pod-keeps (answers pod) pod v before p (k pod v (inl refl) e) i in
        elim (Option-cases step.1) [
          | inl o ↦ rw (e, o, removal_loop) (left.0, inl refl)
          | inr (now, o) ↦
              rw (e, o, removal_loop)
                (removal_loop-keeps answers pods now step.0 (λ x w h. k x w (inr h))
                  (elim left.1 [ inl bad ↦ absurd (cc (bad, o)) | inr good ↦ good ]))
        ]
  ]
