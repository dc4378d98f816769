-- ===== src/Resources/Cleanup.antt =====
-- What repeated reconciliations do with a resource that is marked to be deleted, while all calls
-- succeed.
use humio_operator.Common.{
  ℕ, zero, suc, ◌≡◌, refl, inl, inr, String, Bool, true, false, List, ◌≤◌, arith, ◌∙◌, count, keep,
}
use humio_operator.Helpers.{contains_element}
use humio_operator.Helpers.Removal.{
  contains_element-keep, remove_element_exact, is_text, other_than,
}
use humio_operator.Resources.{
  humio_finalizer, Resource, found, not_found, Controller, Ending, requeues, rests, Run,
  write_finalizers, set_state, handle_deletion, report, reconcile,
}
use humio_operator.Resources.Deletion.{begin, IsGuardedSame, report-IsGuardedSame}
use humio_operator.Resources.Convergence.{calm, IsServing, rounds}

module _ {ℓ κ μ} {S : Type ℓ} {E : Type κ} {W : Type μ} (c : Controller S E W) (proper : S → Bool)
    (serving : IsServing c proper) where
  abbrev step : Resource S → W → Run S W × Ending
  step x w = reconcile c calm (begin x w)

  abbrev others : Resource S → List String
  others x = keep (other_than humio_finalizer) x.finalizers

  report_world : (p : Run S W × Ending) → (report c calm p).0.world ≡ p.0.world
  unfolding report set_state
  report_world p = ground arith

  -- The round that finds no entity takes the finalizer off.
  absent_round :
      (x : Resource S) (w : W)
      → x.deleting ≡ true
      → contains_element x.finalizers humio_finalizer ≡ true
      → count (is_text humio_finalizer) x.finalizers ≤ 1
      → c.log_scale.get x.spec w ≡ not_found
      → ((step x w).0.stored.finalizers ≡ others x)
        × ((step x w).0.stored.spec ≡ x.spec)
        × ((step x w).0.stored.deleting ≡ true)
        × ((step x w).0.world ≡ w)
  unfolding reconcile handle_deletion write_finalizers
  absent_round x w d f k g =
      let dropped = write_finalizers calm (others x) (begin x w) in
      ground (
        arith,
        d,
        f,
        g,
        remove_element_exact x.finalizers humio_finalizer k,
        report-IsGuardedSame c calm (dropped, requeues),
        report_world (dropped, requeues),
      )

  -- The round that finds the entity deletes it.
  present_round :
      (x : Resource S) (w : W) (e : E)
      → x.deleting ≡ true
      → proper x.spec ≡ true
      → contains_element x.finalizers humio_finalizer ≡ true
      → c.log_scale.get x.spec w ≡ found e
      → IsGuardedSame x (step x w).0.stored × ((step x w).0.world ≡ (c.log_scale.delete x.spec w).0)
  unfolding reconcile handle_deletion
  present_round x w e d b f g =
      let gone = record (begin x w) { world = (c.log_scale.delete x.spec w).0 } in
      ground (
        arith,
        d,
        f,
        g,
        serving.deletes x.spec w e b g,
        report-IsGuardedSame c calm (gone, requeues),
        report_world (gone, requeues),
      )

  -- A round without the finalizer changes the state at most.
  released_round :
      (x : Resource S) (w : W)
      → x.deleting ≡ true
      → contains_element x.finalizers humio_finalizer ≡ false
      → IsGuardedSame x (step x w).0.stored × ((step x w).0.world ≡ w)
  unfolding reconcile handle_deletion
  released_round x w d f =
      ground (
        arith,
        d,
        f,
        report-IsGuardedSame c calm (begin x w, rests),
        report_world (begin x w, rests),
      )

  released_rounds :
      (n : ℕ) (x : Resource S) (w : W)
      → x.deleting ≡ true
      → contains_element x.finalizers humio_finalizer ≡ false
      → ((rounds c n x w).0.finalizers ≡ x.finalizers)
        × ((rounds c n x w).0.spec ≡ x.spec)
        × ((rounds c n x w).1 ≡ w)
  unfolding rounds
  released_rounds zero x w d f = (refl, refl, refl)
  released_rounds (suc n) x w d f =
      let ((p, (s, k)), q) = released_round x w d f in
      let (p', s', q') =
        released_rounds n (step x w).0.stored (step x w).0.world (k ∙ d) (cc (p, f)) in
      (p' ∙ p, s' ∙ s, q' ∙ q)

  absent_rounds :
      (n : ℕ) (x : Resource S) (w : W)
      → x.deleting ≡ true
      → contains_element x.finalizers humio_finalizer ≡ true
      → count (is_text humio_finalizer) x.finalizers ≤ 1
      → c.log_scale.get x.spec w ≡ not_found
      → ((rounds c (suc n) x w).0.finalizers ≡ others x)
        × ((rounds c (suc n) x w).0.spec ≡ x.spec)
        × (c.log_scale.get x.spec (rounds c (suc n) x w).1 ≡ not_found)
  unfolding rounds
  absent_rounds n x w d f k g =
      let (p, s, k', q) = absent_round x w d f k g in
      let (p', s', q') =
        released_rounds n (step x w).0.stored (step x w).0.world k'
          (cc (p, contains_element-keep x.finalizers humio_finalizer)) in
      (p' ∙ p, s' ∙ s, cc (q, q', g))

  -- While all calls succeed, a resource with a proper spec that is marked to be deleted and has the
  -- finalizer once loses it, and no other one, within two reconciliations, and its entity is gone from
  -- LogScale then; both stay so.
  pub rounds-release :
      (n : ℕ) (x : Resource S) (w : W)
      → x.deleting ≡ true
      → proper x.spec ≡ true
      → contains_element x.finalizers humio_finalizer ≡ true
      → count (is_text humio_finalizer) x.finalizers ≤ 1
      → ((rounds c (suc (suc n)) x w).0.finalizers ≡ keep (other_than humio_finalizer) x.finalizers)
        × ((rounds c (suc (suc n)) x w).0.spec ≡ x.spec)
        × (c.log_scale.get x.spec (rounds c (suc (suc n)) x w).1 ≡ not_found)
  unfolding rounds
  rounds-release n x w d b f k = elim (serving.reads x.spec w b) [
    | inl g ↦ absent_rounds (suc n) x w d f k g
    | inr (e, g) ↦
        let ((p, (s, y)), q) = present_round x w e d b f g in
        let (p', s', q') =
          absent_rounds n (step x w).0.stored (step x w).0.world (y ∙ d) (cc (p, f))
            (ground (arith, p, k)) (cc (q, s, serving.get-delete x.spec w e b g)) in
        (cc (p, p'), s' ∙ s, cc (s, q'))
  ]
