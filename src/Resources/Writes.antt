-- ===== src/Resources/Writes.antt =====
-- What a reconciliation writes to LogScale.
use humio_operator.Common.{
  ◌≡◌, ◌⊎◌, inl, inr, String, Bool, true, false, not, [], ◌∷◌, ◌++◌, arith, ◌∙◌,
}
use humio_operator.Helpers.{contains_element}
use humio_operator.Resources.{
  humio_finalizer, Found, found, not_found, Resource, Answers, Controller, Ending, Run,
  write_finalizers, set_state, handle_deletion, ensure_entity, check_and_ensure, past_finalizer,
  handle_resource, after_config_error, compare_and_update, after_write, state_of_read, report,
  reconcile, state_config_failed,
}
use humio_operator.Resources.Deletion.{begin}

module _ {ℓ κ μ} {S : Type ℓ} {E : Type κ} {W : Type μ} (c : Controller S E W) where
  -- A read found an entity that is not as expected.
  abbrev pub is_different : S → Found E → Bool
  is_different s (found e) = not (c.as_expected s e)
  is_different s _ = false

  -- LogScale is as it was, or the entity was deleted, added or updated, each on its condition.
  pub data WritesOnce (x : Resource S) (w u : W) : Type (κ ⊔ μ) where
    leaves : u ≡ w → WritesOnce x w u
    deletes :
        u ≡ (c.log_scale.delete x.spec w).0
        → x.deleting ≡ true
        → contains_element x.finalizers humio_finalizer ≡ true
        → WritesOnce x w u
    adds :
        u ≡ (c.log_scale.add x.spec w).0
        → x.deleting ≡ false
        → c.is_valid x.spec ≡ true
        → c.log_scale.get x.spec w ≡ not_found
        → WritesOnce x w u
    updates :
        u ≡ (c.log_scale.update (c.normalize x.spec) w).0
        → x.deleting ≡ false
        → c.is_valid x.spec ≡ true
        → is_different x.spec (c.log_scale.get x.spec w) ≡ true
        → WritesOnce x w u

module _ {ℓ κ μ} {S : Type ℓ} {E : Type κ} {W : Type μ} (c : Controller S E W) (a : Answers) where
  set_state_world : (s : String) (r : Run S W) → (set_state a s r).0.world ≡ r.world
  unfolding set_state
  set_state_world s r = ground arith

  report_world : (p : Run S W × Ending) → (report c a p).0.world ≡ p.0.world
  unfolding report
  report_world (r, ret) =
      set_state_world (state_of_read c a (c.log_scale.get r.memory.spec r.world)) r

  -- The same of a run that stands anywhere, with the conditions that are known there.
  abbrev Ensures : Run S W → W → Type (κ ⊔ μ)
  Ensures r u =
      (u ≡ r.world)
      ⊎ (((u ≡ (c.log_scale.add r.memory.spec r.world).0)
            × (c.is_valid r.memory.spec ≡ true)
            × (c.log_scale.get r.memory.spec r.world ≡ not_found))
          ⊎ ((u ≡ (c.log_scale.update (c.normalize r.memory.spec) r.world).0)
              × (c.is_valid r.memory.spec ≡ true)
              × (is_different c r.memory.spec (c.log_scale.get r.memory.spec r.world) ≡ true)))

  check_and_ensure_world : (r : Run S W) → Ensures r (check_and_ensure c a r).0.world
  unfolding check_and_ensure ensure_entity after_config_error compare_and_update after_write
  check_and_ensure_world r = ground (arith, set_state_world state_config_failed r)

  past_finalizer_world : (r : Run S W) → Ensures r (past_finalizer c a r).0.world
  unfolding past_finalizer
  past_finalizer_world r =
      ground (arith, check_and_ensure_world r, report_world (check_and_ensure c a r))

  handle_resource_world :
      (x : Resource S) (w : W) → Ensures (begin x w) (handle_resource c a (begin x w)).0.world
  unfolding handle_resource write_finalizers
  handle_resource_world x w = ground (
    arith,
    past_finalizer_world (begin x w),
    past_finalizer_world (write_finalizers a (x.finalizers ++ humio_finalizer ∷ []) (begin x w)),
  )

  handle_deletion_world :
      (x : Resource S) (w : W)
      → ((handle_deletion c a (begin x w)).0.world ≡ w)
        ⊎ (((handle_deletion c a (begin x w)).0.world ≡ (c.log_scale.delete x.spec w).0)
            × (contains_element x.finalizers humio_finalizer ≡ true))
  unfolding handle_deletion write_finalizers
  handle_deletion_world x w = ground arith

  reconcile_world :
      (x : Resource S) (w : W)
      → ((reconcile c a (begin x w)).0.world ≡ w)
        ⊎ (((x.deleting ≡ true)
              × ((reconcile c a (begin x w)).0.world ≡ (handle_deletion c a (begin x w)).0.world))
            ⊎ ((x.deleting ≡ false)
                × ((reconcile c a (begin x w)).0.world
                    ≡ (handle_resource c a (begin x w)).0.world)))
  unfolding reconcile
  reconcile_world x w = ground (
    arith,
    set_state_world state_config_failed (begin x w),
    report_world (handle_deletion c a (begin x w)),
    report_world (handle_resource c a (begin x w)),
  )

  -- Whatever is answered, a reconciliation makes one of the calls that write at most: it deletes the entity only
  -- of a resource that is marked to be deleted and has the finalizer; and of one that is not marked and
  -- whose spec is valid it adds the entity only after a read answered that there is none, and updates
  -- it only after a read gave one that is not as expected.
  pub reconcile-WritesOnce :
      (x : Resource S) (w : W) → WritesOnce c x w (reconcile c a (begin x w)).0.world
  reconcile-WritesOnce x w = elim (reconcile_world x w) [
    | inl e ↦ leaves e
    | inr (inl (d, e)) ↦ elim (handle_deletion_world x w) [
      | inl p ↦ leaves (e ∙ p)
      | inr (p, f) ↦ deletes (e ∙ p) d f
    ]
    | inr (inr (d, e)) ↦ elim (handle_resource_world x w) [
      | inl p ↦ leaves (e ∙ p)
      | inr (inl (p, v, g)) ↦ adds (e ∙ p) d v g
      | inr (inr (p, v, g)) ↦ updates (e ∙ p) d v g
    ]
  ]
