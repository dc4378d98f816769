-- ===== src/Resources/Convergence.antt =====
-- Where repeated reconciliations lead, while all calls succeed.
pub mod Rounds
use humio_operator.Common.{
  ℕ, zero, suc, ◌≡◌, ◌⊎◌, inl, inr, Bool, true, false, [], ◌∷◌, ◌++◌, arith, Bool-cases, ◌∙◌,
  eq_refl, eq_iff,
}
use mathlib.Core.Path.{subst}
use humio_operator.Helpers.{contains_element}
use humio_operator.Helpers.Removal.{contains_element-append_self}
use humio_operator.Resources.{
  humio_finalizer, Resource, found, not_found, Answers, Controller, Ending, settles, requeues, Run,
  write_finalizers, set_state, report, past_finalizer, handle_resource, reconcile, state_exists,
  cluster_found,
}
use humio_operator.Resources.Deletion.{
  begin, IsSame, IsGuardedSame, report-IsGuardedSame, past_finalizer-IsGuardedSame, handled_lem,
}

-- All calls of the API server succeed.
abbrev pub calm : Answers
calm = record {
  cluster_ok = true;
  second_cluster = cluster_found;
  update_ok = true;
  status_ok = true;
  last_read_fails = false;
}

-- LogScale's calls succeed for the specs that are proper: a read tells whether the entity is there, and
-- a read after a write gives what was written.
pub record IsServing {ℓ κ μ} {S : Type ℓ} {E : Type κ} {W : Type μ} (c : Controller S E W)
    (proper : S → Bool) : Type (ℓ ⊔ κ ⊔ μ) where
  pub reads :
      (s : S) (w : W)
      → proper s ≡ true
      → (c.log_scale.get s w ≡ not_found) ⊎ ((e : E) × (c.log_scale.get s w ≡ found e))
  pub validates : (s : S) (w : W) → proper s ≡ true → c.log_scale.validate s w ≡ true
  pub get-normalize :
      (s : S) (w : W) → proper s ≡ true → c.log_scale.get (c.normalize s) w ≡ c.log_scale.get s w
  pub adds :
      (s : S) (w : W)
      → proper s ≡ true
      → c.log_scale.get s w ≡ not_found
      → (c.log_scale.add s w).1 ≡ true
  pub get-add :
      (s : S) (w : W)
      → proper s ≡ true
      → c.log_scale.get s w ≡ not_found
      → (e : E) × (c.log_scale.get s (c.log_scale.add s w).0 ≡ found e) × (c.as_expected s e ≡ true)
  pub updates :
      (s : S) (w : W) (e : E)
      → proper s ≡ true
      → c.log_scale.get s w ≡ found e
      → (c.log_scale.update (c.normalize s) w).1 ≡ true
  pub get-update :
      (s : S) (w : W) (e : E)
      → proper s ≡ true
      → c.log_scale.get s w ≡ found e
      → (e : E) × (c.log_scale.get s (c.log_scale.update (c.normalize s) w).0 ≡ found e)
        × (c.as_expected s e ≡ true)
  pub deletes :
      (s : S) (w : W) (e : E)
      → proper s ≡ true
      → c.log_scale.get s w ≡ found e
      → (c.log_scale.delete s w).1 ≡ true
  pub get-delete :
      (s : S) (w : W) (e : E)
      → proper s ≡ true
      → c.log_scale.get s w ≡ found e
      → c.log_scale.get s (c.log_scale.delete s w).0 ≡ not_found

module _ {ℓ κ μ} {S : Type ℓ} {E : Type κ} {W : Type μ} (c : Controller S E W) where
  -- So many reconciliations in a row: the resource stored, and LogScale's state.
  unfoldable pub rounds : ℕ → Resource S → W → Resource S × W
  rounds zero x w = (x, w)
  rounds (suc n) x w = let r = (reconcile c calm (begin x w)).0 in rounds n r.stored r.world

  -- LogScale has the entity as the resource describes it, and the resource says so and is guarded.
  pub record IsSynced (x : Resource S) (w : W) : Type (ℓ ⊔ κ ⊔ μ) where
    pub entity : E
    pub is_found : c.log_scale.get x.spec w ≡ found entity
    pub is_expected : c.as_expected x.spec entity ≡ true
    pub is_guarded : contains_element x.finalizers humio_finalizer ≡ true
    pub is_reported : x.state ≡ state_exists

module _ {ℓ κ μ} {S : Type ℓ} {E : Type κ} {W : Type μ} (c : Controller S E W) (proper : S → Bool)
    (serving : IsServing c proper) where
  abbrev step : Resource S → W → Run S W × Ending
  step x w = reconcile c calm (begin x w)

  -- While all calls succeed, a reconciliation of a resource that is in sync, is not to be deleted and has
  -- a valid and proper spec changes neither it nor LogScale, and returns with the requeue period.
  pub reconcile-IsSynced :
      (x : Resource S) (w : W)
      → x.deleting ≡ false
      → c.is_valid x.spec ≡ true
      → proper x.spec ≡ true
      → IsSynced c x w
      → ((reconcile c calm (begin x w)).0.stored ≡ x)
        × ((reconcile c calm (begin x w)).0.world ≡ w)
        × ((reconcile c calm (begin x w)).1 ≡ settles)
  unfolding reconcile handle_resource report set_state
  reconcile-IsSynced x w d v b h = ground (
    arith,
    d,
    v,
    h.is_found,
    h.is_expected,
    h.is_guarded,
    h.is_reported,
    serving.validates x.spec w b,
    serving.get-normalize x.spec w b,
    eq_refl state_exists,
  )
