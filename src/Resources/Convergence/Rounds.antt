-- ===== src/Resources/Convergence/Rounds.antt =====
-- From the first reconciliation to a resource in sync.
use humio_operator.Common.{
  ℕ, zero, suc, ◌≡◌, inl, inr, Bool, true, false, [], ◌∷◌, ◌++◌, arith, Bool-cases, ◌∙◌, eq_iff,
}
use mathlib.Core.Path.{subst}
use humio_operator.Helpers.{contains_element}
use humio_operator.Helpers.Removal.{contains_element-append_self}
use humio_operator.Resources.{
  humio_finalizer, Resource, found, not_found, Controller, Ending, requeues, Run, write_finalizers,
  set_state, report, past_finalizer, handle_resource, reconcile, state_exists,
}
use humio_operator.Resources.Deletion.{
  begin, IsSame, IsGuardedSame, report-IsGuardedSame, past_finalizer-IsGuardedSame, handled_lem,
}
use humio_operator.Resources.Convergence.{calm, IsServing, rounds, IsSynced, reconcile-IsSynced}

module _ {ℓ κ μ} {S : Type ℓ} {E : Type κ} {W : Type μ} (c : Controller S E W) (proper : S → Bool)
    (serving : IsServing c proper) where
  abbrev step : Resource S → W → Run S W × Ending
  step x w = reconcile c calm (begin x w)

  in_sync : Resource S → Resource S
  in_sync x = record x { state = state_exists }

  -- From an entity as it is expected on, or after a write, the state is reported.
  guarded_found :
      (x : Resource S) (w : W) (e : E)
      → x.deleting ≡ false
      → c.is_valid x.spec ≡ true
      → proper x.spec ≡ true
      → contains_element x.finalizers humio_finalizer ≡ true
      → c.log_scale.get x.spec w ≡ found e
      → c.as_expected x.spec e ≡ true
      → ((step x w).0.stored ≡ in_sync x) × ((step x w).0.world ≡ w)
  unfolding reconcile handle_resource report set_state in_sync
  guarded_found x w e d v b f g k = ground (
    arith,
    serving.validates x.spec w b,
    serving.get-normalize x.spec w b,
    eq_iff x.state state_exists,
  )

  guarded_differs :
      (x : Resource S) (w : W) (e : E)
      → x.deleting ≡ false
      → c.is_valid x.spec ≡ true
      → proper x.spec ≡ true
      → contains_element x.finalizers humio_finalizer ≡ true
      → c.log_scale.get x.spec w ≡ found e
      → c.as_expected x.spec e ≡ false
      → ((step x w).0.stored ≡ in_sync x)
        × ((step x w).0.world ≡ (c.log_scale.update (c.normalize x.spec) w).0)
  unfolding reconcile handle_resource report set_state in_sync
  guarded_differs x w e d v b f g k =
      let u = (c.log_scale.update (c.normalize x.spec) w).0 in
      let (e', q, m) = serving.get-update x.spec w e b g in
      ground (
        arith,
        q,
        serving.validates x.spec w b,
        serving.updates x.spec w e b g,
        serving.get-normalize x.spec u b,
        eq_iff x.state state_exists,
      )

  guarded_missing :
      (x : Resource S) (w : W)
      → x.deleting ≡ false
      → c.is_valid x.spec ≡ true
      → proper x.spec ≡ true
      → contains_element x.finalizers humio_finalizer ≡ true
      → c.log_scale.get x.spec w ≡ not_found
      → ((step x w).0.stored ≡ in_sync x) × ((step x w).0.world ≡ (c.log_scale.add x.spec w).0)
  unfolding reconcile handle_resource report set_state in_sync
  guarded_missing x w d v b f g =
      let (e, q, m) = serving.get-add x.spec w b g in
      ground (arith, q, serving.adds x.spec w b g, eq_iff x.state state_exists)

  IsSynced-of :
      (x : Resource S) (w u : W) (r : Run S W) (e : E)
      → (r.stored ≡ in_sync x) × (r.world ≡ u)
      → c.log_scale.get x.spec u ≡ found e
      → c.as_expected x.spec e ≡ true
      → contains_element x.finalizers humio_finalizer ≡ true
      → IsSynced c r.stored r.world
  unfolding in_sync
  IsSynced-of x w u r e (p, q) g k f = record {
    entity = e;
    is_found = ground (arith, p, q, g);
    is_expected = ground (arith, p, k);
    is_guarded = ground (arith, p, f);
    is_reported = ground (arith, p);
  }

  guarded_round :
      (x : Resource S) (w : W)
      → x.deleting ≡ false
      → c.is_valid x.spec ≡ true
      → proper x.spec ≡ true
      → contains_element x.finalizers humio_finalizer ≡ true
      → IsSynced c (step x w).0.stored (step x w).0.world
  guarded_round x w d v b f = elim (serving.reads x.spec w b) [
    | inl g ↦
        let (e, q, m) = serving.get-add x.spec w b g in
        IsSynced-of x w (c.log_scale.add x.spec w).0 (step x w).0 e (guarded_missing x w d v b f g)
          q m f
    | inr (e, g) ↦ elim (Bool-cases (c.as_expected x.spec e)) [
      | inl k ↦ IsSynced-of x w w (step x w).0 e (guarded_found x w e d v b f g k) g k f
      | inr k ↦
          let (e', q, m) = serving.get-update x.spec w e b g in
          IsSynced-of x w (c.log_scale.update (c.normalize x.spec) w).0 (step x w).0 e'
            (guarded_differs x w e d v b f g k) q m f
    ]
  ]

  -- A resource without the finalizer gets it in the first round.
  first_round :
      (x : Resource S) (w : W)
      → x.deleting ≡ false
      → contains_element x.finalizers humio_finalizer ≡ false
      → ((step x w).0.stored.finalizers ≡ x.finalizers ++ humio_finalizer ∷ [])
        × IsSame x (step x w).0.stored
  unfolding reconcile handle_resource write_finalizers
  first_round x w d f =
      let added = write_finalizers calm (x.finalizers ++ humio_finalizer ∷ []) (begin x w) in
      ground (
        arith,
        d,
        f,
        past_finalizer-IsGuardedSame c calm added,
        report-IsGuardedSame c calm (past_finalizer c calm added),
        report-IsGuardedSame c calm (added, requeues),
      )

  handled_same :
      (x : Resource S) (w : W)
      → x.deleting ≡ false
      → contains_element x.finalizers humio_finalizer ≡ true
      → IsGuardedSame x (step x w).0.stored
  handled_same x w d f = elim (handled_lem c calm x w f) [
    | inl h ↦ h
    | inr (e, _) ↦ absurd (cc (d, e))
  ]

  abbrev AfterRounds : ℕ → Resource S → W → Type (ℓ ⊔ κ ⊔ μ)
  AfterRounds n x w = IsSynced c (rounds c n x w).0 (rounds c n x w).1

  stays :
      (n : ℕ) (x : Resource S) (w : W)
      → x.deleting ≡ false
      → c.is_valid x.spec ≡ true
      → proper x.spec ≡ true
      → IsSynced c x w
      → AfterRounds n x w
  unfolding rounds
  stays zero x w d v b h = h
  stays (suc n) x w d v b h =
      let (p, q, _) = reconcile-IsSynced c proper serving x w d v b h in
      subst {A = Resource S × W} (λ y. AfterRounds n y.0 y.1) (cc (p, q)) (stays n x w d v b h)

  guarded_rounds :
      (n : ℕ) (x : Resource S) (w : W)
      → x.deleting ≡ false
      → c.is_valid x.spec ≡ true
      → proper x.spec ≡ true
      → contains_element x.finalizers humio_finalizer ≡ true
      → AfterRounds (suc n) x w
  unfolding rounds
  guarded_rounds n x w d v b f =
      let (_, (s, k)) = handled_same x w d f in
      stays n (step x w).0.stored (step x w).0.world (k ∙ d) (ground (arith, s, v))
        (ground (arith, s, b)) (guarded_round x w d v b f)

  -- While all calls succeed, a resource that is not to be deleted and whose spec is valid, and proper for
  -- LogScale, is in sync with LogScale from the second reconciliation on, whatever LogScale held before.
  pub rounds-IsSynced :
      (n : ℕ) (x : Resource S) (w : W)
      → x.deleting ≡ false
      → c.is_valid x.spec ≡ true
      → proper x.spec ≡ true
      → IsSynced c (rounds c (suc (suc n)) x w).0 (rounds c (suc (suc n)) x w).1
  unfolding rounds
  rounds-IsSynced n x w d v b = elim (Bool-cases (contains_element x.finalizers humio_finalizer)) [
    | inl f ↦ guarded_rounds (suc n) x w d v b f
    | inr f ↦
        let (p, (s, k)) = first_round x w d f in
        guarded_rounds n (step x w).0.stored (step x w).0.world (k ∙ d) (ground (arith, s, v))
          (ground (arith, s, b))
          (ground (arith, p, contains_element-append_self x.finalizers humio_finalizer))
  ]
