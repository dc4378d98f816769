-- ===== src/Resources/Deletion.antt =====
-- What happens to a resource that is marked to be deleted.
use humio_operator.Common.{◌≡◌, ◌⊎◌, inl, inr, String, Bool, true, false, arith}
use humio_operator.Helpers.{contains_element}
use humio_operator.Resources.{
  humio_finalizer, Resource, not_found, Answers, Controller, Ending, Run, set_state, finalize,
  after_finalize, handle_deletion, ensure_entity, state_of_read, report, after_config_error,
  check_and_ensure, past_finalizer, handle_resource, reconcile, state_config_failed,
}

-- A reconciliation that has just read the resource.
abbrev pub begin {ℓ μ} : {S : Type ℓ} {W : Type μ} → Resource S → W → Run S W
begin x w = record { memory = x; stored = x; world = w }

-- Two versions of a resource that differ in the finalizers and the state at most, or in the state only.
abbrev pub IsSame {ℓ} : {S : Type ℓ} → Resource S → Resource S → Type ℓ
IsSame x y = (y.spec ≡ x.spec) × (y.deleting ≡ x.deleting)

abbrev pub IsGuardedSame {ℓ} : {S : Type ℓ} → Resource S → Resource S → Type ℓ
IsGuardedSame x y = (y.finalizers ≡ x.finalizers) × IsSame x y

module _ {ℓ κ μ} {S : Type ℓ} {E : Type κ} {W : Type μ} (c : Controller S E W) (a : Answers) where
  abbrev pub has_finalizer : Resource S → Bool
  has_finalizer x = contains_element x.finalizers humio_finalizer

  set_state-IsGuardedSame :
      (s : String) (r : Run S W) → IsGuardedSame r.stored (set_state a s r).0.stored
  unfolding set_state
  set_state-IsGuardedSame s r = ground arith

  pub report-IsGuardedSame :
      (p : Run S W × Ending) → IsGuardedSame p.0.stored (report c a p).0.stored
  unfolding report
  report-IsGuardedSame (r, returned) =
      set_state-IsGuardedSame (state_of_read c a (c.log_scale.get r.memory.spec r.world)) r

  after_finalize-IsGuardedSame :
      (r : Run S W) → IsGuardedSame r.stored (after_finalize c a (finalize c a r)).0.stored
  unfolding after_finalize finalize
  after_finalize-IsGuardedSame r = ground arith

  after_config_error-IsGuardedSame :
      (s : String) (r : Run S W) (ret : Ending)
      → IsGuardedSame r.stored (after_config_error c a (set_state a s r) ret).0.stored
  unfolding after_config_error
  after_config_error-IsGuardedSame s r ret = set_state-IsGuardedSame s r

  ensure_entity-IsGuardedSame :
      (r : Run S W) → IsGuardedSame r.stored (ensure_entity c a r).0.stored
  unfolding ensure_entity
  ensure_entity-IsGuardedSame r = ground arith

  check_and_ensure-IsGuardedSame :
      (r : Run S W) → IsGuardedSame r.stored (check_and_ensure c a r).0.stored
  unfolding check_and_ensure
  check_and_ensure-IsGuardedSame r =
      ground (arith, ensure_entity-IsGuardedSame r, set_state-IsGuardedSame state_config_failed r)

  pub past_finalizer-IsGuardedSame :
      (r : Run S W) → IsGuardedSame r.stored (past_finalizer c a r).0.stored
  unfolding past_finalizer
  past_finalizer-IsGuardedSame r =
      ground
        (arith, check_and_ensure-IsGuardedSame r, report-IsGuardedSame (check_and_ensure c a r))

  handle_resource-IsGuardedSame :
      (x : Resource S) (w : W)
      → has_finalizer x ≡ true
      → IsGuardedSame x (handle_resource c a (begin x w)).0.stored
  unfolding handle_resource
  handle_resource-IsGuardedSame x w h = ground (arith, h, past_finalizer-IsGuardedSame (begin x w))

  handle_deletion-IsGuardedSame :
      (x : Resource S) (w : W)
      → IsGuardedSame x (handle_deletion c a (begin x w)).0.stored
        ⊎ (c.log_scale.get x.spec w ≡ not_found)
  unfolding handle_deletion
  handle_deletion-IsGuardedSame x w = ground (arith, after_finalize-IsGuardedSame (begin x w))

  pub handled_lem :
      (x : Resource S) (w : W)
      → has_finalizer x ≡ true
      → IsGuardedSame x (reconcile c a (begin x w)).0.stored
        ⊎ ((x.deleting ≡ true) × (c.log_scale.get x.spec w ≡ not_found))
  unfolding reconcile
  handled_lem x w h = ground (
    arith,
    h,
    set_state-IsGuardedSame state_config_failed (begin x w),
    handle_deletion-IsGuardedSame x w,
    handle_resource-IsGuardedSame x w h,
    report-IsGuardedSame (handle_deletion c a (begin x w)),
    report-IsGuardedSame (handle_resource c a (begin x w)),
  )

  -- Whatever LogScale and the API server answer, a reconciliation takes the finalizer off a resource
  -- only if the resource is marked to be deleted and the client reports that its entity is not found.
  -- This need not mean that LogScale said so: for some kinds of resources the client reports it for
  -- every read that fails.
  pub finalizer_kept :
      (x : Resource S) (w : W)
      → contains_element x.finalizers humio_finalizer ≡ true
      → contains_element (reconcile c a (begin x w)).0.stored.finalizers humio_finalizer ≡ false
      → (x.deleting ≡ true) × (c.log_scale.get x.spec w ≡ not_found)
  finalizer_kept x w h k = elim (handled_lem x w h) [
    | inl (e, _) ↦ absurd (ground (arith, e, h, k))
    | inr p ↦ p
  ]
