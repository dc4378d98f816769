-- ===== src/Resources/Repository/Limits.antt =====
-- A read of a repository that fails, and a retention that overflows.
use humio_operator.Common.{◌≡◌, ◌⊎◌, ℕ, ◌*◌, ◌≤◌, true, none, count, arith, keep}
use humio_operator.Common.Int.{pos_part, pos}
use humio_operator.Helpers.{contains_element}
use humio_operator.Helpers.Removal.{is_text, other_than, remove_element_exact}
use humio_operator.Resources.{
  Resource, Answers, humio_finalizer, reconcile, handle_deletion, write_finalizers,
}
use humio_operator.Resources.Deletion.{begin}
use humio_operator.Resources.Numbers.{scale, wrap64}
use humio_operator.Resources.Repository.{
  RepositorySpec, RepositoryApi, get_repository, repository_controller, retention_in_millis,
}

module _ {μ} {W : Type μ} (api : RepositoryApi W) (a : Answers) (x : Resource RepositorySpec)
    (w : W) where
  -- If the read of a repository fails, for whatever reason, and its resource is marked to be deleted,
  -- then the finalizer is taken off and no call to delete the repository is made.
  pub repository_forgotten :
      a.cluster_ok ≡ true
      → a.update_ok ≡ true
      → x.deleting ≡ true
      → contains_element x.finalizers humio_finalizer ≡ true
      → count (is_text humio_finalizer) x.finalizers ≤ 1
      → api.get_repository x.spec.name w ≡ none
      → ((reconcile (repository_controller api) a (begin x w)).0.stored.finalizers
          ≡ keep (other_than humio_finalizer) x.finalizers)
        × ((reconcile (repository_controller api) a (begin x w)).0.world ≡ w)
  unfolding reconcile handle_deletion write_finalizers get_repository
  repository_forgotten c u d f k g =
      ground (arith, c, u, d, f, g, remove_element_exact x.finalizers humio_finalizer k)

-- The retention in milliseconds of a new repository is that many days up to 106751 of them. From 106752
-- to 213503 days it overflows and is not above 0.
pub retention_in_millis_exact :
    (days : ℕ)
    → days ≤ 213503
    → ((days ≤ 106751) × (retention_in_millis (pos days) ≡ pos (days * 86400000)))
      ⊎ ((106752 ≤ days) × (pos_part (retention_in_millis (pos days)) ≡ 0))
unfolding retention_in_millis scale wrap64
retention_in_millis_exact days h = ground (arith, h)
