-- ===== src/Resources/Repository/Retention.antt =====
-- What the client does to the data of a repository, internal/humio/client.go.
use humio_operator.Common.{◌≡◌, String, Bool, false, Option}
use humio_operator.Resources.Numbers.{Float64}
use humio_operator.Resources.Repository.{
  RepositorySpec, RepositoryDetails, RepositoryApi, might_delete,
}

module _ {μ κ} {W : Type μ} (api : RepositoryApi W) (spec : RepositorySpec)
    (now : RepositoryDetails) (P : W → Type κ) where
  -- What is kept by the calls for the repository that do not delete data: all that do not touch the
  -- retentions, and those that change a retention in a way that deletes nothing.
  pub record IsHarmless : Type (μ ⊔ κ) where
    pub keeps_description :
        (d : String) (w : W) → P w → P (api.update_description_for_search_domain spec.name d w).0
    pub keeps_search : (b : Bool) (w : W) → P w → P (api.set_automatic_searching spec.name b w).0
    pub keeps_time :
        (r : Option Float64) (w : W)
        → might_delete now.time_based_retention r ≡ false
        → P w
        → P (api.update_time_based_retention spec.name r w).0
    pub keeps_storage :
        (r : Option Float64) (w : W)
        → might_delete now.storage_size_based_retention r ≡ false
        → P w
        → P (api.update_storage_based_retention spec.name r w).0
    pub keeps_ingest :
        (r : Option Float64) (w : W)
        → might_delete now.ingest_size_based_retention r ≡ false
        → P w
        → P (api.update_ingest_based_retention spec.name r w).0
