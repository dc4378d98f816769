-- ===== src/Resources/Repository.antt =====
-- Repositories: internal/controller/humiorepository_controller.go, and the methods for repositories of
-- internal/humio/client.go. LogScale's GraphQL calls are an interface over a state of its own.
pub mod Retention
pub mod Limits
use humio_operator.Common.{
  ℕ, suc, ◌+◌, ◌-◌, ◌*◌, ◌/◌, ◌%◌, ◌^◌, String, Bool, true, false, not, Option, none, some, List,
  [], ◌∷◌, ◌==◌, ◌&&◌, ◌||◌, is_some, if◌then◌else◌, ltb,
}
use humio_operator.Common.Int.{ℤ, pos, negsuc, ltb_ℤ, eqb_ℤ, sub_ℕ, quot}
use humio_operator.Resources.{Found, found, not_found, failed, LogScale, Controller, state_unknown}
use humio_operator.Resources.Numbers.{scale, wrap64, Float64, same_float, less_float}
use humio_operator.Resources.Compare.{
  same_bool, same_text, same_option, bool_true, as_expected_of, and_then,
}

-- float64 of an int32, which is exact.
abbrev pub float64 : ℤ → Float64
float64 z = record { numerator = z; halvings = 0 }

-- Int32PtrToFloat64Ptr
unfoldable pub int32_ptr_to_float64_ptr : Option ℤ → Option Float64
int32_ptr_to_float64_ptr none = none
int32_ptr_to_float64_ptr (some z) = some (float64 z)

-- HumioRepositorySpec, with HumioRetention
pub record RepositorySpec : Type 0 where
  pub name : String
  pub description : String
  pub time_in_days : Option ℤ
  pub ingest_size_in_gb : Option ℤ
  pub storage_size_in_gb : Option ℤ
  pub allow_data_deletion : Bool
  pub automatic_search : Option Bool

-- RepositoryDetails, as far as it is compared
pub record RepositoryDetails : Type 0 where
  pub description : Option String
  pub time_based_retention : Option Float64
  pub ingest_size_based_retention : Option Float64
  pub storage_size_based_retention : Option Float64
  pub automatic_search : Bool

-- The GraphQL calls that the client makes for repositories. A read answers nothing on an error, also
-- on one of the network; a write answers whether it succeeded.
pub record RepositoryApi {μ} (W : Type μ) : Type μ where
  pub get_repository : String → W → Option RepositoryDetails
  pub create_repository : String → W → W × Bool
  pub create_repository_with_retention : String → Option ℤ → Option ℤ → Option ℤ → W → W × Bool
  pub update_description_for_search_domain : String → String → W → W × Bool
  pub update_time_based_retention : String → Option Float64 → W → W × Bool
  pub update_storage_based_retention : String → Option Float64 → W → W × Bool
  pub update_ingest_based_retention : String → Option Float64 → W → W × Bool
  pub set_automatic_searching : String → Bool → W → W × Bool
  pub delete_search_domain : String → W → W × Bool

-- repositoryAlreadyAsExpected
unfoldable pub repository_already_as_expected : RepositorySpec → RepositoryDetails → Bool
repository_already_as_expected spec r = as_expected_of (
    ("description", same_option same_text r.description (some spec.description))
    ∷ (
      "timeInDays",
      same_option same_float r.time_based_retention (int32_ptr_to_float64_ptr spec.time_in_days),
    )
    ∷ (
      "ingestSizeInGB",
      same_option same_float r.ingest_size_based_retention
          (int32_ptr_to_float64_ptr spec.ingest_size_in_gb),
    )
    ∷ (
      "storageSizeInGB",
      same_option same_float r.storage_size_based_retention
          (int32_ptr_to_float64_ptr spec.storage_size_in_gb),
    )
    ∷ ("automaticSearch", same_bool r.automatic_search (bool_true spec.automatic_search))
    ∷ [])

-- `duration.Milliseconds()` of `time.Duration(days) * time.Hour * 24`
unfoldable pub retention_in_millis : ℤ → ℤ
unfolding scale wrap64
retention_in_millis days = quot (wrap64 (scale (wrap64 (scale days 3600000000000)) 24)) 1000000

-- `int64(gb) * 1024 * 1024 * 1024`
unfoldable pub size_in_bytes : ℤ → ℤ
unfolding scale wrap64
size_in_bytes gb = wrap64 (scale (wrap64 (scale (wrap64 (scale gb 1024)) 1024)) 1024)

map_option : (ℤ → ℤ) → Option ℤ → Option ℤ
map_option f none = none
map_option f (some z) = some (f z)

-- The condition under which a change of a retention needs AllowDataDeletion.
unfoldable pub might_delete : Option Float64 → Option Float64 → Bool
might_delete current none = false
might_delete none (some desired) = less_float (float64 (pos 0)) desired
might_delete (some now) (some desired) =
    less_float (float64 (pos 0)) desired && less_float desired now

module _ {μ} {W : Type μ} (api : RepositoryApi W) where
  -- GetRepository, which gives RepositoryNotFound for every error.
  unfoldable pub get_repository : RepositorySpec → W → Found RepositoryDetails
  get_repository spec w = elim (api.get_repository spec.name w) [
    | none ↦ not_found
    | some r ↦ found r
  ]

  -- AddRepository
  unfoldable pub add_repository : RepositorySpec → W → W × Bool
  unfolding map_option
  add_repository spec w =
      if is_some spec.time_in_days
        || is_some spec.ingest_size_in_gb
        || is_some spec.storage_size_in_gb
      then api.create_repository_with_retention spec.name
          (map_option retention_in_millis spec.time_in_days)
          (map_option size_in_bytes spec.ingest_size_in_gb)
          (map_option size_in_bytes spec.storage_size_in_gb) w
      else api.create_repository spec.name w

  -- One of the three parts of UpdateRepository that change a retention, with the call it makes.
  update_retention :
      Bool → Option Float64 → Option Float64 → (Option Float64 → W → W × Bool) → W → W × Bool
  update_retention allow current desired call w =
      if same_option same_float current desired
      then (w, true)
      else if might_delete current desired && not allow
      then (w, false)
      else call desired w

  update_description : RepositorySpec → RepositoryDetails → W → W × Bool
  update_description spec now w =
      if same_option same_text now.description (some spec.description)
      then (w, true)
      else api.update_description_for_search_domain spec.name spec.description w

  update_search : RepositorySpec → RepositoryDetails → W → W × Bool
  update_search spec now w =
      if same_bool now.automatic_search (bool_true spec.automatic_search)
      then (w, true)
      else api.set_automatic_searching spec.name (bool_true spec.automatic_search) w

  update_time : RepositorySpec → RepositoryDetails → W → W × Bool
  unfolding update_retention
  update_time spec now =
      update_retention spec.allow_data_deletion now.time_based_retention
        (int32_ptr_to_float64_ptr spec.time_in_days) (api.update_time_based_retention spec.name)

  update_storage : RepositorySpec → RepositoryDetails → W → W × Bool
  unfolding update_retention
  update_storage spec now =
      update_retention spec.allow_data_deletion now.storage_size_based_retention
        (int32_ptr_to_float64_ptr spec.storage_size_in_gb)
        (api.update_storage_based_retention spec.name)

  update_ingest : RepositorySpec → RepositoryDetails → W → W × Bool
  unfolding update_retention
  update_ingest spec now =
      update_retention spec.allow_data_deletion now.ingest_size_based_retention
        (int32_ptr_to_float64_ptr spec.ingest_size_in_gb)
        (api.update_ingest_based_retention spec.name)

  -- UpdateRepository, past the read.
  update_from : RepositorySpec → RepositoryDetails → W → W × Bool
  unfolding update_description update_search update_time update_storage update_ingest
  update_from spec now w = and_then (update_description spec now w) (λ w.
      and_then (update_time spec now w) (λ w.
        and_then (update_storage spec now w)
          (λ w. and_then (update_ingest spec now w) (update_search spec now))))

  -- UpdateRepository
  unfoldable pub update_repository : RepositorySpec → W → W × Bool
  unfolding update_from
  update_repository spec w = elim (api.get_repository spec.name w) [
    | none ↦ (w, false)
    | some now ↦ update_from spec now w
  ]

  -- DeleteRepository
  unfoldable pub delete_repository : RepositorySpec → W → W × Bool
  delete_repository spec w = elim (api.get_repository spec.name w) [
    | none ↦ (w, true)
    | some now ↦
        if not spec.allow_data_deletion then (w, false) else api.delete_search_domain spec.name w
  ]

  -- The reconciler of repositories.
  abbrev pub repository_controller : Controller RepositorySpec RepositoryDetails W
  repository_controller = record {
    log_scale = record {
      get = get_repository;
      add = add_repository;
      update = update_repository;
      delete = delete_repository;
      validate = λ spec w. true;
    };
    as_expected = repository_already_as_expected;
    normalize = λ spec. spec;
    is_valid = λ spec. true;
    finalize_asks_for_cluster = true;
    ends_after_finalizer = false;
    always_reports = false;
    failure_state = state_unknown;
  }
