-- ===== src/Resources/Examples/Repositories.antt =====
-- The theorems on repositories at one whose retention is 30 days.
use humio_operator.Common.{
  ◌*◌, ◌≡◌, ◌≤◌, ◌⊎◌, refl, Bool, true, false, not, Option, none, some, [], ◌∷◌, arith,
}
use humio_operator.Common.Int.{pos_part, pos}
use humio_operator.Helpers.{contains_element}
use humio_operator.Resources.{humio_finalizer, Resource, state_exists}
use humio_operator.Resources.Repository.{
  RepositorySpec, RepositoryDetails, RepositoryApi, float64, might_delete, retention_in_millis,
}
use humio_operator.Resources.Repository.Limits.{retention_in_millis_exact}

abbrev Store : Type 0
Store = Option RepositoryDetails

abbrev change : (RepositoryDetails → RepositoryDetails) → Store → Store × Bool
change f none = (none, false)
change f (some r) = (some (f r), true)

abbrev one_repository : RepositoryApi Store
one_repository = record {
  get_repository = λ name w. w;
  create_repository = λ name w. (w, false);
  create_repository_with_retention = λ name time ingest storage w. (w, false);
  update_description_for_search_domain = λ name d. change (λ r. record r { description = some d });
  update_time_based_retention = λ name t. change (λ r. record r { time_based_retention = t });
  update_storage_based_retention =
      λ name t. change (λ r. record r { storage_size_based_retention = t });
  update_ingest_based_retention =
      λ name t. change (λ r. record r { ingest_size_based_retention = t });
  set_automatic_searching = λ name b. change (λ r. record r { automatic_search = b });
  delete_search_domain = λ name w. (none, true);
}

abbrev thirty_days : RepositoryDetails
thirty_days = record {
  description = none;
  time_based_retention = some (float64 (pos 30));
  ingest_size_based_retention = none;
  storage_size_based_retention = none;
  automatic_search = true;
}

-- The repository is there, and its retention in days is not one that is above 0 and below 30.
abbrev keeps_days : Store → Bool
keeps_days none = false
keeps_days (some r) = not (might_delete thirty_days.time_based_retention r.time_based_retention)

abbrev Keeps : Store → Type 0
Keeps w = keeps_days w ≡ true

abbrev ten_days : Resource RepositorySpec
ten_days = record {
  spec = record {
    name = "logs";
    description = "";
    time_in_days = some (pos 10);
    ingest_size_in_gb = none;
    storage_size_in_gb = none;
    allow_data_deletion = false;
    automatic_search = none;
  };
  deleting = false;
  finalizers = humio_finalizer ∷ [];
  state = state_exists;
}

-- The same LogScale, of which all reads fail.
abbrev unreachable : RepositoryApi Store
unreachable = record one_repository { get_repository = λ name w. none }

abbrev marked : Resource RepositorySpec
marked = record ten_days { deleting = true }

marked_has : contains_element marked.finalizers humio_finalizer ≡ true
unfolding contains_element
marked_has = refl

retention_in_millis_exact_example :
    ((110000 ≤ 106751) × (retention_in_millis (pos 110000) ≡ pos (110000 * 86400000)))
    ⊎ ((106752 ≤ 110000) × (pos_part (retention_in_millis (pos 110000)) ≡ 0))
retention_in_millis_exact_example = retention_in_millis_exact 110000 (omega arith)
