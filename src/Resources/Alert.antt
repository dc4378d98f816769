-- ===== src/Resources/Alert.antt =====
-- Alerts: internal/controller/humioalert_controller.go, and the methods for alerts of
-- internal/humio/client.go.
use humio_operator.Common.{
  String, Bool, true, false, not, Option, none, some, List, [], ◌∷◌, ◌==◌, if◌then◌else◌,
}
use humio_operator.Common.Int.{ℤ, eqb_ℤ}
use humio_operator.Resources.{Found, found, not_found, failed, Controller, state_unknown}
use humio_operator.Resources.Compare.{
  Texts, same_bool, same_text, same_texts, same_option, sort_strings, empty_slice_if_nil,
  QueryOwnership, query_ownership_is_organization_ownership, as_expected_of,
}
use humio_operator.Resources.SearchDomain.{
  DomainApi, validate_search_domain, domain_error, is_valid_domain,
}

-- HumioAlertSpec, with HumioQuery
pub record AlertSpec : Type 0 where
  pub name : String
  pub view_name : String
  pub query_string : String
  pub query_start : String
  pub description : String
  pub throttle_time_millis : ℤ
  pub throttle_field : Option String
  pub silenced : Bool
  pub actions : Texts
  pub labels : Texts

-- AlertDetails, with the names of the actions for the actions
pub record AlertDetails : Type 0 where
  pub id : String
  pub name : String
  pub query_string : String
  pub query_start : String
  pub throttle_field : Option String
  pub description : Option String
  pub throttle_time_millis : ℤ
  pub enabled : Bool
  pub actions : Texts
  pub labels : Texts
  pub query_ownership : QueryOwnership

-- The arguments that CreateAlert and UpdateAlert share
pub record AlertInput : Type 0 where
  pub name : String
  pub description : String
  pub query_string : String
  pub query_start : String
  pub throttle_time_millis : ℤ
  pub enabled : Bool
  pub actions : Texts
  pub labels : List String
  pub query_ownership : QueryOwnership
  pub throttle_field : Option String

-- The GraphQL calls that the client makes for alerts
pub record ClassicApi {μ} (W : Type μ) : Type μ where
  pub domains : DomainApi W
  pub list_alerts : String → W → Option (List AlertDetails)
  pub create : String → AlertInput → W → W × Bool
  pub update : String → String → AlertInput → W → W × Bool
  pub delete_by_id : String → String → W → W × Bool

-- alertAlreadyAsExpected
unfoldable pub alert_already_as_expected : AlertSpec → AlertDetails → Bool
alert_already_as_expected spec d = as_expected_of (
    ("description", same_option same_text d.description (some spec.description))
    ∷ ("labels", same_texts (sort_strings d.labels) (sort_strings spec.labels))
    ∷ ("throttleField", same_option same_text d.throttle_field spec.throttle_field)
    ∷ ("throttleTimeMillis", eqb_ℤ d.throttle_time_millis spec.throttle_time_millis)
    ∷ ("actions", same_texts (sort_strings d.actions) (sort_strings spec.actions))
    ∷ ("queryString", same_text d.query_string spec.query_string)
    ∷ ("start", same_text d.query_start spec.query_start)
    ∷ ("enabled", same_bool d.enabled (not spec.silenced))
    ∷ ("queryOwnership", query_ownership_is_organization_ownership d.query_ownership)
    ∷ [])

-- What a comparison leaves of the spec in memory
unfoldable pub sorted_alert : AlertSpec → AlertSpec
sorted_alert spec = record spec {
  labels = sort_strings spec.labels;
  actions = sort_strings spec.actions;
}

unfoldable pub alert_input : AlertSpec → AlertInput
alert_input spec = record {
  name = spec.name;
  description = spec.description;
  query_string = spec.query_string;
  query_start = spec.query_start;
  throttle_time_millis = spec.throttle_time_millis;
  enabled = not spec.silenced;
  actions = spec.actions;
  labels = empty_slice_if_nil spec.labels;
  query_ownership = QueryOwnership.organization_ownership;
  throttle_field = spec.throttle_field;
}

find_by_name : String → List AlertDetails → Found AlertDetails
find_by_name name [] = not_found
find_by_name name (d ∷ ds) = if d.name == name then found d else find_by_name name ds

module _ {μ} {W : Type μ} (api : ClassicApi W) where
  -- GetAlert, which goes on if the search domain is not found.
  unfoldable pub get_classic : AlertSpec → W → Found AlertDetails
  unfolding find_by_name
  get_classic spec w = elim (validate_search_domain api.domains spec.view_name w) [
    | domain_error ↦ failed
    | _ ↦ elim (api.list_alerts spec.view_name w) [
      | none ↦ failed
      | some ds ↦ find_by_name spec.name ds
    ]
  ]

  -- AddAlert
  unfoldable pub add_classic : AlertSpec → W → W × Bool
  add_classic spec w =
      if is_valid_domain api.domains spec.view_name w
      then api.create spec.view_name (alert_input spec) w
      else (w, false)

  -- UpdateAlert
  unfoldable pub update_classic : AlertSpec → W → W × Bool
  update_classic spec w =
      if is_valid_domain api.domains spec.view_name w
      then elim (get_classic spec w) [
        | not_found ↦ (w, false)
        | failed ↦ (w, false)
        | found d ↦ api.update spec.view_name d.id (alert_input spec) w
      ]
      else (w, false)

  -- DeleteAlert
  unfoldable pub delete_classic : AlertSpec → W → W × Bool
  delete_classic spec w = elim (get_classic spec w) [
    | not_found ↦ (w, true)
    | failed ↦ (w, false)
    | found d ↦ api.delete_by_id spec.view_name d.id w
  ]

  -- The reconciler of alerts.
  abbrev pub alert_controller : Controller AlertSpec AlertDetails W
  alert_controller = record {
    log_scale = record {
      get = get_classic;
      add = add_classic;
      update = update_classic;
      delete = delete_classic;
      validate = λ spec w. true;
    };
    as_expected = alert_already_as_expected;
    normalize = sorted_alert;
    is_valid = λ spec. true;
    finalize_asks_for_cluster = false;
    ends_after_finalizer = true;
    always_reports = true;
    failure_state = state_unknown;
  }
