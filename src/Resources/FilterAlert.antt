-- ===== src/Resources/FilterAlert.antt =====
-- Filter alerts: internal/controller/humiofilteralert_controller.go, and the methods for them of
-- internal/humio/client.go.
use humio_operator.Common.{String, Bool, true, false, not, Option, some, List, [], ◌∷◌, ◌&&◌}
use humio_operator.Common.Int.{ℤ, pos, eqb_ℤ, ltb_ℤ}
use humio_operator.Resources.{Controller, state_unknown}
use humio_operator.Resources.Compare.{
  Texts, same_bool, same_text, same_texts, same_option, sort_strings, empty_slice_if_nil,
  QueryOwnership, query_ownership_is_organization_ownership, as_expected_of,
}
use humio_operator.Resources.SearchDomain.{
  AlertApi, validate_actions, get_alert, add_alert, update_alert, delete_alert,
}

-- HumioFilterAlertSpec
pub record FilterAlertSpec : Type 0 where
  pub name : String
  pub view_name : String
  pub description : String
  pub query_string : String
  pub throttle_time_seconds : ℤ
  pub throttle_field : Option String
  pub enabled : Bool
  pub actions : Texts
  pub labels : Texts

-- FilterAlertDetails, with the names of the actions for the actions
pub record FilterAlertDetails : Type 0 where
  pub description : Option String
  pub query_string : String
  pub throttle_time_seconds : Option ℤ
  pub throttle_field : Option String
  pub enabled : Bool
  pub actions : Texts
  pub labels : Texts
  pub query_ownership : QueryOwnership

-- The arguments that CreateFilterAlert and UpdateFilterAlert share
pub record FilterAlertInput : Type 0 where
  pub name : String
  pub description : String
  pub query_string : String
  pub actions : Texts
  pub labels : List String
  pub enabled : Bool
  pub throttle_field : Option String
  pub throttle_time_seconds : ℤ
  pub query_ownership : QueryOwnership

-- filterAlertAlreadyAsExpected
unfoldable pub filter_alert_already_as_expected : FilterAlertSpec → FilterAlertDetails → Bool
filter_alert_already_as_expected spec d = as_expected_of (
    ("description", same_option same_text d.description (some spec.description))
    ∷ ("labels", same_texts (sort_strings d.labels) (sort_strings spec.labels))
    ∷ ("throttleField", same_option same_text d.throttle_field spec.throttle_field)
    ∷ (
      "throttleTimeSeconds",
      same_option eqb_ℤ d.throttle_time_seconds (some spec.throttle_time_seconds),
    )
    ∷ ("actions", same_texts (sort_strings d.actions) (sort_strings spec.actions))
    ∷ ("queryString", same_text d.query_string spec.query_string)
    ∷ ("enabled", same_bool d.enabled spec.enabled)
    ∷ ("queryOwnership", query_ownership_is_organization_ownership d.query_ownership)
    ∷ [])

-- What a comparison leaves of the spec in memory
unfoldable pub sorted_filter_alert : FilterAlertSpec → FilterAlertSpec
sorted_filter_alert spec = record spec {
  labels = sort_strings spec.labels;
  actions = sort_strings spec.actions;
}

unfoldable pub filter_alert_input : FilterAlertSpec → FilterAlertInput
filter_alert_input spec = record {
  name = spec.name;
  description = spec.description;
  query_string = spec.query_string;
  actions = spec.actions;
  labels = empty_slice_if_nil spec.labels;
  enabled = spec.enabled;
  throttle_field = spec.throttle_field;
  throttle_time_seconds = spec.throttle_time_seconds;
  query_ownership = QueryOwnership.organization_ownership;
}

-- The throttle time is not one of 1 to 59 seconds.
unfoldable pub filter_alert_is_valid : FilterAlertSpec → Bool
filter_alert_is_valid spec =
    not (ltb_ℤ (pos 0) spec.throttle_time_seconds && ltb_ℤ spec.throttle_time_seconds (pos 60))

-- The reconciler of filter alerts.
abbrev pub filter_alert_controller {μ} :
    {W : Type μ}
    → AlertApi FilterAlertInput FilterAlertDetails W
    → Controller FilterAlertSpec FilterAlertDetails W
filter_alert_controller api = record {
  log_scale = record {
    get = λ (spec : FilterAlertSpec). get_alert api spec.view_name spec.name;
    add = λ (spec : FilterAlertSpec).
        add_alert api spec.view_name spec.actions (filter_alert_input spec);
    update = λ (spec : FilterAlertSpec).
        update_alert api spec.view_name spec.name spec.actions (filter_alert_input spec);
    delete = λ (spec : FilterAlertSpec). delete_alert api spec.view_name spec.name;
    validate = λ (spec : FilterAlertSpec). validate_actions api.domains spec.view_name spec.actions;
  };
  as_expected = filter_alert_already_as_expected;
  normalize = sorted_filter_alert;
  is_valid = filter_alert_is_valid;
  finalize_asks_for_cluster = false;
  ends_after_finalizer = true;
  always_reports = true;
  failure_state = state_unknown;
}
