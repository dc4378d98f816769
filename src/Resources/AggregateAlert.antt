-- ===== src/Resources/AggregateAlert.antt =====
-- Aggregate alerts: internal/controller/humioaggregatealert_controller.go, and the methods for them of
-- internal/humio/client.go.
use humio_operator.Common.{String, Bool, true, false, not, Option, some, List, [], ◌∷◌, ◌&&◌}
use humio_operator.Common.Int.{ℤ, pos, eqb_ℤ, ltb_ℤ}
use humio_operator.Resources.{Controller, state_config_failed}
use humio_operator.Resources.Compare.{
  Texts, same_bool, same_text, same_texts, same_option, sort_strings, empty_slice_if_nil,
  QueryOwnership, query_ownership_is_organization_ownership, as_expected_of,
}
use humio_operator.Resources.SearchDomain.{
  AlertApi, validate_actions, get_alert, add_alert, update_alert, delete_alert,
}

-- HumioAggregateAlertSpec
pub record AggregateAlertSpec : Type 0 where
  pub name : String
  pub view_name : String
  pub description : String
  pub query_string : String
  pub throttle_time_seconds : ℤ
  pub throttle_field : Option String
  pub enabled : Bool
  pub actions : Texts
  pub labels : Texts
  pub query_timestamp_type : String
  pub search_interval_seconds : ℤ
  pub trigger_mode : String

-- AggregateAlertDetails, with the names of the actions for the actions
pub record AggregateAlertDetails : Type 0 where
  pub description : Option String
  pub query_string : String
  pub throttle_time_seconds : ℤ
  pub throttle_field : Option String
  pub enabled : Bool
  pub actions : Texts
  pub labels : Texts
  pub query_ownership : QueryOwnership
  pub query_timestamp_type : String
  pub search_interval_seconds : ℤ
  pub trigger_mode : String

-- The arguments that CreateAggregateAlert and UpdateAggregateAlert share
pub record AggregateAlertInput : Type 0 where
  pub name : String
  pub description : String
  pub query_string : String
  pub actions : Texts
  pub labels : List String
  pub enabled : Bool
  pub throttle_field : Option String
  pub throttle_time_seconds : ℤ
  pub query_ownership : QueryOwnership
  pub query_timestamp_type : String
  pub search_interval_seconds : ℤ
  pub trigger_mode : String

-- aggregateAlertAlreadyAsExpected
unfoldable pub aggregate_alert_already_as_expected :
    AggregateAlertSpec → AggregateAlertDetails → Bool
aggregate_alert_already_as_expected spec d = as_expected_of (
    ("description", same_option same_text d.description (some spec.description))
    ∷ ("labels", same_texts (sort_strings d.labels) (sort_strings spec.labels))
    ∷ ("throttleField", same_option same_text d.throttle_field spec.throttle_field)
    ∷ ("throttleTimeSeconds", eqb_ℤ d.throttle_time_seconds spec.throttle_time_seconds)
    ∷ ("actions", same_texts (sort_strings d.actions) (sort_strings spec.actions))
    ∷ ("queryTimestampType", same_text d.query_timestamp_type spec.query_timestamp_type)
    ∷ ("queryString", same_text d.query_string spec.query_string)
    ∷ ("triggerMode", same_text d.trigger_mode spec.trigger_mode)
    ∷ ("searchIntervalSeconds", eqb_ℤ d.search_interval_seconds spec.search_interval_seconds)
    ∷ ("enabled", same_bool d.enabled spec.enabled)
    ∷ ("queryOwnership", query_ownership_is_organization_ownership d.query_ownership)
    ∷ [])

-- What a comparison leaves of the spec in memory
unfoldable pub sorted_aggregate_alert : AggregateAlertSpec → AggregateAlertSpec
sorted_aggregate_alert spec = record spec {
  labels = sort_strings spec.labels;
  actions = sort_strings spec.actions;
}

unfoldable pub aggregate_alert_input : AggregateAlertSpec → AggregateAlertInput
aggregate_alert_input spec = record {
  name = spec.name;
  description = spec.description;
  query_string = spec.query_string;
  actions = spec.actions;
  labels = empty_slice_if_nil spec.labels;
  enabled = spec.enabled;
  throttle_field = spec.throttle_field;
  throttle_time_seconds = spec.throttle_time_seconds;
  query_ownership = QueryOwnership.organization_ownership;
  query_timestamp_type = spec.query_timestamp_type;
  search_interval_seconds = spec.search_interval_seconds;
  trigger_mode = spec.trigger_mode;
}

-- The throttle time is not one of 1 to 59 seconds.
unfoldable pub aggregate_alert_is_valid : AggregateAlertSpec → Bool
aggregate_alert_is_valid spec =
    not (ltb_ℤ (pos 0) spec.throttle_time_seconds && ltb_ℤ spec.throttle_time_seconds (pos 60))

-- The reconciler of aggregate alerts.
abbrev pub aggregate_alert_controller {μ} :
    {W : Type μ}
    → AlertApi AggregateAlertInput AggregateAlertDetails W
    → Controller AggregateAlertSpec AggregateAlertDetails W
aggregate_alert_controller api = record {
  log_scale = record {
    get = λ (spec : AggregateAlertSpec). get_alert api spec.view_name spec.name;
    add = λ (spec : AggregateAlertSpec).
        add_alert api spec.view_name spec.actions (aggregate_alert_input spec);
    update = λ (spec : AggregateAlertSpec).
        update_alert api spec.view_name spec.name spec.actions (aggregate_alert_input spec);
    delete = λ (spec : AggregateAlertSpec). delete_alert api spec.view_name spec.name;
    validate =
        λ (spec : AggregateAlertSpec). validate_actions api.domains spec.view_name spec.actions;
  };
  as_expected = aggregate_alert_already_as_expected;
  normalize = sorted_aggregate_alert;
  is_valid = aggregate_alert_is_valid;
  finalize_asks_for_cluster = false;
  ends_after_finalizer = true;
  always_reports = true;
  failure_state = state_config_failed;
}
