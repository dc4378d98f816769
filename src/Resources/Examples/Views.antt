-- ===== src/Resources/Examples/Views.antt =====
-- The theorems on views and alerts at concrete ones.
use humio_operator.Common.{String, ◌≡◌, refl, true, false, none, some, List, [], ◌∷◌}
use humio_operator.Common.Int.{pos}
use humio_operator.Helpers.{contains_element}
use humio_operator.Resources.{humio_finalizer, Resource, found, reconcile, state_exists}
use humio_operator.Resources.Deletion.{begin}
use humio_operator.Resources.Convergence.{calm}
use humio_operator.Resources.Compare.{organization_ownership, sort_strings}
use humio_operator.Resources.View.{Connection, ViewSpec, ViewDetails, view_already_as_expected}
use humio_operator.Resources.View.Order.{order_matters}
use humio_operator.Resources.SearchDomain.{
  DomainApi, AlertApi, validate_search_domain, is_valid_domain,
}
use humio_operator.Resources.Alert.{
  AlertSpec, AlertDetails, AlertInput, ClassicApi, get_classic, alert_controller,
}
use humio_operator.Resources.FilterAlert.{
  FilterAlertSpec, FilterAlertDetails, FilterAlertInput, filter_alert_is_valid,
}
use humio_operator.Resources.Unsettled.{alert_without_labels}

abbrev b_x : Connection
b_x = record { repository_name = "b"; filter = "x" }

abbrev a_y : Connection
a_y = record { repository_name = "a"; filter = "y" }

abbrev view : ViewSpec
view = record {
  name = "both";
  description = "";
  connections = b_x ∷ a_y ∷ [];
  automatic_search = none;
}

abbrev fetched_view : ViewDetails
fetched_view = record {
  is_federated = false;
  description = some "";
  connections = some (a_y ∷ b_x ∷ []);
  automatic_search = true;
}

order_matters_example : view_already_as_expected view fetched_view ≡ false
order_matters_example = order_matters view fetched_view b_x a_y refl refl refl refl refl

abbrev open_domains : DomainApi (List AlertDetails)
open_domains = record { get_search_domain = λ view w. some true; list_actions = λ view w. some [] }

-- What is stored for the arguments of an update.
abbrev stored : String → AlertInput → AlertDetails
stored id input = record {
  id = id;
  name = input.name;
  query_string = input.query_string;
  query_start = input.query_start;
  throttle_field = input.throttle_field;
  description = some input.description;
  throttle_time_millis = input.throttle_time_millis;
  enabled = input.enabled;
  actions = input.actions;
  labels = some input.labels;
  query_ownership = input.query_ownership;
}

abbrev classic : ClassicApi (List AlertDetails)
classic = record {
  domains = open_domains;
  list_alerts = λ view w. some w;
  create = λ view input w. (w, true);
  update = λ view id input w. (stored id input ∷ w, true);
  delete_by_id = λ view id w. ([], true);
}

abbrev alert : Resource AlertSpec
alert = record {
  spec = record {
    name = "errors";
    view_name = "logs";
    query_string = "level=ERROR";
    query_start = "24h";
    description = "";
    throttle_time_millis = pos 60000;
    throttle_field = none;
    silenced = false;
    actions = some ("mail" ∷ []);
    labels = none;
  };
  deleting = false;
  finalizers = humio_finalizer ∷ [];
  state = state_exists;
}

abbrev alert_details : AlertDetails
alert_details = record {
  id = "a1";
  name = "errors";
  query_string = "level=ERROR";
  query_start = "24h";
  throttle_field = none;
  description = some "";
  throttle_time_millis = pos 60000;
  enabled = true;
  actions = some ("mail" ∷ []);
  labels = some [];
  query_ownership = organization_ownership;
}

alert_has : contains_element alert.finalizers humio_finalizer ≡ true
unfolding contains_element
alert_has = refl

alert_found : get_classic classic alert.spec (alert_details ∷ []) ≡ found alert_details
unfolding get_classic validate_search_domain
alert_found = refl

alert_domain : is_valid_domain classic.domains alert.spec.view_name (alert_details ∷ []) ≡ true
unfolding validate_search_domain
alert_domain = refl

alert_without_labels_example :
    (reconcile (alert_controller classic) calm (begin alert (alert_details ∷ []))).0.world
    ≡ alert_details ∷ alert_details ∷ []
unfolding sort_strings
alert_without_labels_example =
    alert_without_labels classic alert (alert_details ∷ []) alert_details [] refl alert_has refl
      alert_domain alert_found refl

abbrev no_alerts : AlertApi FilterAlertInput FilterAlertDetails (List AlertDetails)
no_alerts = record {
  domains = open_domains;
  list_alerts = λ view w. some [];
  get_by_id = λ view id w. none;
  create = λ view input w. (w, true);
  update = λ view id input w. (w, true);
  delete_by_id = λ view id w. (w, true);
}

abbrev filter_alert : Resource FilterAlertSpec
filter_alert = record {
  spec = record {
    name = "errors";
    view_name = "logs";
    description = "";
    query_string = "level=ERROR";
    throttle_time_seconds = pos 30;
    throttle_field = none;
    enabled = true;
    actions = some ("mail" ∷ []);
    labels = some [];
  };
  deleting = false;
  finalizers = humio_finalizer ∷ [];
  state = state_exists;
}

filter_alert_invalid : filter_alert_is_valid filter_alert.spec ≡ false
unfolding filter_alert_is_valid
filter_alert_invalid = refl

filter_alert_has : contains_element filter_alert.finalizers humio_finalizer ≡ true
unfolding contains_element
filter_alert_has = refl
