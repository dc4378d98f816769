-- ===== src/Resources/View.antt =====
-- Views: internal/controller/humioview_controller.go, GetViewConnections of
-- api/v1alpha1/humioview_types.go, and the methods for views of internal/humio/client.go. LogScale's
-- GraphQL calls are an interface over a state of its own.
pub mod Order
use Prim.Native.String.{compare}
use text.Mathlib.Text.{is_lt}
use humio_operator.Common.{
  String, Bool, true, false, not, Option, none, some, List, [], ◌∷◌, ◌==◌, ◌&&◌, ◌||◌, ◌++◌, map,
  if◌then◌else◌,
}
use humio_operator.Resources.{Found, found, not_found, failed, LogScale, Controller, state_unknown}
use humio_operator.Resources.Compare.{
  same_bool, same_text, same_option, same_list, bool_true, as_expected_of, and_then,
}

-- A connection of a view, in the resource, in an answer of GraphQL, and in ViewConnectionInput.
pub record Connection : Type 0 where
  pub repository_name : String
  pub filter : String

-- HumioViewSpec. A nil slice of connections is one without an element: nothing here tells them apart.
pub record ViewSpec : Type 0 where
  pub name : String
  pub description : String
  pub connections : List Connection
  pub automatic_search : Option Bool

-- GetSearchDomainSearchDomainView, as far as it is used. A nil slice of connections is none.
pub record ViewDetails : Type 0 where
  pub is_federated : Bool
  pub description : Option String
  pub connections : Option (List Connection)
  pub automatic_search : Bool

-- The answer to GetSearchDomain: an error, or a view, or a repository.
pub data SearchDomain : Type 0 where
  view_domain : ViewDetails → SearchDomain
  other_domain : SearchDomain

-- The GraphQL calls that the client makes for views.
pub record ViewApi {μ} (W : Type μ) : Type μ where
  pub get_search_domain : String → W → Option SearchDomain
  pub create_view : String → String → List Connection → W → W × Bool
  pub update_description_for_search_domain : String → String → W → W × Bool
  pub set_automatic_searching : String → Bool → W → W × Bool
  pub update_view_connections : String → List Connection → W → W × Bool
  pub delete_search_domain : String → W → W × Bool

-- GetViewConnections
unfoldable pub get_view_connections : ViewSpec → List Connection
get_view_connections spec = map (λ (c : Connection). c) spec.connections

-- The order that sortConnections gives to sort.SliceStable: true if the first goes before the second.
unfoldable pub goes_before : Connection → Connection → Bool
goes_before c d =
    is_lt (compare d.repository_name c.repository_name) || is_lt (compare d.filter c.filter)

-- The inner loop of the insertion sort: the new element moves over those behind which it stands, the
-- last of which comes first here, as long as it goes before them.
insert_back : Connection → List Connection → List Connection
unfolding goes_before
insert_back c [] = c ∷ []
insert_back c (d ∷ ds) = if goes_before c d then d ∷ insert_back c ds else c ∷ d ∷ ds

sort_back : List Connection → List Connection → List Connection
unfolding insert_back
sort_back sorted [] = sorted
sort_back sorted (c ∷ cs) = sort_back (insert_back c sorted) cs

reverse : List Connection → List Connection
reverse [] = []
reverse (c ∷ cs) = reverse cs ++ c ∷ []

-- sortConnections for 20 connections at most, which sort.SliceStable sorts by insertion.
unfoldable pub sort_connections : List Connection → List Connection
unfolding sort_back reverse
sort_connections cs = reverse (sort_back [] cs)

sort_fetched : Option (List Connection) → Option (List Connection)
sort_fetched none = none
sort_fetched (some cs) = some (sort_connections cs)

unfoldable pub same_connection : Connection → Connection → Bool
same_connection c d = c.repository_name == d.repository_name && c.filter == d.filter

-- viewAlreadyAsExpected
unfoldable pub view_already_as_expected : ViewSpec → ViewDetails → Bool
unfolding sort_fetched
view_already_as_expected spec v = as_expected_of (
    (
      "viewConnections",
      same_option (same_list same_connection) (sort_fetched v.connections)
          (some (sort_connections (get_view_connections spec))),
    )
    ∷ ("description", same_option same_text v.description (some spec.description))
    ∷ ("automaticSearch", same_bool v.automatic_search (bool_true spec.automatic_search))
    ∷ [])

module _ {μ} {W : Type μ} (api : ViewApi W) where
  -- GetView without federated views. Every error of GraphQL is ViewNotFound.
  unfoldable pub get_view : ViewSpec → W → Found ViewDetails
  get_view spec w = elim (api.get_search_domain spec.name w) [
    | none ↦ not_found
    | some other_domain ↦ not_found
    | some (view_domain v) ↦ if v.is_federated then failed else found v
  ]

  -- AddView
  unfoldable pub add_view : ViewSpec → W → W × Bool
  add_view spec w = api.create_view spec.name spec.description (get_view_connections spec) w

  view_description : ViewSpec → ViewDetails → W → W × Bool
  view_description spec now w =
      if same_option same_text now.description (some spec.description)
      then (w, true)
      else api.update_description_for_search_domain spec.name spec.description w

  view_search : ViewSpec → ViewDetails → W → W × Bool
  view_search spec now w =
      if same_bool now.automatic_search (bool_true spec.automatic_search)
      then (w, true)
      else api.set_automatic_searching spec.name (bool_true spec.automatic_search) w

  view_connections : ViewSpec → ViewDetails → W → W × Bool
  view_connections spec now w =
      if same_option (same_list same_connection) now.connections (some (get_view_connections spec))
      then (w, true)
      else api.update_view_connections spec.name (get_view_connections spec) w

  -- UpdateView
  unfoldable pub update_view : ViewSpec → W → W × Bool
  unfolding view_description view_search view_connections
  update_view spec w = elim (get_view spec w) [
    | not_found ↦ (w, false)
    | failed ↦ (w, false)
    | found now ↦
        and_then (view_description spec now w)
          (λ w. and_then (view_search spec now w) (view_connections spec now))
  ]

  -- DeleteView
  unfoldable pub delete_view : ViewSpec → W → W × Bool
  delete_view spec w = elim (get_view spec w) [
    | not_found ↦ (w, true)
    | failed ↦ (w, false)
    | found now ↦ api.delete_search_domain spec.name w
  ]

  -- The reconciler of views.
  abbrev pub view_controller : Controller ViewSpec ViewDetails W
  view_controller = record {
    log_scale = record {
      get = get_view;
      add = add_view;
      update = update_view;
      delete = delete_view;
      validate = λ spec w. true;
    };
    as_expected = view_already_as_expected;
    normalize = λ spec. spec;
    is_valid = λ spec. true;
    finalize_asks_for_cluster = false;
    ends_after_finalizer = true;
    always_reports = false;
    failure_state = state_unknown;
  }
