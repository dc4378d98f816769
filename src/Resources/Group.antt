-- ===== src/Resources/Group.antt =====
-- Groups: internal/controller/humiogroup_controller.go, and the methods for groups of
-- internal/humio/client.go. LogScale's GraphQL calls are an interface over a state of its own.
pub mod Serving
use humio_operator.Common.{
  String, Bool, true, false, Option, none, some, List, [], ◌∷◌, if◌then◌else◌,
}
use humio_operator.Resources.{Found, found, not_found, failed, Controller, state_unknown}
use humio_operator.Resources.Compare.{same_text, same_option, as_expected_of}

-- HumioGroupSpec
pub record GroupSpec : Type 0 where
  pub name : String
  pub external_mapping_name : Option String

-- GroupDetails, as far as it is used
pub record GroupDetails : Type 0 where
  pub id : String
  pub lookup_name : Option String

-- The GraphQL calls that the client makes for groups. A read answers nothing on every error.
pub record GroupApi {μ} (W : Type μ) : Type μ where
  pub get_group_by_display_name : String → W → Option GroupDetails
  pub create_group : String → Option String → W → W × Bool
  pub update_group : String → String → String → W → W × Bool
  pub delete_group : String → W → W × Bool

-- groupAlreadyAsExpected
unfoldable pub group_already_as_expected : GroupSpec → GroupDetails → Bool
group_already_as_expected spec d =
    as_expected_of
      (("externalMappingName", same_option same_text d.lookup_name spec.external_mapping_name) ∷ [])

-- The lookup name that UpdateGroup sends: LogScale reads "" as none.
unfoldable pub new_lookup_name : GroupSpec → String
new_lookup_name spec = elim spec.external_mapping_name [ none ↦ "" | some n ↦ n ]

module _ {μ} {W : Type μ} (api : GroupApi W) where
  -- GetGroup
  unfoldable pub get_group : GroupSpec → W → Found GroupDetails
  get_group spec w = elim (api.get_group_by_display_name spec.name w) [
    | none ↦ not_found
    | some d ↦ found d
  ]

  -- UpdateGroup
  unfoldable pub update_group : GroupSpec → W → W × Bool
  update_group spec w = elim (get_group spec w) [
    | not_found ↦ (w, false)
    | failed ↦ (w, false)
    | found d ↦ api.update_group d.id spec.name (new_lookup_name spec) w
  ]

  -- DeleteGroup
  unfoldable pub delete_group : GroupSpec → W → W × Bool
  delete_group spec w = elim (get_group spec w) [
    | not_found ↦ (w, true)
    | failed ↦ (w, false)
    | found d ↦ api.delete_group d.id w
  ]

  -- The reconciler of groups, with AddGroup.
  abbrev pub group_controller : Controller GroupSpec GroupDetails W
  group_controller = record {
    log_scale = record {
      get = get_group;
      add = λ (spec : GroupSpec). api.create_group spec.name spec.external_mapping_name;
      update = update_group;
      delete = delete_group;
      validate = λ spec w. true;
    };
    as_expected = group_already_as_expected;
    normalize = λ spec. spec;
    is_valid = λ spec. true;
    finalize_asks_for_cluster = false;
    ends_after_finalizer = false;
    always_reports = false;
    failure_state = state_unknown;
  }
