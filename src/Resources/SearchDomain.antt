-- ===== src/Resources/SearchDomain.antt =====
-- What the methods for alerts of internal/humio/client.go share: validateSearchDomain, the check of the
-- actions, and the search for an alert by its name and then by its id. LogScale's GraphQL calls are
-- interfaces over a state of its own.
use humio_operator.Common.{
  String, Bool, true, false, Option, none, some, List, [], ◌∷◌, ◌==◌, ◌&&◌, any, if◌then◌else◌,
}
use humio_operator.Resources.{Found, found, not_found, failed}
use humio_operator.Resources.Compare.{Texts, empty_slice_if_nil}

-- An action of a search domain: its name, and whether its type is one of those that GetAction knows.
pub record Action : Type 0 where
  pub name : String
  pub is_known : Bool

-- The answer to GetSearchDomain is an error, or says whether there is one.
pub record DomainApi {μ} (W : Type μ) : Type μ where
  pub get_search_domain : String → W → Option Bool
  pub list_actions : String → W → Option (List Action)

-- The calls for alerts whose details are read by id: ListFilterAlerts or ListAggregateAlerts, with the
-- name and the id of each, the read by id, which gives the details with the id in them, and the writes,
-- which take the arguments of the mutations.
pub record AlertApi {ℓ κ μ} (I : Type ℓ) (D : Type κ) (W : Type μ) : Type (ℓ ⊔ κ ⊔ μ) where
  pub domains : DomainApi W
  pub list_alerts : String → W → Option (List (String × String))
  pub get_by_id : String → String → W → Option (String × D)
  pub create : String → I → W → W × Bool
  pub update : String → String → I → W → W × Bool
  pub delete_by_id : String → String → W → W × Bool

-- The error of validateSearchDomain: none, EntityNotFound, or another.
pub data Validated : Type 0 where
  validated domain_not_found domain_error : Validated

module _ {μ} {W : Type μ} (api : DomainApi W) where
  -- validateSearchDomain
  unfoldable pub validate_search_domain : String → W → Validated
  validate_search_domain view w = elim (api.get_search_domain view w) [
    | none ↦ domain_error
    | some true ↦ validated
    | some false ↦ domain_not_found
  ]

  abbrev pub is_valid_domain : String → W → Bool
  is_valid_domain view w = elim (validate_search_domain view w) [ validated ↦ true | _ ↦ false ]

  -- getAndValidateAction: whether GetAction finds the action.
  unfoldable pub get_and_validate_action : String → String → W → Bool
  unfolding validate_search_domain
  get_and_validate_action view name w = is_valid_domain view w && elim (api.list_actions view w) [
    | none ↦ false
    | some actions ↦ any (λ (a : Action). a.name == name && a.is_known) actions
  ]

  validate_each : String → List String → W → Bool
  unfolding get_and_validate_action
  validate_each view [] w = true
  validate_each view (n ∷ ns) w =
      let later = validate_each view ns w in
      if get_and_validate_action view n w then later else false

  -- ValidateActionsForFilterAlert and ValidateActionsForAggregateAlert
  unfoldable pub validate_actions : String → Texts → W → Bool
  unfolding validate_each
  validate_actions view names w = validate_each view (empty_slice_if_nil names) w

-- The loop that keeps the id of the last alert of that name.
last_id : String → String → List (String × String) → String
last_id name found_id [] = found_id
last_id name found_id ((n, id) ∷ rest) = last_id name (if n == name then id else found_id) rest

module _ {ℓ κ μ} {I : Type ℓ} {D : Type κ} {W : Type μ} (api : AlertApi I D W) where
  -- GetFilterAlert and GetAggregateAlert.
  unfoldable pub get_with_id : String → String → W → Found (String × D)
  unfolding validate_search_domain last_id
  get_with_id view name w = elim (validate_search_domain api.domains view w) [
    | domain_not_found ↦ not_found
    | domain_error ↦ failed
    | validated ↦ elim (api.list_alerts view w) [
      | none ↦ failed
      | some alerts ↦
          let id = last_id name "" alerts in
          if id == ""
          then not_found
          else elim (api.get_by_id view id w) [ none ↦ failed | some d ↦ found d ]
    ]
  ]

  unfoldable pub get_alert : String → String → W → Found D
  get_alert view name w = elim (get_with_id view name w) [
    | not_found ↦ not_found
    | failed ↦ failed
    | found (id, d) ↦ found d
  ]

  -- AddFilterAlert and AddAggregateAlert
  unfoldable pub add_alert : String → Texts → I → W → W × Bool
  add_alert view actions input w =
      if is_valid_domain api.domains view w && validate_actions api.domains view actions w
      then api.create view input w
      else (w, false)

  -- UpdateFilterAlert and UpdateAggregateAlert
  unfoldable pub update_alert : String → String → Texts → I → W → W × Bool
  update_alert view name actions input w =
      if is_valid_domain api.domains view w && validate_actions api.domains view actions w
      then elim (get_with_id view name w) [
        | not_found ↦ (w, false)
        | failed ↦ (w, false)
        | found (id, d) ↦ api.update view id input w
      ]
      else (w, false)

  -- DeleteFilterAlert and DeleteAggregateAlert.
  unfoldable pub delete_alert : String → String → W → W × Bool
  delete_alert view name w = elim (get_with_id view name w) [
    | not_found ↦ (w, true)
    | failed ↦ (w, false)
    | found (id, d) ↦ api.delete_by_id view id w
  ]
