-- ===== src/Resources/User.antt =====
-- Users: internal/controller/humiouser_controller.go, and the methods for users of
-- internal/humio/client.go. LogScale's GraphQL calls are an interface over a state of its own.
use humio_operator.Common.{
  String, Bool, true, false, Option, none, some, List, [], ◌∷◌, ◌==◌, if◌then◌else◌,
}
use humio_operator.Resources.{Found, found, not_found, failed, Controller, state_unknown}
use humio_operator.Resources.Compare.{same_bool, bool_false, as_expected_of}

-- HumioUserSpec
pub record UserSpec : Type 0 where
  pub user_name : String
  pub is_root : Option Bool

-- UserDetails
pub record UserDetails : Type 0 where
  pub username : String
  pub is_root : Bool

-- The GraphQL calls that the client makes for users
pub record UserApi {μ} (W : Type μ) : Type μ where
  pub get_users_by_username : String → W → Option (List UserDetails)
  pub add_user : String → Option Bool → W → W × Bool
  pub update_user : String → Option Bool → W → W × Bool
  pub remove_user : String → W → W × Bool

-- userAlreadyAsExpected
unfoldable pub user_already_as_expected : UserSpec → UserDetails → Bool
user_already_as_expected spec d =
    as_expected_of (("isRoot", same_bool d.is_root (bool_false spec.is_root)) ∷ [])

find_user : String → List UserDetails → Found UserDetails
find_user name [] = not_found
find_user name (d ∷ ds) = if d.username == name then found d else find_user name ds

module _ {μ} {W : Type μ} (api : UserApi W) where
  -- GetUser
  unfoldable pub get_user : UserSpec → W → Found UserDetails
  unfolding find_user
  get_user spec w = elim (api.get_users_by_username spec.user_name w) [
    | none ↦ failed
    | some users ↦ find_user spec.user_name users
  ]

  -- The reconciler of users, with AddUser, UpdateUser and DeleteUser.
  abbrev pub user_controller : Controller UserSpec UserDetails W
  user_controller = record {
    log_scale = record {
      get = get_user;
      add = λ (spec : UserSpec). api.add_user spec.user_name spec.is_root;
      update = λ (spec : UserSpec). api.update_user spec.user_name spec.is_root;
      delete = λ (spec : UserSpec). api.remove_user spec.user_name;
      validate = λ spec w. true;
    };
    as_expected = user_already_as_expected;
    normalize = λ spec. spec;
    is_valid = λ spec. true;
    finalize_asks_for_cluster = true;
    ends_after_finalizer = false;
    always_reports = false;
    failure_state = state_unknown;
  }
