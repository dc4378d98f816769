-- ===== src/Resources/Role.antt =====
-- System and organization permission roles: internal/controller/humiosystempermissionrole_controller.go,
-- internal/controller/humioorganizationpermissionrole_controller.go, and the methods for these roles of
-- internal/humio/client.go. LogScale's GraphQL calls are an interface over a state of its own. The two
-- kinds differ in a `RoleKind` and in the calls that assign a role.
pub mod Slices
pub mod Membership
use humio_operator.Common.{
  String, Bool, true, false, not, Option, none, some, List, [], ◌∷◌, ◌++◌, ◌==◌, ◌&&◌, map, any,
  if◌then◌else◌,
}
use humio_operator.Helpers.{contains_element}
use humio_operator.Resources.{Found, found, not_found, failed, Controller, state_unknown}
use humio_operator.Resources.Compare.{
  Texts, same_text, same_texts, sort_strings, empty_slice_if_nil, as_expected_of, and_then,
}
use humio_operator.Resources.Role.Slices.{equal_slices}

-- A group in RoleDetails
pub record RoleGroup : Type 0 where
  pub id : String
  pub display_name : String

-- RoleDetails; what the code reads of a list of permissions does not tell nil from empty.
pub record RoleDetails : Type 0 where
  pub id : String
  pub display_name : String
  pub organization_permissions : List String
  pub system_permissions : List String
  pub groups : List RoleGroup

-- HumioSystemPermissionRoleSpec and HumioOrganizationPermissionRoleSpec
pub record RoleSpec : Type 0 where
  pub name : String
  pub permissions : Texts
  pub role_assignment_group_names : Texts

-- The three lists of permissions that CreateRole and UpdateRole send.
pub record SentPermissions : Type 0 where
  pub view : Texts
  pub organization : Texts
  pub system : Texts

-- What the two kinds of roles differ in: the permissions that are read, and how they are sent.
pub record RoleKind : Type 0 where
  pub permissions_of : RoleDetails → List String
  pub sent : List String → SentPermissions

abbrev pub system_role : RoleKind
system_role = record {
  permissions_of = λ (d : RoleDetails). d.system_permissions;
  sent = λ ps. record { view = some []; organization = none; system = some ps };
}

abbrev pub organization_role : RoleKind
organization_role = record {
  permissions_of = λ (d : RoleDetails). d.organization_permissions;
  sent = λ ps. record { view = some []; organization = some ps; system = none };
}

-- The GraphQL calls that the client makes for one kind of roles. `none` is an error; the group of a name
-- is answered by its id.
pub record RoleApi {μ} (W : Type μ) : Type μ where
  pub list_roles : W → Option (List RoleDetails)
  pub create_role : String → SentPermissions → W → W × Bool
  pub update_role : String → String → SentPermissions → W → W × Bool
  pub delete_role_by_id : String → W → W × Bool
  pub get_group_by_display_name : String → W → Option String
  pub assign_role_to_group : String → String → W → W × Bool
  pub unassign_role_from_group : String → String → W → W × Bool

module _ {μ} {W : Type μ} (api : RoleApi W) where
  -- getCurrentSystemPermissionGroupNamesAndUnassignRoleFromUndesiredGroups, and the like for
  -- organization roles: the groups that have the role and should, unless there is an error.
  unfoldable pub unassign_undesired :
      String → List String → List RoleGroup → W → W × Option (List String)
  unassign_undesired role expected [] w = (w, some [])
  unassign_undesired role expected (g ∷ gs) w =
      let kept = unassign_undesired role expected gs w in
      let (w', ok) = api.unassign_role_from_group role g.id w in
      let removed = unassign_undesired role expected gs w' in
      if contains_element expected g.display_name
      then (kept.0, elim kept.1 [ none ↦ none | some names ↦ some (g.display_name ∷ names) ])
      else if ok
      then removed
      else (w', none)

  -- assignSystemPermissionRoleToGroups, assignOrganizationPermissionRoleToGroups
  unfoldable pub assign_desired : String → List String → List String → W → W × Bool
  assign_desired role current [] w = (w, true)
  assign_desired role current (n ∷ ns) w =
      let skipped = assign_desired role current ns w in
      if contains_element current n then skipped else elim (api.get_group_by_display_name n w) [
        | none ↦ (w, false)
        | some group ↦
            let (w', ok) = api.assign_role_to_group role group w in
            let later = assign_desired role current ns w' in if ok then later else (w', false)
      ]

  -- The two loops over groups.
  unfoldable pub update_groups : RoleSpec → RoleDetails → W → W × Bool
  unfolding unassign_undesired assign_desired
  update_groups spec d w =
      let expected = empty_slice_if_nil spec.role_assignment_group_names in
      let (w', current) = unassign_undesired d.id expected d.groups w in
      elim current [ none ↦ (w', false) | some names ↦ assign_desired d.id names expected w' ]

  -- The loop that takes the role from all its groups.
  unfoldable pub unassign_all : String → List RoleGroup → W → W × Bool
  unassign_all role [] w = (w, true)
  unassign_all role (g ∷ gs) w =
      and_then (api.unassign_role_from_group role g.id w) (unassign_all role gs)

module _ (kind : RoleKind) where
  -- The role has the name, and permissions of this kind.
  unfoldable pub is_role : String → RoleDetails → Bool
  is_role name d =
      d.display_name == name && elim (kind.permissions_of d) [ [] ↦ false | _ ∷ _ ↦ true ]

  -- The loop over the roles, to the first that fits.
  unfoldable pub find_role : String → List RoleDetails → Option RoleDetails
  unfolding is_role
  find_role name [] = none
  find_role name (d ∷ ds) = let rest = find_role name ds in if is_role name d then some d else rest

  -- systemPermissionRoleAlreadyAsExpected and organizationPermissionRoleAlreadyAsExpected; the slices
  -- made of what LogScale answers are not nil.
  unfoldable pub role_already_as_expected : RoleSpec → RoleDetails → Bool
  role_already_as_expected spec d = as_expected_of (
      ("name", same_text d.display_name spec.name)
      ∷ (
        "permissions",
        same_texts (sort_strings (some (kind.permissions_of d))) (sort_strings spec.permissions),
      )
      ∷ (
        "roleAssignmentGroupNames",
        same_texts (sort_strings (some (map (λ (g : RoleGroup). g.display_name) d.groups)))
            (sort_strings spec.role_assignment_group_names),
      )
      ∷ [])

  -- What the comparison leaves in memory: it sorts the slices of the resource.
  abbrev pub sorted_role : RoleSpec → RoleSpec
  sorted_role spec = record spec {
    permissions = sort_strings spec.permissions;
    role_assignment_group_names = sort_strings spec.role_assignment_group_names;
  }

  module _ {μ} {W : Type μ} (api : RoleApi W) where
    -- AddSystemPermissionRole, AddOrganizationPermissionRole; the slice that is sent is not nil.
    unfoldable pub add_role : RoleSpec → W → W × Bool
    add_role spec = api.create_role spec.name (kind.sent (empty_slice_if_nil spec.permissions))

    -- GetSystemPermissionRole, GetOrganizationPermissionRole
    unfoldable pub get_role : RoleSpec → W → Found RoleDetails
    unfolding find_role
    get_role spec w = elim (api.list_roles w) [
      | none ↦ failed
      | some roles ↦ elim (find_role spec.name roles) [ none ↦ not_found | some d ↦ found d ]
    ]

    -- The write of the permissions, if they differ.
    unfoldable pub update_permissions : RoleSpec → RoleDetails → W → W × Bool
    update_permissions spec d w =
        let permissions = empty_slice_if_nil spec.permissions in
        if equal_slices (kind.permissions_of d) permissions
        then (w, true)
        else api.update_role d.id d.display_name (kind.sent permissions) w

    -- UpdateSystemPermissionRole, UpdateOrganizationPermissionRole
    unfoldable pub update_role : RoleSpec → W → W × Bool
    unfolding find_role update_permissions update_groups
    update_role spec w = elim (api.list_roles w) [
      | none ↦ (w, false)
      | some roles ↦ elim (find_role spec.name roles) [
        | none ↦ (w, false)
        | some d ↦ and_then (update_permissions spec d w) (update_groups api spec d)
      ]
    ]

    -- DeleteSystemPermissionRole, DeleteOrganizationPermissionRole
    unfoldable pub delete_role : RoleSpec → W → W × Bool
    unfolding find_role unassign_all
    delete_role spec w = elim (api.list_roles w) [
      | none ↦ (w, false)
      | some roles ↦ elim (find_role spec.name roles) [
        | none ↦ (w, true)
        | some d ↦ and_then (unassign_all api d.id d.groups w) (api.delete_role_by_id d.id)
      ]
    ]

    -- The steps in which both reconcilers agree.
    abbrev pub role_controller : Controller RoleSpec RoleDetails W
    role_controller = record {
      log_scale = record {
        get = get_role;
        add = add_role;
        update = update_role;
        delete = delete_role;
        validate = λ spec w. true;
      };
      as_expected = role_already_as_expected;
      normalize = sorted_role;
      is_valid = λ spec. true;
      finalize_asks_for_cluster = true;
      ends_after_finalizer = false;
      always_reports = false;
      failure_state = state_unknown;
    }

module _ {μ} {W : Type μ} (api : RoleApi W) where
  -- Reconcile of HumioSystemPermissionRoleReconciler
  abbrev pub system_role_controller : Controller RoleSpec RoleDetails W
  system_role_controller = role_controller system_role api

  -- Reconcile of HumioOrganizationPermissionRoleReconciler
  abbrev pub organization_role_controller : Controller RoleSpec RoleDetails W
  organization_role_controller = role_controller organization_role api
