-- ===== src/Resources/Examples/Roles.antt =====
-- A LogScale with one role and groups whose ids are their names, and the theorems on roles at it.
use humio_operator.Common.{
  ◌≡◌, ◌↔◌, refl, String, Bool, true, not, some, List, [], ◌∷◌, ◌==◌, keep, arith, sym,
}
use humio_operator.Helpers.{contains_element}
use humio_operator.Resources.Compare.{empty_slice_if_nil}
use humio_operator.Resources.Role.{
  RoleDetails, RoleSpec, RoleApi, unassign_undesired, assign_desired, update_groups,
}
use humio_operator.Resources.Role.Slices.{equal_slices}
use humio_operator.Resources.Role.Slices.Exact.{equal_slices_exact}
use humio_operator.Resources.Role.Slices.Counting.{occurrences}
use humio_operator.Resources.Role.Membership.Steps.{contains-keep, eq_sym}
use humio_operator.Resources.Role.Membership.{IsRoleServer, update_groups-exact}

-- The groups that have the role.
abbrev one_role : RoleApi (List String)
one_role = record {
  list_roles = λ w. some [];
  create_role = λ name sent w. (w, true);
  update_role = λ id name sent w. (w, true);
  delete_role_by_id = λ id w. (w, true);
  get_group_by_display_name = λ name w. some name;
  assign_role_to_group = λ role group w. (group ∷ w, true);
  unassign_role_from_group = λ role group w. (keep (λ g. not (g == group)) w, true);
}

abbrev has_role : String → String → List String → Bool
has_role role group w = contains_element w group

option_of : (m n : String) → some m ≡ some n → m ≡ n
option_of m n e = cc e

one_server : IsRoleServer one_role (λ name. name) has_role
unfolding contains_element
one_server = record {
  distinct = λ m n e. e;
  finds = λ name group w e. sym (option_of name group e);
  assigns = λ role group w e g. ground (arith, eq_sym group g);
  unassigns = λ role group w e g. contains-keep (λ h. not (h == group)) w g;
}

abbrev held : List String
held = "devs" ∷ "old" ∷ []

abbrev role : RoleDetails
role = record {
  id = "r1";
  display_name = "ops";
  organization_permissions = [];
  system_permissions = "ManageCluster" ∷ [];
  groups =
      record { id = "devs"; display_name = "devs" }
      ∷ record { id = "old"; display_name = "old" }
      ∷ [];
}

abbrev spec : RoleSpec
spec = record {
  name = "ops";
  permissions = some ("ManageCluster" ∷ []);
  role_assignment_group_names = some ("admins" ∷ "devs" ∷ []);
}

listed : (name : String) → has_role "r1" name held ≡ contains_element held name
listed name = refl

succeeds : (update_groups one_role spec role held).1 ≡ true
unfolding update_groups unassign_undesired assign_desired contains_element empty_slice_if_nil
succeeds = refl

update_groups-exact_example :
    has_role "r1" "old" (update_groups one_role spec role held).0
    ≡ contains_element (empty_slice_if_nil spec.role_assignment_group_names) "old"
update_groups-exact_example =
    update_groups-exact one_role (λ name. name) has_role one_server spec role held
      (refl, (refl, tt)) listed succeeds "old"

equal_slices_exact_example :
    (equal_slices ("a" ∷ "b" ∷ []) ("b" ∷ "a" ∷ []) ≡ true)
    ↔ ((s : String) → occurrences s ("a" ∷ "b" ∷ []) ≡ occurrences s ("b" ∷ "a" ∷ []))
equal_slices_exact_example = equal_slices_exact ("a" ∷ "b" ∷ []) ("b" ∷ "a" ∷ [])
