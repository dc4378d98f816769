-- ===== src/Resources/Role/Membership.antt =====
-- The groups that have a role after an update.
pub mod Steps
use mathlib.Core.Path.{subst}
use humio_operator.Common.{
  ◌≡◌, refl, sym, ap, ◌∙◌, String, Bool, true, false, not, none, some, List, [], ◌∷◌, ◌==◌, ◌&&◌,
  ◌||◌, map, keep, All, arith, eq_iff, Bool-cases, Option-cases, inl, inr,
}
use humio_operator.Helpers.{contains_element}
use humio_operator.Resources.Compare.{empty_slice_if_nil}
use humio_operator.Resources.Role.{
  RoleGroup, RoleDetails, RoleSpec, RoleApi, unassign_undesired, assign_desired, update_groups,
}
use humio_operator.Resources.Role.Membership.Steps.{
  contains-keep, eq_sym, kept, gone, skipped, added, both,
}

abbrev pub names : List RoleGroup → List String
names = map (λ (g : RoleGroup). g.display_name)

-- The id of the group is that of its name.
abbrev pub IsNamed : (String → String) → RoleGroup → Type 0
IsNamed group_id g = g.id ≡ group_id g.display_name

-- A call that succeeds does what it is asked to the groups that have a role, and a group is found by its
-- name. The id of a group is a function of its name.
pub record IsRoleServer {μ} {W : Type μ} (api : RoleApi W) (group_id : String → String)
    (has_role : String → String → W → Bool) : Type μ where
  pub distinct : (m n : String) → group_id m ≡ group_id n → m ≡ n
  pub finds :
      (name group : String) (w : W)
      → api.get_group_by_display_name name w ≡ some group
      → group ≡ group_id name
  pub assigns :
      (role group : String) (w : W)
      → (api.assign_role_to_group role group w).1 ≡ true
      → (g : String)
      → has_role role g (api.assign_role_to_group role group w).0
        ≡ (has_role role g w || g == group)
  pub unassigns :
      (role group : String) (w : W)
      → (api.unassign_role_from_group role group w).1 ≡ true
      → (g : String)
      → has_role role g (api.unassign_role_from_group role group w).0
        ≡ (has_role role g w && not (g == group))

module _ {μ} {W : Type μ} (api : RoleApi W) (group_id : String → String)
    (has_role : String → String → W → Bool) (server : IsRoleServer api group_id has_role)
    (role : String) where
  same_group : (m n : String) → (group_id m == group_id n) ≡ (m == n)
  same_group m n = elim (Bool-cases (m == n)) [
    | inl e ↦ (eq_iff (group_id m) (group_id n)).1 (ap group_id ((eq_iff m n).0 e)) ∙ sym e
    | inr e ↦ elim (Bool-cases (group_id m == group_id n)) [
      | inl f ↦
          absurd
            (cc (e, (eq_iff m n).1 (server.distinct m n ((eq_iff (group_id m) (group_id n)).0 f))))
      | inr f ↦ f ∙ sym e
    ]
  ]

  abbrev has : String → W → Bool
  has name w = has_role role (group_id name) w

  unassign_undesired_lem :
      (expected : List String) (gs : List RoleGroup) (w : W) (current : List String)
      → All (IsNamed group_id) gs
      → (unassign_undesired api role expected gs w).1 ≡ some current
      → (current ≡ keep (contains_element expected) (names gs))
        × ((name : String)
            → has name (unassign_undesired api role expected gs w).0 ≡ (
                has name w
                && not (contains_element (names gs) name && not (contains_element expected name))))
  unfolding unassign_undesired contains_element
  unassign_undesired_lem expected [] w current h e = (cc, λ name. ground arith)
  unassign_undesired_lem expected (g ∷ gs) w current (i, is) e =
      elim (Bool-cases (contains_element expected g.display_name)) [
        | inl k ↦ elim (Option-cases (unassign_undesired api role expected gs w).1) [
          | inl o ↦ absurd (ground (arith, e, k, o))
          | inr (rest, o) ↦
              let (p, q) = unassign_undesired_lem expected gs w rest is o in
              (
                ground (arith, e, k, o, p),
                λ name. rw k (kept expected g (names gs) name k _ _ (q name)),
              )
        ]
        | inr k ↦ elim (Bool-cases (api.unassign_role_from_group role g.id w).1) [
          | inr bad ↦ absurd (ground (arith, e, k, bad))
          | inl ok ↦
              let w' = (api.unassign_role_from_group role g.id w).0 in
              let e' : (unassign_undesired api role expected gs w').1 ≡ some current =
                ground (arith, e, k, ok) in
              let (p, q) = unassign_undesired_lem expected gs w' current is e' in
              let taken = λ (name : String).
                server.unassigns role g.id w ok (group_id name)
                ∙ ap (λ b. has name w && not b)
                    (ap (λ x. group_id name == x) i
                      ∙ same_group name g.display_name
                      ∙ eq_sym name g.display_name) in
              (
                p ∙ rw k,
                λ name.
                    rw (k, ok)
                      (gone expected g (names gs) name k (has name w) (has name w') _ (taken name)
                        (q name)),
              )
        ]
      ]

  assign_desired_lem :
      (current ns : List String) (w : W)
      → (assign_desired api role current ns w).1 ≡ true
      → (name : String)
      → has name (assign_desired api role current ns w).0
        ≡ (has name w || (contains_element ns name && not (contains_element current name)))
  unfolding assign_desired contains_element
  assign_desired_lem current [] w e name = ground arith
  assign_desired_lem current (n ∷ ns) w e name = elim (Bool-cases (contains_element current n)) [
    | inl k ↦
        let e' : (assign_desired api role current ns w).1 ≡ true = ground (arith, e, k) in
        rw k (skipped current n ns name k _ _ (assign_desired_lem current ns w e' name))
    | inr k ↦ elim (Option-cases (api.get_group_by_display_name n w)) [
      | inl o ↦ absurd (ground (arith, e, k, o))
      | inr (group, o) ↦ elim (Bool-cases (api.assign_role_to_group role group w).1) [
        | inr bad ↦ absurd (ground (arith, e, k, o, bad))
        | inl ok ↦
            let w' = (api.assign_role_to_group role group w).0 in
            let e' : (assign_desired api role current ns w').1 ≡ true =
              ground (arith, e, k, o, ok) in
            let given =
              server.assigns role group w ok (group_id name)
              ∙ ap (λ b. has name w || b)
                  (ap (λ x. group_id name == x) (server.finds n group w o)
                    ∙ same_group name n
                    ∙ eq_sym name n) in
            rw (k, o, ok)
              (added current n ns name k (has name w) (has name w') _ given
                (assign_desired_lem current ns w' e' name))
      ]
    ]
  ]

module _ {μ} {W : Type μ} (api : RoleApi W) (group_id : String → String)
    (has_role : String → String → W → Bool) (server : IsRoleServer api group_id has_role)
    (spec : RoleSpec) (d : RoleDetails) (w : W) where
  abbrev wanted : List String
  wanted = empty_slice_if_nil spec.role_assignment_group_names

  update_groups-some :
      (current : List String)
      → (unassign_undesired api d.id wanted d.groups w).1 ≡ some current
      → update_groups api spec d w
        ≡ assign_desired api d.id current wanted (unassign_undesired api d.id wanted d.groups w).0
  unfolding update_groups
  update_groups-some current o = ground (arith, o)

  update_groups-none :
      (unassign_undesired api d.id wanted d.groups w).1 ≡ none
      → (update_groups api spec d w).1 ≡ false
  unfolding update_groups
  update_groups-none o = ground (arith, o)

  -- Over a LogScale whose calls do what they are asked if they succeed, an update of a role's groups that
  -- succeeds leaves the role with exactly the groups that the resource lists, provided that LogScale
  -- answered with exactly the groups that had the role.
  pub update_groups-exact :
      All (IsNamed group_id) d.groups
      → ((name : String) → has_role d.id (group_id name) w ≡ contains_element (names d.groups) name)
      → (update_groups api spec d w).1 ≡ true
      → (name : String)
      → has_role d.id (group_id name) (update_groups api spec d w).0
        ≡ contains_element (empty_slice_if_nil spec.role_assignment_group_names) name
  update_groups-exact named listed e name =
      elim (Option-cases (unassign_undesired api d.id wanted d.groups w).1) [
        | inl o ↦ absurd (cc (e, update_groups-none o))
        | inr (current, o) ↦
            let same = update_groups-some current o in
            let w' = (unassign_undesired api d.id wanted d.groups w).0 in
            let (p, q) =
              unassign_undesired_lem api group_id has_role server d.id wanted d.groups w current
                named o in
            let assigned =
              assign_desired_lem api group_id has_role server d.id current wanted w'
                (ap (λ (x : W × Bool). x.1) (sym same) ∙ e) name in
            ap (λ (x : W × Bool). has_role d.id (group_id name) x.0) same
            ∙ assigned
            ∙ both (contains_element wanted name) (contains_element (names d.groups) name) _ _ _
                (listed name) (q name)
                (ap (λ l. contains_element l name) p
                  ∙ contains-keep (contains_element wanted) (names d.groups) name)
      ]
