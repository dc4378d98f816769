-- ===== src/Resources/Group/Serving.antt =====
-- The methods for groups of internal/humio/client.go over a LogScale that does what it is asked.
use humio_operator.Common.{
  ◌≡◌, refl, ◌∙◌, ◌⊎◌, inl, inr, String, Bool, true, not, Option, none, some, ◌==◌, arith,
  Option-cases, if◌then◌else◌, eq_refl,
}
use humio_operator.Resources.{found, not_found}
use humio_operator.Resources.Convergence.{IsServing}
use humio_operator.Resources.Compare.{same_option, key_values}
use humio_operator.Resources.Group.{
  GroupSpec, GroupDetails, GroupApi, group_already_as_expected, new_lookup_name, get_group,
  update_group, delete_group, group_controller,
}

-- The lookup name that is stored for one that is sent: LogScale answers with null for "".
abbrev pub stored_name : String → Option String
stored_name n = if n == "" then none else some n

-- LogScale's mutations for groups succeed and do what they are asked.
pub record IsGroupServer {μ} {W : Type μ} (api : GroupApi W) : Type μ where
  pub creates :
      (name : String) (lookup : Option String) (w : W)
      → api.get_group_by_display_name name w ≡ none
      → ((api.create_group name lookup w).1 ≡ true)
        × ((d : GroupDetails) × (api.get_group_by_display_name name
                (api.create_group name lookup w).0
              ≡ some d)
            × (d.lookup_name ≡ lookup))
  pub updates :
      (name lookup : String) (d : GroupDetails) (w : W)
      → api.get_group_by_display_name name w ≡ some d
      → ((api.update_group d.id name lookup w).1 ≡ true)
        × ((e : GroupDetails) × (api.get_group_by_display_name name
                (api.update_group d.id name lookup w).0
              ≡ some e)
            × (e.lookup_name ≡ stored_name lookup))
  pub deletes :
      (name : String) (d : GroupDetails) (w : W)
      → api.get_group_by_display_name name w ≡ some d
      → ((api.delete_group d.id w).1 ≡ true)
        × (api.get_group_by_display_name name (api.delete_group d.id w).0 ≡ none)

-- The mapping name is left out, or is not "".
abbrev pub is_proper : GroupSpec → Bool
is_proper spec = elim spec.external_mapping_name [ none ↦ true | some n ↦ not (n == "") ]

expected_of :
    (spec : GroupSpec) (d : GroupDetails)
    → d.lookup_name ≡ spec.external_mapping_name
    → group_already_as_expected spec d ≡ true
unfolding group_already_as_expected key_values same_option
expected_of spec d h = elim (Option-cases spec.external_mapping_name) [
  | inl p ↦ ground (arith, h, p)
  | inr (n, p) ↦ ground (arith, h, p, eq_refl n)
]

stored_name_of :
    (o : Option String)
    → elim o [ none ↦ true | some n ↦ not (n == "") ] ≡ true
    → stored_name (elim o [ none ↦ "" | some n ↦ n ]) ≡ o
stored_name_of none h = refl
stored_name_of (some n) h = ground (arith, h)

stored_name_lem :
    (spec : GroupSpec)
    → is_proper spec ≡ true
    → stored_name (new_lookup_name spec) ≡ spec.external_mapping_name
unfolding new_lookup_name
stored_name_lem spec h = stored_name_of spec.external_mapping_name h

module _ {μ} {W : Type μ} (api : GroupApi W) (server : IsGroupServer api) where
  read_none :
      (s : GroupSpec) (w : W)
      → get_group api s w ≡ not_found
      → api.get_group_by_display_name s.name w ≡ none
  unfolding get_group
  read_none s w h = ground (arith, h)

  read_some :
      (s : GroupSpec) (w : W) (d : GroupDetails)
      → get_group api s w ≡ found d
      → api.get_group_by_display_name s.name w ≡ some d
  unfolding get_group
  read_some s w d h = ground (arith, h)

  found_of :
      (s : GroupSpec) (w : W) (d : GroupDetails)
      → api.get_group_by_display_name s.name w ≡ some d
      → get_group api s w ≡ found d
  unfolding get_group
  found_of s w d h = ground (arith, h)

  reads_of :
      (s : GroupSpec) (w : W)
      → (get_group api s w ≡ not_found) ⊎ ((d : GroupDetails) × (get_group api s w ≡ found d))
  unfolding get_group
  reads_of s w = elim (Option-cases (api.get_group_by_display_name s.name w)) [
    | inl e ↦ inl (ground (arith, e))
    | inr (d, e) ↦ inr (d, ground (arith, e))
  ]

  update_of :
      (s : GroupSpec) (w : W) (d : GroupDetails)
      → get_group api s w ≡ found d
      → update_group api s w ≡ api.update_group d.id s.name (new_lookup_name s) w
  unfolding update_group
  update_of s w d h = ground (arith, h)

  delete_of :
      (s : GroupSpec) (w : W) (d : GroupDetails)
      → get_group api s w ≡ found d
      → delete_group api s w ≡ api.delete_group d.id w
  unfolding delete_group
  delete_of s w d h = ground (arith, h)

  gone :
      (s : GroupSpec) (w : W) (d : GroupDetails)
      → get_group api s w ≡ found d
      → get_group api s (delete_group api s w).0 ≡ not_found
  unfolding get_group
  gone s w d h = ground (arith, delete_of s w d h, server.deletes s.name d w (read_some s w d h))

  -- Over a LogScale whose mutations for groups succeed and do what they are asked, the client's methods
  -- for groups serve the reconciler of groups, for the specs whose mapping name is not the empty text.
  pub group-IsServing : IsServing (group_controller api) is_proper
  group-IsServing = record {
    reads = λ s w _. reads_of s w;
    validates = λ s w _. refl;
    get-normalize = λ s w _. refl;
    adds = λ s w _ h. (server.creates s.name s.external_mapping_name w (read_none s w h)).0;
    get-add = λ s w _ h.
        let (_, (d, p, q)) = server.creates s.name s.external_mapping_name w (read_none s w h) in
        (d, found_of s _ d p, expected_of s d q);
    updates = λ s w d _ h.
        let (p, _) = server.updates s.name (new_lookup_name s) d w (read_some s w d h) in
        cc (p, update_of s w d h);
    get-update = λ s w d b h.
        let (_, (e, p, q)) = server.updates s.name (new_lookup_name s) d w (read_some s w d h) in
        (e, found_of s _ e (cc (p, update_of s w d h)), expected_of s e (q ∙ stored_name_lem s b));
    deletes =
        λ s w d _ h. cc (delete_of s w d h, (server.deletes s.name d w (read_some s w d h)).0);
    get-delete = λ s w d _ h. gone s w d h;
  }
