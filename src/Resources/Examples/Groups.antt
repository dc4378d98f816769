-- ===== src/Resources/Examples/Groups.antt =====
-- A LogScale with room for one group, and the theorems on all reconcilers at the one of groups.
use humio_operator.Common.{◌≡◌, refl, true, false, Option, none, some, [], ◌∷◌, keep, arith}
use humio_operator.Helpers.{contains_element, remove_element}
use humio_operator.Helpers.Removal.{other_than, remove_element_exact}
use humio_operator.Resources.{
  humio_finalizer, Resource, found, not_found, Controller, settles, reconcile, handle_deletion,
  write_finalizers, state_exists,
}
use humio_operator.Resources.Deletion.{begin, finalizer_kept}
use humio_operator.Resources.Writes.{WritesOnce, reconcile-WritesOnce}
use humio_operator.Resources.Convergence.{calm, IsServing, IsSynced, rounds, reconcile-IsSynced}
use humio_operator.Resources.Convergence.Rounds.{rounds-IsSynced}
use humio_operator.Resources.Cleanup.{rounds-release}
use humio_operator.Resources.Compare.{key_values, same_option}
use humio_operator.Resources.Group.{
  GroupSpec, GroupDetails, GroupApi, group_already_as_expected, get_group, group_controller,
}
use humio_operator.Resources.Group.Serving.{stored_name, IsGroupServer, is_proper, group-IsServing}

abbrev Store : Type 0
Store = Option GroupDetails

abbrev one_group : GroupApi Store
one_group = record {
  get_group_by_display_name = λ name w. w;
  create_group = λ name lookup w. (some (record { id = "g1"; lookup_name = lookup }), true);
  update_group =
      λ id name lookup w. (some (record { id = id; lookup_name = stored_name lookup }), true);
  delete_group = λ id w. (none, true);
}

one_server : IsGroupServer one_group
one_server = record {
  creates = λ name lookup w h. (refl, (record { id = "g1"; lookup_name = lookup }, refl, refl));
  updates = λ name lookup d w h.
      (refl, (record { id = d.id; lookup_name = stored_name lookup }, refl, refl));
  deletes = λ name d w h. (refl, refl);
}

abbrev groups : Controller GroupSpec GroupDetails Store
groups = group_controller one_group

abbrev serving : IsServing groups is_proper
serving = group-IsServing one_group one_server

abbrev details : GroupDetails
details = record { id = "g1"; lookup_name = some "idp-admins" }

abbrev fresh : Resource GroupSpec
fresh = record {
  spec = record { name = "admins"; external_mapping_name = some "idp-admins" };
  deleting = false;
  finalizers = "other" ∷ [];
  state = "";
}

abbrev guarded : Resource GroupSpec
guarded = record fresh { finalizers = "other" ∷ humio_finalizer ∷ []; state = state_exists }

abbrev marked : Resource GroupSpec
marked = record guarded { deleting = true }

guarded_has : contains_element guarded.finalizers humio_finalizer ≡ true
unfolding contains_element
guarded_has = refl

expected : group_already_as_expected guarded.spec details ≡ true
unfolding group_already_as_expected key_values same_option
expected = refl

fetched : get_group one_group guarded.spec (some details) ≡ found details
unfolding get_group
fetched = refl

synced : IsSynced groups guarded (some details)
synced = record {
  entity = details;
  is_found = fetched;
  is_expected = expected;
  is_guarded = guarded_has;
  is_reported = refl;
}

dropped :
    contains_element (reconcile groups calm (begin marked none)).0.stored.finalizers humio_finalizer
    ≡ false
unfolding reconcile handle_deletion write_finalizers contains_element remove_element get_group
dropped = refl

finalizer_kept_example :
    (marked.deleting ≡ true) × (get_group one_group marked.spec none ≡ not_found)
finalizer_kept_example = finalizer_kept groups calm marked none guarded_has dropped

reconcile-WritesOnce_example :
    WritesOnce groups marked
      (some details)
      (reconcile groups calm (begin marked (some details))).0.world
reconcile-WritesOnce_example = reconcile-WritesOnce groups calm marked (some details)

reconcile-IsSynced_example :
    ((reconcile groups calm (begin guarded (some details))).0.stored ≡ guarded)
    × ((reconcile groups calm (begin guarded (some details))).0.world ≡ some details)
    × ((reconcile groups calm (begin guarded (some details))).1 ≡ settles)
reconcile-IsSynced_example =
    reconcile-IsSynced groups is_proper serving guarded (some details) refl refl refl synced

rounds-IsSynced_example :
    IsSynced groups (rounds groups 2 fresh none).0 (rounds groups 2 fresh none).1
rounds-IsSynced_example = rounds-IsSynced groups is_proper serving 0 fresh none refl refl refl

rounds-release_example :
    ((rounds groups 2 marked (some details)).0.finalizers
      ≡ keep (other_than humio_finalizer) marked.finalizers)
    × ((rounds groups 2 marked (some details)).0.spec ≡ marked.spec)
    × (get_group one_group marked.spec (rounds groups 2 marked (some details)).1 ≡ not_found)
rounds-release_example =
    rounds-release groups is_proper serving 0 marked (some details) refl refl guarded_has
      (omega arith)

group-IsServing_example : IsServing (group_controller one_group) is_proper
group-IsServing_example = group-IsServing one_group one_server

remove_element_exact_example :
    remove_element ("a" ∷ "b" ∷ "c" ∷ []) "b" ≡ some (keep (other_than "b") ("a" ∷ "b" ∷ "c" ∷ []))
remove_element_exact_example = remove_element_exact ("a" ∷ "b" ∷ "c" ∷ []) "b" (omega arith)
