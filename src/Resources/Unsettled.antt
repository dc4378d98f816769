-- ===== src/Resources/Unsettled.antt =====
-- Resources that no reconciliation settles, and states that are written over.
use humio_operator.Common.{
  ap, ◌∙◌, Bool, not, [], ◌≡◌, String, true, false, none, some, List, arith, eq_iff,
}
use humio_operator.Helpers.{contains_element}
use humio_operator.Resources.{
  humio_finalizer, Found, found, not_found, failed, Resource, Controller, reconcile,
  handle_resource, report, set_state, state_not_found, state_config_failed, state_exists,
}
use humio_operator.Resources.Deletion.{begin}
use humio_operator.Resources.Convergence.{calm}
use humio_operator.Resources.Compare.{
  organization_ownership, empty_slice_if_nil, key_values, same_texts, same_option, sort_strings,
}
use humio_operator.Resources.SearchDomain.{is_valid_domain}
use humio_operator.Resources.Alert.{
  AlertSpec, AlertDetails, alert_input, ClassicApi, alert_already_as_expected, sorted_alert,
  get_classic, update_classic, alert_controller,
}

-- An alert without labels in the resource differs from what LogScale answers if that has a list of
-- labels, even an empty one.
labels_differ :
    (spec : AlertSpec) (d : AlertDetails) (labels : List String)
    → spec.labels ≡ none
    → d.labels ≡ some labels
    → alert_already_as_expected spec d ≡ false
unfolding alert_already_as_expected key_values same_texts same_option sort_strings
labels_differ spec d labels h k = ground (arith, h, k)

module _ {μ} {W : Type μ} (api : ClassicApi W) (x : Resource AlertSpec) (w : W) where
  no_labels_sent : x.spec.labels ≡ none → empty_slice_if_nil (sort_strings x.spec.labels) ≡ []
  unfolding sort_strings empty_slice_if_nil
  no_labels_sent h = ap (λ l. empty_slice_if_nil (sort_strings l)) h

  update_classic-sorted :
      (d : AlertDetails)
      → x.spec.labels ≡ none
      → is_valid_domain api.domains x.spec.view_name w ≡ true
      → get_classic api x.spec w ≡ found d
      → update_classic api (sorted_alert x.spec) w
        ≡ api.update x.spec.view_name d.id
            (record {
              name = x.spec.name;
              description = x.spec.description;
              query_string = x.spec.query_string;
              query_start = x.spec.query_start;
              throttle_time_millis = x.spec.throttle_time_millis;
              enabled = not x.spec.silenced;
              actions = sort_strings x.spec.actions;
              labels = [];
              query_ownership = organization_ownership;
              throttle_field = x.spec.throttle_field;
            })
            w
  unfolding update_classic alert_input sorted_alert get_classic
  update_classic-sorted d h v g =
      rw (v, g)
        (ap
          (λ l.
            api.update x.spec.view_name d.id
              (record (alert_input (sorted_alert x.spec)) { labels = l }) w)
          (no_labels_sent h))

  -- Take a resource of an alert that is not being deleted, has the finalizer, leaves out the labels and
  -- names a search domain that is found. While all calls succeed, every reconciliation in which LogScale
  -- answers with a list of labels, even an empty one, whatever else it answers, makes the call that
  -- updates the alert, with an empty list of labels, and leaves LogScale as that call does.
  pub alert_without_labels :
      (d : AlertDetails) (labels : List String)
      → x.deleting ≡ false
      → contains_element x.finalizers humio_finalizer ≡ true
      → x.spec.labels ≡ none
      → is_valid_domain api.domains x.spec.view_name w ≡ true
      → get_classic api x.spec w ≡ found d
      → d.labels ≡ some labels
      → (reconcile (alert_controller api) calm (begin x w)).0.world
        ≡ (api.update x.spec.view_name d.id
            (record {
              name = x.spec.name;
              description = x.spec.description;
              query_string = x.spec.query_string;
              query_start = x.spec.query_start;
              throttle_time_millis = x.spec.throttle_time_millis;
              enabled = not x.spec.silenced;
              actions = sort_strings x.spec.actions;
              labels = [];
              query_ownership = organization_ownership;
              throttle_field = x.spec.throttle_field;
            })
            w).0
  unfolding reconcile handle_resource report set_state
  alert_without_labels d labels k f h v g l =
      ground (arith, k, f, g, labels_differ x.spec d labels h l)
      ∙ ap (λ (r : W × Bool). r.0) (update_classic-sorted d h v g)

module _ {ℓ κ μ} {S : Type ℓ} {E : Type κ} {W : Type μ} (c : Controller S E W) (x : Resource S)
    (w : W) where
  -- The state that a read stands for.
  abbrev pub read_state : Found E → String
  read_state (found e) = state_exists
  read_state not_found = state_not_found
  read_state failed = c.failure_state

  -- The state ConfigError that a controller which reports at the end of every reconciliation sets for
  -- a spec that is not valid does not last: while all calls succeed, the state after the reconciliation
  -- is Exists if LogScale has such an entity, NotFound if it has none, and the controller's own for
  -- failures if the read fails.
  pub config_error_lost :
      c.always_reports ≡ true
      → c.is_valid x.spec ≡ false
      → x.deleting ≡ false
      → contains_element x.finalizers humio_finalizer ≡ true
      → (reconcile c calm (begin x w)).0.stored.state ≡ read_state (c.log_scale.get x.spec w)
  unfolding reconcile handle_resource report set_state
  config_error_lost a v d f = ground (
    arith,
    a,
    v,
    d,
    f,
    eq_iff x.state state_config_failed,
    eq_iff state_config_failed (read_state (c.log_scale.get x.spec w)),
    eq_iff x.state (read_state (c.log_scale.get x.spec w)),
  )
