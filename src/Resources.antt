-- ===== src/Resources.antt =====
-- The reconcilers of resources that live in LogScale, internal/controller/humio*_controller.go. Eight of
-- them take the same steps, which are here; what they differ in is a `Controller`, which the module of
-- each kind of resource has. LogScale is an interface over a state of its own.
pub mod Deletion
pub mod Convergence
pub mod Cleanup
pub mod Writes
pub mod Compare
pub mod Numbers
pub mod Repository
pub mod View
pub mod SearchDomain
pub mod Alert
pub mod FilterAlert
pub mod AggregateAlert
pub mod Parser
pub mod User
pub mod Group
pub mod Role
pub mod Unsettled
pub mod Token
mod Examples
use humio_operator.Common.{
  String, Bool, true, false, not, Option, none, some, List, [], ◌∷◌, ◌++◌, ◌==◌, if◌then◌else◌,
}
use humio_operator.Helpers.{contains_element, remove_element}

-- HumioFinalizer
abbrev pub humio_finalizer : String
humio_finalizer = "core.humio.com/finalizer"

-- The values of the states, the same for all kinds of resources.
abbrev pub state_exists : String
state_exists = "Exists"

abbrev pub state_not_found : String
state_not_found = "NotFound"

abbrev pub state_unknown : String
state_unknown = "Unknown"

abbrev pub state_config_failed : String
state_config_failed = "ConfigError"

-- A custom resource with what the reconcilers read of its metadata and its status.
pub record Resource {ℓ} (S : Type ℓ) : Type ℓ where
  pub spec : S
  pub deleting : Bool
  pub finalizers : List String
  pub state : String

-- The answer to a read of an entity: `not_found` is the error EntityNotFound.
pub data Found {ℓ} (E : Type ℓ) : Type ℓ where
  found : E → Found E
  not_found : Found E
  failed : Found E

-- What a reconciler calls of LogScale for one kind of entity, over LogScale's state. A write answers
-- whether it succeeded.
pub record LogScale {ℓ κ μ} (S : Type ℓ) (E : Type κ) (W : Type μ) : Type (ℓ ⊔ κ ⊔ μ) where
  pub get : S → W → Found E
  pub add : S → W → W × Bool
  pub update : S → W → W × Bool
  pub delete : S → W → W × Bool
  pub validate : S → W → Bool

-- The answer of NewCluster in a finalize method: an error is `cluster_absent` if it is IsNotFound.
pub data ClusterAnswer : Type 0 where
  cluster_found cluster_absent cluster_failed : ClusterAnswer

-- What the API server answers in one reconciliation: whether there is a cluster with a client
-- configuration, the answer to the second question for it, whether the write of the resource and the
-- writes of its status succeed, and whether the read of the entity that decides the state fails.
pub record Answers : Type 0 where
  pub cluster_ok : Bool
  pub second_cluster : ClusterAnswer
  pub update_ok : Bool
  pub status_ok : Bool
  pub last_read_fails : Bool

-- One kind of resource: LogScale's calls for it, how the entity is compared, what a comparison leaves
-- of the spec in memory, the check of the spec, and the four points in which the code differs.
pub record Controller {ℓ κ μ} (S : Type ℓ) (E : Type κ) (W : Type μ) : Type (ℓ ⊔ κ ⊔ μ) where
  pub log_scale : LogScale S E W
  pub as_expected : S → E → Bool
  pub normalize : S → S
  pub is_valid : S → Bool
  -- finalize asks for the cluster again before it deletes
  pub finalize_asks_for_cluster : Bool
  -- the reconciliation ends after the finalizer is added
  pub ends_after_finalizer : Bool
  -- the state is written at the end of every reconciliation, not only past the finalizer
  pub always_reports : Bool
  -- the state for a read that failed
  pub failure_state : String

-- How a reconciliation returns: with RequeueAfter of the requeue period, with Requeue, with an empty
-- result, with an error, or by a panic.
pub data Ending : Type 0 where
  settles requeues rests fails panics : Ending

-- A reconciliation at some point: the resource in memory, the one stored, and LogScale's state.
pub record Run {ℓ μ} (S : Type ℓ) (W : Type μ) : Type (ℓ ⊔ μ) where
  pub memory : Resource S
  pub stored : Resource S
  pub world : W

module _ {ℓ μ} {S : Type ℓ} {W : Type μ} (a : Answers) where
  -- r.Update after SetFinalizers
  unfoldable pub write_finalizers : List String → Run S W → Run S W
  write_finalizers fs r =
      let memory = record r.memory { finalizers = fs } in
      record r {
        memory = memory;
        stored = if a.update_ok then record r.stored { finalizers = fs } else r.stored;
      }

  -- setState; the Boolean says whether it returns no error.
  unfoldable pub set_state : String → Run S W → Run S W × Bool
  set_state s r = if r.memory.state == s then (r, true) else (
    record r {
      memory = record r.memory { state = s };
      stored = if a.status_ok then record r.stored { state = s } else r.stored;
    },
    a.status_ok,
  )

module _ {ℓ κ μ} {S : Type ℓ} {E : Type κ} {W : Type μ} (c : Controller S E W) (a : Answers) where
  -- The removal of the finalizer, once the entity is gone.
  drop_finalizer : Option (List String) → Run S W → Run S W × Ending
  unfolding write_finalizers
  drop_finalizer none r = (r, panics)
  drop_finalizer (some fs) r = (write_finalizers a fs r, if a.update_ok then requeues else fails)

  -- The finalize method, or the plain call that deletes.
  finalize : Run S W → Run S W × Bool
  finalize r =
      let (world, ok) = c.log_scale.delete r.memory.spec r.world in
      if c.finalize_asks_for_cluster
      then elim a.second_cluster [
        | cluster_found ↦ (record r { world = world }, ok)
        | cluster_absent ↦ (r, true)
        | cluster_failed ↦ (r, false)
      ]
      else (record r { world = world }, ok)

  after_finalize : Run S W × Bool → Run S W × Ending
  after_finalize (r, ok) = (r, if ok then requeues else fails)

  -- A resource that is marked to be deleted.
  unfoldable pub handle_deletion : Run S W → Run S W × Ending
  unfolding drop_finalizer finalize after_finalize
  handle_deletion r =
      if contains_element r.memory.finalizers humio_finalizer
      then elim (c.log_scale.get r.memory.spec r.world) [
        | not_found ↦ drop_finalizer (remove_element r.memory.finalizers humio_finalizer) r
        | failed ↦ after_finalize (finalize r)
        | found e ↦ after_finalize (finalize r)
      ]
      else (r, rests)

  after_write : Run S W → W × Bool → Ending → Run S W × Ending
  after_write r (world, ok) success = (record r { world = world }, if ok then success else fails)

  -- An entity that is there: the comparison, and the update.
  compare_and_update : E → Run S W → Run S W × Ending
  unfolding after_write
  compare_and_update e r =
      let compared = record r { memory = record r.memory { spec = c.normalize r.memory.spec } } in
      if not (c.log_scale.validate r.memory.spec r.world)
      then (r, fails)
      else if c.as_expected r.memory.spec e
      then (compared, settles)
      else after_write compared (c.log_scale.update compared.memory.spec compared.world) settles

  -- The read of the entity, and what follows from it.
  ensure_entity : Run S W → Run S W × Ending
  unfolding after_write compare_and_update
  ensure_entity r = elim (c.log_scale.get r.memory.spec r.world) [
    | found e ↦ compare_and_update e r
    | not_found ↦ after_write r (c.log_scale.add r.memory.spec r.world) requeues
    | failed ↦ (r, fails)
  ]

  -- The state that the deferred function writes.
  state_of_read : Found E → String
  state_of_read (found e) = if a.last_read_fails then c.failure_state else state_exists
  state_of_read not_found = if a.last_read_fails then c.failure_state else state_not_found
  state_of_read failed = c.failure_state

  -- The deferred function, which ignores the error of setState.
  unfoldable pub report : Run S W × Ending → Run S W × Ending
  unfolding set_state state_of_read
  report (r, returned) =
      ((set_state a (state_of_read (c.log_scale.get r.memory.spec r.world)) r).0, returned)

  after_config_error : Run S W × Bool → Ending → Run S W × Ending
  after_config_error (r, ok) success = (r, if ok then success else fails)

  -- The check of the spec, and the entity.
  check_and_ensure : Run S W → Run S W × Ending
  unfolding after_config_error ensure_entity set_state
  check_and_ensure r =
      if c.is_valid r.memory.spec
      then ensure_entity r
      else after_config_error (set_state a state_config_failed r) rests

  -- Past the finalizer.
  pub past_finalizer : Run S W → Run S W × Ending
  unfolding check_and_ensure report
  past_finalizer r = if c.always_reports then check_and_ensure r else report (check_and_ensure r)

  -- A resource that is not to be deleted.
  unfoldable pub handle_resource : Run S W → Run S W × Ending
  unfolding write_finalizers past_finalizer
  handle_resource r =
      if contains_element r.memory.finalizers humio_finalizer
      then past_finalizer r
      else let added = write_finalizers a (r.memory.finalizers ++ humio_finalizer ∷ []) r in
        if not a.update_ok
        then (added, fails)
        else if c.ends_after_finalizer
        then (added, requeues)
        else past_finalizer added

  -- One reconciliation of a resource that was read, once its namespace is the reconciler's.
  unfoldable pub reconcile : Run S W → Run S W × Ending
  unfolding handle_deletion handle_resource report after_config_error set_state
  reconcile r =
      if not a.cluster_ok
      then after_config_error (set_state a state_config_failed r) fails
      else let handled = if r.memory.deleting then handle_deletion r else handle_resource r in
        if c.always_reports then report handled else handled
