-- ===== src/Resources/Token.antt =====
-- The secrets of API tokens: internal/controller/common_tokens.go, ensureTokenSecret of
-- internal/controller/humiosystemtoken_controller.go, and RotateSystemToken of internal/humio/client.go.
pub mod Secrets
use humio_operator.Common.{
  String, Bool, true, false, not, Option, none, some, List, ◌==◌, ◌&&◌, ◌||◌, if◌then◌else◌,
}
use humio_operator.Common.Map.{Map}
use humio_operator.Cluster.Version.{first_part}
use humio_operator.Resources.{state_exists, state_config_failed}
use humio_operator.Resources.Compare.{same_option, same_list}

-- Labels or annotations, in the order of their keys; none for a nil map.
abbrev pub Tags : Type 0
Tags = Option (Map String)

same_tag : String × String → String × String → Bool
same_tag (k, v) (l, w) = k == l && v == w

-- cmp.Equal
unfoldable pub same_tags : Tags → Tags → Bool
unfolding same_tag
same_tags = same_option (same_list same_tag)

-- HumioTokenSpec, as far as it is read here: the labels are those of LabelsForSecret.
pub record TokenSpec : Type 0 where
  pub name : String
  pub token_secret_name : String
  pub secret_labels : Tags
  pub secret_annotations : Tags

-- A secret with its three fields, "" for one that is missing.
pub record TokenSecret : Type 0 where
  pub token : String
  pub resource_name : String
  pub resource_id : String
  pub labels : Tags
  pub annotations : Tags
  pub has_finalizer : Bool

-- What the API server answers in one call: whether the read of the secret fails otherwise than with
-- IsNotFound, and whether the other calls succeed.
pub record TokenAnswers : Type 0 where
  pub read_fails : Bool
  pub status_ok : Bool
  pub reference_ok : Bool
  pub secret_ok : Bool

-- The state and the id of a token in memory and as they are stored, its secret, and LogScale's state.
pub record TokenRun {μ} (W : Type μ) : Type μ where
  pub state : String
  pub id : String
  pub stored_state : String
  pub stored_id : String
  pub secret : Option TokenSecret
  pub world : W

unfoldable pub desired_secret : TokenSpec → String → String → TokenSecret
desired_secret spec id value = record {
  token = value;
  resource_name = spec.name;
  resource_id = id;
  labels = spec.secret_labels;
  annotations = spec.secret_annotations;
  has_finalizer = true;
}

-- The secret is to be written again.
secret_is_different : TokenSecret → TokenSecret → Bool
secret_is_different existing desired =
    not (existing.resource_id == desired.resource_id)
    || not (existing.token == desired.token)
    || not (same_tags existing.labels desired.labels)
    || not (same_tags existing.annotations desired.annotations)

-- `secretValue`
secret_value : Option TokenSecret → String → String
secret_value none secret = secret
secret_value (some existing) secret = if secret == "" then existing.token else secret

module _ {μ} {W : Type μ} (a : TokenAnswers) (spec : TokenSpec) where
  -- setState
  unfoldable pub set_token_state : String → String → TokenRun W → TokenRun W × Bool
  set_token_state state id r = if r.state == state && r.id == id then (r, true) else (
    record r {
      state = state;
      id = id;
      stored_state = if a.status_ok then state else r.stored_state;
      stored_id = if a.status_ok then id else r.stored_id;
    },
    a.status_ok,
  )

  write_secret : TokenSecret → TokenRun W → TokenRun W × Bool
  write_secret s r = (record r { secret = if a.secret_ok then some s else r.secret }, a.secret_ok)

  write_over : Option TokenSecret → TokenSecret → TokenRun W → TokenRun W × Bool
  unfolding write_secret secret_is_different
  write_over none desired r = write_secret desired r
  write_over (some existing) desired r =
      if not (existing.resource_name == spec.name)
      then (r, false)
      else if secret_is_different existing desired
      then write_secret desired r
      else (r, true)

  -- ensureTokenSecretExists
  unfoldable pub ensure_token_secret_exists :
      Option TokenSecret → String → TokenRun W → TokenRun W × Bool
  unfolding write_over secret_value
  ensure_token_secret_exists existing secret r =
      if spec.token_secret_name == "" || r.id == "" || not a.reference_ok
      then (r, false)
      else write_over existing (desired_secret spec r.id (secret_value existing secret)) r

  -- The answer of RotateSystemToken: the id is what stands before the first "~".
  after_rotation : W × Option String → TokenRun W → TokenRun W × Bool
  after_rotation (world, none) r = (record r { world = world }, false)
  after_rotation (world, some response) r =
      let (reported, ok) =
        set_token_state state_exists (first_part b'~' response) (record r { world = world }) in
      if ok then ensure_token_secret_exists none response reported else (reported, false)

  keep_secret : TokenSecret → TokenRun W → TokenRun W × Bool
  keep_secret existing r =
      let (kept, ok) = ensure_token_secret_exists (some existing) "" r in
      if ok then (kept, true) else ((set_token_state state_config_failed r.id kept).0, false)

  -- ensureTokenSecret
  unfoldable pub ensure_token_secret :
      (String → W → W × Option String) → TokenRun W → TokenRun W × Bool
  unfolding after_rotation keep_secret
  ensure_token_secret rotate r = if a.read_fails then (r, false) else elim r.secret [
    | none ↦ after_rotation (rotate r.id r.world) r
    | some existing ↦ keep_secret existing r
  ]
