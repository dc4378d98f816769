-- ===== src/Resources/Examples/Tokens.antt =====
-- The theorems on tokens at one whose id has changed since its secret was written.
use humio_operator.Common.{
  ◌≡◌, refl, ◌⊎◌, String, Bool, true, false, Option, none, some, List, [], ◌∷◌,
}
use humio_operator.Resources.{state_exists}
use humio_operator.Resources.Token.{
  TokenSpec, TokenSecret, TokenAnswers, TokenRun, ensure_token_secret,
}
use humio_operator.Resources.Token.Secrets.{
  KeepsToken, HasReason, IsUpToDate, ensure_token_secret_keeps,
}

abbrev calls_succeed : TokenAnswers
calls_succeed = record {
  read_fails = false;
  status_ok = true;
  reference_ok = true;
  secret_ok = true;
}

abbrev ci_token : TokenSpec
ci_token = record {
  name = "ci";
  token_secret_name = "ci-token";
  secret_labels = none;
  secret_annotations = none;
}

abbrev old_secret : TokenSecret
old_secret = record {
  token = "id1~abc";
  resource_name = "ci";
  resource_id = "id1";
  labels = none;
  annotations = none;
  has_finalizer = true;
}

-- LogScale's state is the number of the rotations, as a list.
abbrev rotate : String → List Bool → List Bool × Option String
rotate id w = (true ∷ w, some "id3~xyz")

abbrev token : TokenRun (List Bool)
token = record {
  state = state_exists;
  id = "id2";
  stored_state = state_exists;
  stored_id = "id2";
  secret = some old_secret;
  world = [];
}

ensure_token_secret_keeps_example :
    let p = ensure_token_secret calls_succeed ci_token rotate token in
    (p.0.world ≡ [])
    × KeepsToken ci_token old_secret "id2" p.0.secret
    × (((p.1 ≡ false) × HasReason ci_token calls_succeed old_secret "id2")
        ⊎ IsUpToDate ci_token "id2" p.0.secret)
ensure_token_secret_keeps_example =
    ensure_token_secret_keeps calls_succeed ci_token rotate old_secret token refl
