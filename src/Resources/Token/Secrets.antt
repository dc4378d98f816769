-- ===== src/Resources/Token/Secrets.antt =====
-- What a token's secret holds after ensureTokenSecret.
use humio_operator.Common.{◌≡◌, ◌⊎◌, String, true, false, Option, none, some, ◌==◌, arith, eq_iff}
use humio_operator.Cluster.Version.{first_part}
use humio_operator.Resources.Token.{
  TokenSpec, TokenSecret, TokenAnswers, TokenRun, desired_secret, set_token_state,
  ensure_token_secret_exists, ensure_token_secret,
}

abbrev pub name_of : Option TokenSecret → String
name_of none = ""
name_of (some s) = s.resource_name

abbrev pub id_of : Option TokenSecret → String
id_of none = ""
id_of (some s) = s.resource_id

module _ (spec : TokenSpec) where
  -- An existing secret is as it was, or was written with the same token for the same resource.
  abbrev pub KeepsToken : TokenSecret → String → Option TokenSecret → Type 0
  KeepsToken existing id s =
      (s ≡ some existing)
      ⊎ ((s ≡ some (desired_secret spec id existing.token)) × (existing.resource_name ≡ spec.name))

  abbrev pub IsUpToDate : String → Option TokenSecret → Type 0
  IsUpToDate id s = (name_of s ≡ spec.name) × (id_of s ≡ id)

  -- Why ensureTokenSecret returns an error for an existing secret.
  abbrev pub HasReason : TokenAnswers → TokenSecret → String → Type 0
  HasReason a existing id =
      (a.read_fails ≡ true)
      ⊎ ((a.reference_ok ≡ false)
          ⊎ ((a.secret_ok ≡ false)
              ⊎ ((spec.token_secret_name ≡ "")
                  ⊎ ((id ≡ "") ⊎ ((existing.resource_name == spec.name) ≡ false)))))

module _ {μ} {W : Type μ} (a : TokenAnswers) (spec : TokenSpec) where
  kept_lem :
      (existing : TokenSecret) (r : TokenRun W)
      → r.secret ≡ some existing
      → ((ensure_token_secret_exists a spec (some existing) "" r).0.world ≡ r.world)
        × KeepsToken spec existing r.id
            (ensure_token_secret_exists a spec (some existing) "" r).0.secret
        × ((((ensure_token_secret_exists a spec (some existing) "" r).1 ≡ false)
              × HasReason spec a existing r.id)
            ⊎ IsUpToDate spec r.id
                (ensure_token_secret_exists a spec (some existing) "" r).0.secret)
  unfolding ensure_token_secret_exists desired_secret
  kept_lem existing r h = ground (
    arith,
    h,
    eq_iff existing.resource_name spec.name,
    eq_iff existing.resource_id r.id,
    eq_iff spec.token_secret_name "",
    eq_iff r.id "",
  )

  -- The secret of a token survives every call, whatever the API server answers: it is left as it was,
  -- or, if it is one of this resource, written again with the token that it had; no token is rotated.
  -- After a call that returns no error, it names the resource and the id of the token; and an error
  -- has a reason: a call that failed, a missing name of the secret or id of the token, or a secret of
  -- another resource.
  pub ensure_token_secret_keeps :
      (rotate : String → W → W × Option String) (existing : TokenSecret) (r : TokenRun W)
      → r.secret ≡ some existing
      → ((ensure_token_secret a spec rotate r).0.world ≡ r.world)
        × KeepsToken spec existing r.id (ensure_token_secret a spec rotate r).0.secret
        × ((((ensure_token_secret a spec rotate r).1 ≡ false) × HasReason spec a existing r.id)
            ⊎ IsUpToDate spec r.id (ensure_token_secret a spec rotate r).0.secret)
  unfolding ensure_token_secret set_token_state
  ensure_token_secret_keeps rotate existing r h = ground (arith, h, kept_lem existing r h)

  -- Without a secret, a call that returns no error has rotated the token and made a secret of the whole
  -- answer, and the id is what stands before the first "~" of it.
  ensure_token_secret_rotates :
      (rotate : String → W → W × Option String) (response : String) (r : TokenRun W)
      → r.secret ≡ none
      → (rotate r.id r.world).1 ≡ some response
      → ((ensure_token_secret a spec rotate r).1 ≡ false)
        ⊎ ((ensure_token_secret a spec rotate r).0.secret
            ≡ some (desired_secret spec (first_part b'~' response) response))
  unfolding ensure_token_secret set_token_state ensure_token_secret_exists desired_secret
  ensure_token_secret_rotates rotate response r h k =
      ground (arith, h, k, eq_iff r.id (first_part b'~' response))
