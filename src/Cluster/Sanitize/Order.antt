-- ===== src/Cluster/Sanitize/Order.antt =====
-- Sorting the variables by name changes no value: among variables of one name the first stays first.
use text.Mathlib.TextPositions.{compare_refl}
use humio_operator.Common.{
  String, ◌≡◌, ◌≢◌, refl, true, List, [], ◌∷◌, map, arith, ◌==◌, eq_iff, ◌||◌, if◌then◌else◌,
}
use humio_operator.K8s.{EnvVar, Container}
use humio_operator.Cluster.Types.{HumioNodePool}
use humio_operator.Cluster.NodePool.{Getenv}
use humio_operator.Cluster.EnvVars.{env_var_value, env_var_has_key}
use humio_operator.Cluster.Sanitize.{
  name_above, insert_sorted, sort_env, sanitize_env_var, external_url, humio_container_name,
  sanitize_container,
}

name_above-ne : (a b : EnvVar) → name_above a b ≡ true → a.name ≢ b.name
unfolding name_above
name_above-ne a b h e = cc (h, compare_refl b.name, e)

env_var_value-insert_sorted :
    (k : String) (x : EnvVar) (ys : List EnvVar)
    → env_var_value (insert_sorted x ys) k ≡ (if x.name == k then x.value else env_var_value ys k)
unfolding insert_sorted env_var_value
env_var_value-insert_sorted k x [] = refl
env_var_value-insert_sorted k x (y ∷ ys) =
    ground (
      arith,
      env_var_value-insert_sorted k x ys,
      name_above-ne y x,
      eq_iff x.name k,
      eq_iff y.name k,
    )

env_var_has_key-insert_sorted :
    (k : String) (x : EnvVar) (ys : List EnvVar)
    → env_var_has_key (insert_sorted x ys) k ≡ (x.name == k || env_var_has_key ys k)
unfolding insert_sorted env_var_has_key
env_var_has_key-insert_sorted k x [] = ground arith
env_var_has_key-insert_sorted k x (y ∷ ys) = ground (arith, env_var_has_key-insert_sorted k x ys)

pub env_var_value-sort_env :
    (k : String) (xs : List EnvVar) → env_var_value (sort_env xs) k ≡ env_var_value xs k
unfolding sort_env env_var_value
env_var_value-sort_env k [] = refl
env_var_value-sort_env k (x ∷ xs) =
    ground (arith, env_var_value-insert_sorted k x (sort_env xs), env_var_value-sort_env k xs)

pub env_var_has_key-sort_env :
    (k : String) (xs : List EnvVar) → env_var_has_key (sort_env xs) k ≡ env_var_has_key xs k
unfolding sort_env env_var_has_key
env_var_has_key-sort_env k [] = refl
env_var_has_key-sort_env k (x ∷ xs) =
    ground (arith, env_var_has_key-insert_sorted k x (sort_env xs), env_var_has_key-sort_env k xs)

value-map-sanitize :
    (getenv : Getenv) (pool : HumioNodePool) (k : String) (xs : List EnvVar)
    → env_var_value (map (sanitize_env_var getenv pool) xs) k ≡ (
        if env_var_has_key xs k
        then if k == "EXTERNAL_URL" then external_url getenv pool else env_var_value xs k
        else "")
unfolding sanitize_env_var env_var_value env_var_has_key
value-map-sanitize getenv pool k [] = refl
value-map-sanitize getenv pool k (x ∷ xs) = ground (
  arith,
  value-map-sanitize getenv pool k xs,
  eq_iff x.name k,
  eq_iff x.name "EXTERNAL_URL",
  eq_iff "EXTERNAL_URL" k,
  eq_iff k "EXTERNAL_URL",
)

has_key-map-sanitize :
    (getenv : Getenv) (pool : HumioNodePool) (k : String) (xs : List EnvVar)
    → env_var_has_key (map (sanitize_env_var getenv pool) xs) k ≡ env_var_has_key xs k
unfolding sanitize_env_var env_var_has_key
has_key-map-sanitize getenv pool k [] = refl
has_key-map-sanitize getenv pool k (x ∷ xs) =
    ground (arith, has_key-map-sanitize getenv pool k xs, eq_iff x.name "EXTERNAL_URL")

module _ (getenv : Getenv) (pool : HumioNodePool) (c : Container)
    (humio : c.name ≡ humio_container_name) where
  -- The variables of a sanitized container named "humio" are those that it had, with their values,
  -- but `EXTERNAL_URL`, which has the pool's value.
  pub env_var_has_key-sanitize_container :
      (k : String)
      → env_var_has_key (sanitize_container getenv pool c).env k ≡ env_var_has_key c.env k
  unfolding sanitize_container
  env_var_has_key-sanitize_container k = ground (
    arith,
    env_var_has_key-sort_env k (map (sanitize_env_var getenv pool) c.env),
    has_key-map-sanitize getenv pool k c.env,
    eq_iff c.name humio_container_name,
  )

  pub env_var_value-sanitize_container :
      (k : String)
      → env_var_value (sanitize_container getenv pool c).env k ≡ (
          if env_var_has_key c.env k
          then if k == "EXTERNAL_URL" then external_url getenv pool else env_var_value c.env k
          else "")
  unfolding sanitize_container
  env_var_value-sanitize_container k = ground (
    arith,
    env_var_value-sort_env k (map (sanitize_env_var getenv pool) c.env),
    value-map-sanitize getenv pool k c.env,
    eq_iff c.name humio_container_name,
  )
