-- ===== src/Cluster/PodCompare/Environment.antt =====
-- Which environment variables a comparison reports.
use humio_operator.Common.{
  String, ◌≡◌, refl, Bool, true, false, not, none, some, List, [], ◌∷◌, ◌++◌, arith, any,
  any-append, All, ◌==◌, ◌&&◌, ◌||◌, eq_iff, eq_refl, is_some, if◌then◌else◌,
}
use humio_operator.Common.Map.{Map, lookup, insert}
use humio_operator.K8s.{EnvVar, Container}
use humio_operator.Cluster.Types.{HumioNodePool}
use humio_operator.Cluster.NodePool.{Getenv}
use humio_operator.Cluster.EnvVars.{env_var_value, env_var_has_key}
use humio_operator.Cluster.Sanitize.{humio_container_name, external_url, sanitize_container}
use humio_operator.Cluster.Sanitize.Order.{
  env_var_has_key-sanitize_container, env_var_value-sanitize_container,
}
use humio_operator.Cluster.PodCompare.{
  env_map_loop, env_map, differs, desired_loop, current_loop, env_mismatches,
}

-- Every entry of a map has the value that `f` gives its key.
abbrev IsFrom : (String → String) → Map String → Type 0
IsFrom f m = All (λ (e : String × String). e.1 ≡ f e.0) m

IsFrom-if :
    (f : String → String) (b : Bool) (m n : Map String)
    → IsFrom f m
    → IsFrom f n
    → IsFrom f (if b then m else n)
IsFrom-if f true m n hm hn = hm
IsFrom-if f false m n hm hn = hn

insert-IsFrom :
    (f : String → String) (k : String) (m : Map String) → IsFrom f m → IsFrom f (insert k (f k) m)
unfolding insert
insert-IsFrom f k [] h = (refl, tt)
insert-IsFrom f k ((j, v) ∷ m) h =
    IsFrom-if f (j == k) _ _ (refl, h.1) (h.0, insert-IsFrom f k m h.1)

env_map_loop-IsFrom :
    (all es : List EnvVar) (m : Map String)
    → IsFrom (env_var_value all) m
    → IsFrom (env_var_value all) (env_map_loop all es m)
unfolding env_map_loop
env_map_loop-IsFrom all [] m h = h
env_map_loop-IsFrom all (e ∷ es) m h =
    env_map_loop-IsFrom all es _ (insert-IsFrom (env_var_value all) e.name m h)

abbrev key_is : String → String × String → Bool
key_is k e = e.0 == k

any-insert :
    (k j : String) (v : String) (m : Map String)
    → any (key_is k) (insert j v m) ≡ (j == k || any (key_is k) m)
unfolding insert
any-insert k j v [] = ground arith
any-insert k j v ((i, w) ∷ m) =
    ground (arith, any-insert k j v m, eq_iff i j, eq_iff j k, eq_iff i k)

any-env_map_loop :
    (k : String) (all es : List EnvVar) (m : Map String)
    → any (key_is k) (env_map_loop all es m) ≡ (env_var_has_key es k || any (key_is k) m)
unfolding env_map_loop env_var_has_key
any-env_map_loop k all [] m = refl
any-env_map_loop k all (e ∷ es) m = ground (
  arith,
  any-env_map_loop k all es (insert e.name (env_var_value all e.name) m),
  any-insert k e.name (env_var_value all e.name) m,
)

lookup-IsFrom :
    (f : String → String) (k : String) (m : Map String)
    → IsFrom f m
    → lookup k m ≡ (if any (key_is k) m then some (f k) else none)
unfolding lookup
lookup-IsFrom f k [] h = refl
lookup-IsFrom f k ((j, v) ∷ m) h = ground (arith, lookup-IsFrom f k m h.1, h.0, eq_iff j k)

lookup-env_map :
    (k : String) (envs : List EnvVar)
    → lookup k (env_map envs)
      ≡ (if env_var_has_key envs k then some (env_var_value envs k) else none)
unfolding env_map
lookup-env_map k envs = ground (
  arith,
  lookup-IsFrom (env_var_value envs) k (env_map_loop envs envs [])
      (env_map_loop-IsFrom envs envs [] tt),
  any-env_map_loop k envs envs [],
)

abbrev pub among : String → List String → Bool
among k = any (λ (j : String). j == k)

among-desired_loop :
    (k : String) (f : String → String) (current m : Map String) (out : List String)
    → IsFrom f m
    → among k (desired_loop current m out)
      ≡ (among k out || (any (key_is k) m && differs (lookup k current) (f k)))
unfolding desired_loop
among-desired_loop k f current [] out h = ground arith
among-desired_loop k f current ((j, v) ∷ m) out h = ground (
  arith,
  among-desired_loop k f current m out h.1,
  among-desired_loop k f current m (out ++ j ∷ []) h.1,
  any-append (λ (i : String). i == k) out (j ∷ []),
  h.0,
  eq_iff j k,
)

among-current_loop :
    (k : String) (desired m : Map String) (out : List String)
    → among k (current_loop desired m out)
      ≡ (among k out || (any (key_is k) m && not (is_some (lookup k desired))))
unfolding current_loop
among-current_loop k desired [] out = ground arith
among-current_loop k desired ((j, v) ∷ m) out = ground (
  arith,
  among-current_loop k desired m out,
  among-current_loop k desired m (out ++ j ∷ []),
  any-append (λ (i : String). i == k) out (j ∷ []),
  eq_iff j k,
)

any-env_map :
    (k : String) (envs : List EnvVar) → any (key_is k) (env_map envs) ≡ env_var_has_key envs k
unfolding env_map
any-env_map k envs = ground (arith, any-env_map_loop k envs envs [])

env_map-IsFrom : (envs : List EnvVar) → IsFrom (env_var_value envs) (env_map envs)
unfolding env_map
env_map-IsFrom envs = env_map_loop-IsFrom envs envs [] tt

-- A name is reported exactly if one of the two containers has it and the other does not, or both
-- have it with different values.
pub env_mismatches_exact :
    (k : String) (current desired : List EnvVar)
    → among k (env_mismatches current desired []) ≡ (
        if env_var_has_key current k && env_var_has_key desired k
        then not (env_var_value current k == env_var_value desired k)
        else env_var_has_key current k || env_var_has_key desired k)
unfolding env_mismatches
env_mismatches_exact k current desired = ground (
  arith,
  among-current_loop k (env_map desired) (env_map current)
      (desired_loop (env_map current) (env_map desired) []),
  among-desired_loop k (env_var_value desired) (env_map current) (env_map desired) []
      (env_map-IsFrom desired),
  any-env_map k current,
  any-env_map k desired,
  lookup-env_map k current,
  lookup-env_map k desired,
)

-- `EXTERNAL_URL`, the one variable whose change makes all pods restart at once, is reported only if
-- one of the pods lacks it: between two pods that both have it a change of its value is never seen,
-- because both values are replaced by the pool's own before they are compared.
pub external_url_change_unseen :
    (getenv : Getenv) (pool : HumioNodePool) (current desired : Container)
    → current.name ≡ humio_container_name
    → desired.name ≡ humio_container_name
    → env_var_has_key current.env "EXTERNAL_URL" ≡ true
    → env_var_has_key desired.env "EXTERNAL_URL" ≡ true
    → among "EXTERNAL_URL" (
        env_mismatches
          (sanitize_container getenv pool current).env
          (sanitize_container getenv pool desired).env
          [])
      ≡ false
external_url_change_unseen getenv pool a b ha hb ka kb = ground (
  arith,
  env_mismatches_exact "EXTERNAL_URL" (sanitize_container getenv pool a).env
      (sanitize_container getenv pool b).env,
  env_var_has_key-sanitize_container getenv pool a ha "EXTERNAL_URL",
  env_var_has_key-sanitize_container getenv pool b hb "EXTERNAL_URL",
  env_var_value-sanitize_container getenv pool a ha "EXTERNAL_URL",
  env_var_value-sanitize_container getenv pool b hb "EXTERNAL_URL",
  eq_refl (external_url getenv pool),
)
