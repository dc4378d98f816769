-- ===== src/Cluster/EnvVars/Merging.antt =====
-- Precedence when lists of environment variables are merged.
use humio_operator.Common.{
  String, ◌≡◌, refl, Bool, true, false, not, List, [], ◌∷◌, ◌++◌, arith, eq_iff, ◌||◌,
  if◌then◌else◌,
}
use humio_operator.K8s.{EnvVar}
use humio_operator.Cluster.EnvVars.{
  env_var_value, env_var_has_key, merge_add, merge_loop, merge_env_vars, add_new,
  merge_environment_variables,
}

-- The value that a name has in one list, or in the second list if the first does not name it.
abbrev pub first_of_both : String → List EnvVar → List EnvVar → String
first_of_both k xs ys = if env_var_has_key xs k then env_var_value xs k else env_var_value ys k

pub env_var_has_key-append :
    (xs ys : List EnvVar) (k : String)
    → env_var_has_key (xs ++ ys) k ≡ (env_var_has_key xs k || env_var_has_key ys k)
unfolding env_var_has_key
env_var_has_key-append [] ys k = refl
env_var_has_key-append (x ∷ xs) ys k = ground (arith, env_var_has_key-append xs ys k)

pub env_var_value-append :
    (xs ys : List EnvVar) (k : String) → env_var_value (xs ++ ys) k ≡ first_of_both k xs ys
unfolding env_var_has_key env_var_value
env_var_value-append [] ys k = refl
env_var_value-append (x ∷ xs) ys k = ground (arith, env_var_value-append xs ys k)

merge_add_lem :
    (common : EnvVar) (node : EnvVar) (rest : List EnvVar) (add : Bool)
    → merge_add common (node ∷ rest) add ≡ not (env_var_has_key (node ∷ rest) common.name)
unfolding merge_add env_var_has_key
merge_add_lem common node [] add =
    ground (arith, eq_iff common.name node.name, eq_iff node.name common.name)
merge_add_lem common node (n ∷ rest) add = ground (
  arith,
  eq_iff common.name node.name,
  eq_iff node.name common.name,
  merge_add_lem common n rest true,
)

env_var_value_missing :
    (k : String) (xs : List EnvVar) → env_var_has_key xs k ≡ false → env_var_value xs k ≡ ""
unfolding env_var_has_key env_var_value
env_var_value_missing k [] h = refl
env_var_value_missing k (x ∷ xs) h = ground (arith, env_var_value_missing k xs)

merge_loop_lem :
    (k : String) (from : List EnvVar) (x : EnvVar) (into : List EnvVar)
    → env_var_value (merge_loop from (x ∷ into)) k ≡ first_of_both k (x ∷ into) from
unfolding merge_loop env_var_has_key env_var_value
merge_loop_lem k [] x into = ground (arith, env_var_value_missing k into)
merge_loop_lem k (c ∷ from) x into = ground (
  arith,
  merge_add_lem c x into false,
  merge_loop_lem k from x into,
  merge_loop_lem k from x (into ++ c ∷ []),
  env_var_value-append into (c ∷ []) k,
  env_var_has_key-append into (c ∷ []) k,
  eq_iff c.name k,
  eq_iff x.name k,
  eq_iff x.name c.name,
)

-- In a merge the names of `into` keep the values that they have there, and every other name has its
-- value in `from`.
merge_env_vars-prefers_into :
    (k : String) (from into : List EnvVar)
    → env_var_value (merge_env_vars from into) k ≡ first_of_both k into from
unfolding merge_env_vars env_var_has_key
merge_env_vars-prefers_into k from [] = refl
merge_env_vars-prefers_into k from (x ∷ into) = merge_loop_lem k from x into

add_new_lem :
    (k : String) (existing : List EnvVar) (src env : List EnvVar)
    → env_var_value (add_new existing src env) k ≡ (
        if env_var_has_key env k
        then env_var_value env k
        else if env_var_has_key existing k
        then ""
        else env_var_value src k)
unfolding add_new env_var_has_key env_var_value
add_new_lem k existing [] env = ground (arith, env_var_value_missing k env)
add_new_lem k existing (c ∷ from) env = ground (
  arith,
  add_new_lem k existing from env,
  add_new_lem k existing from (env ++ c ∷ []),
  env_var_value-append env (c ∷ []) k,
  env_var_has_key-append env (c ∷ []) k,
  eq_iff c.name k,
)

-- A container that is merged into another keeps the values of the variables that it has, and gets
-- the others from the new one.
merge_environment_variables-prefers_dest :
    (k : String) (src dest : List EnvVar)
    → env_var_value (merge_environment_variables src dest) k ≡ first_of_both k dest src
unfolding merge_environment_variables
merge_environment_variables-prefers_dest k [] dest =
    (unfold env_var_value in ground (arith, env_var_value_missing k dest))
merge_environment_variables-prefers_dest k (e ∷ es) dest =
    ground (arith, add_new_lem k dest (e ∷ es) dest)
