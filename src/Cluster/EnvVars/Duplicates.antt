-- ===== src/Cluster/EnvVars/Duplicates.antt =====
-- What `findDuplicateEnvVars` reports.
use humio_operator.Common.{
  ℕ, suc, ◌+◌, String, ◌≡◌, refl, Option, none, some, List, [], ◌∷◌, arith, ltb, count, ◌==◌,
  eq_iff, if◌then◌else◌, ◌∙◌,
}
use humio_operator.Common.Map.{Map, lookup, insert, lookup-insert}
use humio_operator.K8s.{EnvVar}
use humio_operator.Cluster.EnvVars.{count_of, duplicates_loop, find_duplicate_env_vars}

-- How often a name stands in a list of variables.
abbrev pub occurrences : String → List EnvVar → ℕ
occurrences k = count (λ (e : EnvVar). e.name == k)

abbrev merged : ℕ → ℕ → Option ℕ → Option ℕ
merged n before old =
    if ltb 0 n then (if ltb 1 (before + n) then some (before + n) else old) else old

count_of-insert :
    (k j : String) (n : ℕ) (m : Map ℕ)
    → count_of j (insert k n m) ≡ (if k == j then n else count_of j m)
unfolding count_of
count_of-insert k j n m = ground (arith, lookup-insert k j n m)

merged_step :
    (k : String) (e : EnvVar) (es : List EnvVar) (counts duplicates : Map ℕ)
    → merged (occurrences k es) (count_of k (insert e.name (suc (count_of e.name counts)) counts)) (
        lookup k (
          if ltb 1 (suc (count_of e.name counts))
          then insert e.name (suc (count_of e.name counts)) duplicates
          else duplicates))
      ≡ merged (occurrences k (e ∷ es)) (count_of k counts) (lookup k duplicates)
merged_step k e es counts duplicates = ground (
  arith,
  eq_iff e.name k,
  count_of-insert e.name k (suc (count_of e.name counts)) counts,
  lookup-insert e.name k (suc (count_of e.name counts)) duplicates,
)

duplicates_loop_lem :
    (k : String) (es : List EnvVar) (counts duplicates : Map ℕ)
    → lookup k (duplicates_loop es counts duplicates)
      ≡ merged (occurrences k es) (count_of k counts) (lookup k duplicates)
unfolding duplicates_loop
duplicates_loop_lem k [] counts duplicates = refl
duplicates_loop_lem k (e ∷ es) counts duplicates =
    duplicates_loop_lem k es _ _ ∙ merged_step k e es counts duplicates

-- A name is reported exactly when it stands in the list more than once, and with the number of
-- times that it does.
pub find_duplicate_env_vars-eq-occurrences :
    (k : String) (envs : List EnvVar)
    → lookup k (find_duplicate_env_vars envs)
      ≡ (if ltb 1 (occurrences k envs) then some (occurrences k envs) else none)
unfolding find_duplicate_env_vars
find_duplicate_env_vars-eq-occurrences k envs =
    duplicates_loop_lem k envs [] [] ∙ (unfold lookup count_of in ground arith)
