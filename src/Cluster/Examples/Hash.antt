-- ===== src/Cluster/Examples/Hash.antt =====
-- The hash of a pod whose image and one variable are managed.
use humio_operator.Common.{◌≡◌, String, ◌<>◌, Option, none, some, [], ◌∷◌}
use humio_operator.K8s.{PodSpec, Pod}
use humio_operator.Cluster.PodHash.{pod_hash_minus_managed_fields}
use humio_operator.Cluster.PodHash.Managed.{pod_hash_minus_managed_fields_exact}
use humio_operator.Cluster.Examples.{var, humio, spec_of, pod_of}

-- The image and the values of the first container stand for all that the pod says.
abbrev digest : PodSpec → Option String
digest s = elim s.containers [
  | [] ↦ none
  | c ∷ cs ↦ some (c.image <> elim c.env [ [] ↦ "" | v ∷ vs ↦ v.value ])
]

abbrev managed : Pod
managed = record (pod_of "" [] "") { spec = spec_of (humio "humio:1" (var "A" "1" ∷ []) ∷ []) }

abbrev created : Pod
created = record (pod_of "core-0" [] "") {
  spec = spec_of (humio "humio:1" (var "A" "1" ∷ var "B" "2" ∷ []) ∷ []);
}

pod_hash_minus_managed_fields_exact_example :
    pod_hash_minus_managed_fields digest (some managed) created
    ≡ digest (record created.spec { containers = humio "" (var "A" "" ∷ var "B" "2" ∷ []) ∷ [] })
pod_hash_minus_managed_fields_exact_example =
    pod_hash_minus_managed_fields_exact digest managed created
