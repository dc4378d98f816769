-- ===== src/Cluster/Examples/Creation.antt =====
-- The theorems on the creation of pods at a pool of three nodes that has one pod.
use humio_operator.Common.{
  ℕ, ◌-◌, ◌≤◌, ◌<◌, ◌≡◌, ◌≢◌, refl, ◌⊎◌, String, true, Option, some, List, [], ◌∷◌, length,
}
use humio_operator.Common.Int.{pos}
use humio_operator.K8s.{Pod, persistent_volume_claim}
use humio_operator.Cluster.Types.{HumioNodePool}
use humio_operator.Cluster.Sanitize.{humio_data_volume_name}
use humio_operator.Cluster.Pvc.{Claim, claims_in_use}
use humio_operator.Cluster.Creation.{Answers, ensure_pods_exist, creation_failed, creation_panics}
use humio_operator.Cluster.Creation.Claims.{
  FailsIn, ensure_pods_exist-IsFresh, ensure_pods_exist_exact,
}
use humio_operator.Cluster.Creation.Names.{all_new, is_distinct, claims_of}
use humio_operator.Cluster.Examples.{pool_with, rolling, pod_of}

abbrev pool : HumioNodePool
pool =
    let p = pool_with rolling "" (pos 3) in
    record p { node_spec = record p.node_spec { pvc_template = some "ReadWriteOnce" } }

abbrev running : Pod
running =
    let p = pod_of "pod-1" [] "image" in
    record p {
      spec = record p.spec {
        volumes =
            record { name = humio_data_volume_name; source = persistent_volume_claim "pvc-1" } ∷ [];
      };
    }

abbrev bound : String → Claim
bound name = record { name = name; phase = "Bound" }

abbrev answers : ℕ → Answers
answers i = record {
  claims = some (bound "pvc-1" ∷ bound "pvc-2" ∷ bound "pvc-3" ∷ []);
  rest_found = true;
  create = λ source. some (pod_of "pod-new" [] "image");
}

abbrev lists : ℕ → Option (List Pod)
lists i = some (running ∷ [])

ensure_pods_exist-IsFresh_example :
    let created = ensure_pods_exist pool (running ∷ []) answers lists in
    (all_new (claims_in_use (running ∷ []) []) (claims_of created.0) ≡ true)
    × (is_distinct (claims_of created.0) ≡ true)
ensure_pods_exist-IsFresh_example = ensure_pods_exist-IsFresh pool (running ∷ []) answers lists refl

ensure_pods_exist_exact_example :
    let created = ensure_pods_exist pool (running ∷ []) answers lists in
    (length created.0 ≤ 3 - 1)
    × ((FailsIn pool (running ∷ []) answers (3 - 1) 1 []
          × (created.1 ≡ creation_failed)
          × (length created.0 < 3 - 1))
        ⊎ ((created.1 ≢ creation_failed) × (length created.0 ≡ 3 - 1)))
    × (created.1 ≢ creation_panics)
ensure_pods_exist_exact_example = ensure_pods_exist_exact pool (running ∷ []) answers lists 3 refl
