-- ===== src/Cluster/PodCompare/Classification.antt =====
-- When two pods differ, and how much.
use humio_operator.Common.{
  String, ◌≡◌, refl, Bool, true, not, Option, none, some, List, [], ◌∷◌, arith, all, map, ◌==◌,
  ◌&&◌, ◌∙◌, if◌then◌else◌,
}
use humio_operator.Common.Map.{get_text}
use humio_operator.K8s.{Container, Pod}
use humio_operator.Cluster.Types.{HumioNodePool}
use humio_operator.Cluster.NodePool.{Getenv}
use humio_operator.Cluster.Sanitize.{humio_container_name, sanitize_pod, sanitize_container}
use humio_operator.Cluster.Version.{Semver}
use humio_operator.Cluster.PodCompare.{
  Severity, no_severity, critical, warning, MismatchType, no_mismatch, version, annotation,
  Comparison, container_by_name, start, process_container_images, process_environment_variables,
  mark_annotation, annotation_loop, process_annotations, compare_sanitized, new_pod_comparison,
  critical_annotations, managed_fields_hash_annotation, has_critical_mismatch, has_warning_mismatch,
  matches, mismatched_humio_versions,
}

-- The two pods carry the same value of an annotation, where a missing one reads as "".
abbrev pub same_annotation : Pod → Pod → String → Bool
same_annotation current desired a = get_text a current.annotations == get_text a desired.annotations

abbrev pub severity_of : Bool → Bool → Severity
severity_of same_critical same_managed =
    if not same_critical then critical else if not same_managed then warning else no_severity

abbrev type_of : Bool → Bool → Bool → MismatchType
type_of same_image same_critical same_managed =
    if not same_image
    then version
    else if same_critical && same_managed
    then no_mismatch
    else annotation

-- What the annotations decide, after the first loop and after both.
loop_critical :
    (current desired : Pod) (l : List String) (c : Comparison)
    → ((annotation_loop current desired critical l c).severity
        ≡ (if all (same_annotation current desired) l then c.severity else critical))
      × ((annotation_loop current desired critical l c).mismatch_type
          ≡ (if all (same_annotation current desired) l then c.mismatch_type else annotation))
      × ((annotation_loop current desired critical l c).current_container ≡ c.current_container)
      × ((annotation_loop current desired critical l c).desired_container ≡ c.desired_container)
unfolding annotation_loop
loop_critical current desired [] c = (refl, refl, refl, refl)
loop_critical current desired (a ∷ l) c = ground (
  arith,
  loop_critical current desired l c,
  loop_critical current desired l (mark_annotation critical a c),
)

-- The second loop, over a comparison that the first one has left.
loop_warning :
    (current desired : Pod) (m : String) (crit : Bool) (c : Comparison)
    → c.severity ≡ (if crit then no_severity else critical)
    → c.mismatch_type ≡ (if crit then no_mismatch else annotation)
    → let d = annotation_loop current desired warning (m ∷ []) c in
      (d.severity ≡ severity_of crit (same_annotation current desired m))
      × (d.mismatch_type ≡ type_of true crit (same_annotation current desired m))
      × (d.current_container ≡ c.current_container)
      × (d.desired_container ≡ c.desired_container)
unfolding annotation_loop
loop_warning current desired m crit c hs ht = ground arith

two_loops :
    (current desired : Pod) (l : List String) (m : String) (a b : Container)
    → let c =
        annotation_loop current desired warning
          (m ∷ [])
          (annotation_loop current desired critical l (start a b)) in
      (c.severity
        ≡ severity_of (all (same_annotation current desired) l) (same_annotation current desired m))
      × (c.mismatch_type
          ≡ type_of true
              (all (same_annotation current desired) l)
              (same_annotation current desired m))
      × (c.current_container ≡ a)
      × (c.desired_container ≡ b)
two_loops current desired l m a b =
    let c = annotation_loop current desired critical l (start a b) in
    let (hs, ht, ha, hb) = loop_critical current desired l (start a b) in
    let (ks, kt, ka, kb) =
      loop_warning current desired m (all (same_annotation current desired) l) c hs ht in
    (ks, kt, ka ∙ ha, kb ∙ hb)

process_annotations_lem :
    (current desired : Pod) (a b : Container)
    → let c = process_annotations current desired (start a b) in
      let crit = all (same_annotation current desired) critical_annotations in
      let man = same_annotation current desired managed_fields_hash_annotation in
      (c.severity ≡ severity_of crit man)
      × (c.mismatch_type ≡ type_of true crit man)
      × (c.current_container ≡ a)
      × (c.desired_container ≡ b)
unfolding process_annotations
process_annotations_lem current desired a b =
    two_loops current desired critical_annotations managed_fields_hash_annotation a b

container_by_name-sanitize :
    (getenv : Getenv) (pool : HumioNodePool) (name : String) (cs : List Container)
    → container_by_name name (map (sanitize_container getenv pool) cs)
      ≡ elim (container_by_name name cs) [
        | none ↦ none
        | some c ↦ some (sanitize_container getenv pool c)
      ]
unfolding container_by_name sanitize_container
container_by_name-sanitize getenv pool name [] = refl
container_by_name-sanitize getenv pool name (c ∷ cs) =
    ground (arith, container_by_name-sanitize getenv pool name cs)

-- The last two steps, over any comparison that the annotations have left.
classified :
    (new_version : String → Option Semver) (d : Comparison) (crit man : Bool) (a b : Container)
    → d.current_container ≡ a
    → d.desired_container ≡ b
    → d.severity ≡ severity_of crit man
    → d.mismatch_type ≡ type_of true crit man
    → let c = process_container_images new_version (process_environment_variables d) in
      let img = a.image == b.image in
      (has_critical_mismatch c ≡ not (crit && img))
      × (has_warning_mismatch c ≡ (crit && img && not man))
      × (matches c ≡ (crit && img && man))
      × ((mismatched_humio_versions c).0 ≡ not img)
unfolding matches mismatched_humio_versions process_container_images process_environment_variables
classified new_version d crit man a b ha hb hs ht = ground arith

-- A comparison of two pods that each have a container named "humio" is made. It is critical exactly
-- if the value of an annotation of the first list or the image of that container differs, a warning
-- exactly if it is not critical and the hash of the managed fields differs, and a match otherwise.
-- It reports a change of version exactly if the images differ.
pub new_pod_comparison_classifies :
    (new_version : String → Option Semver) (getenv : Getenv) (pool : HumioNodePool)
    (current desired : Pod) (a b : Container)
    → container_by_name humio_container_name current.spec.containers ≡ some a
    → container_by_name humio_container_name desired.spec.containers ≡ some b
    → let crit = all (same_annotation current desired) critical_annotations in
      let man = same_annotation current desired managed_fields_hash_annotation in
      (c : Comparison) × (new_pod_comparison new_version getenv pool current desired ≡ some c)
      × (has_critical_mismatch c ≡ not (crit && a.image == b.image))
      × (has_warning_mismatch c ≡ (crit && a.image == b.image && not man))
      × (matches c ≡ (crit && a.image == b.image && man))
      × ((mismatched_humio_versions c).0 ≡ not (a.image == b.image))
unfolding new_pod_comparison sanitize_pod compare_sanitized
new_pod_comparison_classifies new_version getenv pool current desired a b p q =
    let a' = sanitize_container getenv pool a in
    let b' = sanitize_container getenv pool b in
    let s = sanitize_pod getenv pool current in
    let t = sanitize_pod getenv pool desired in
    let c =
      process_container_images new_version
        (process_environment_variables (process_annotations s t (start a' b'))) in
    let (hs, ht, ha, hb) = process_annotations_lem s t a' b' in
    let (k1, k2, k3, k4) =
      classified new_version (process_annotations s t (start a' b')) _ _ a' b' ha hb hs ht in
    (
      c,
      ground (
        arith,
        container_by_name-sanitize getenv pool humio_container_name current.spec.containers,
        container_by_name-sanitize getenv pool humio_container_name desired.spec.containers,
      ),
      k1,
      k2,
      k3,
      k4,
    )
