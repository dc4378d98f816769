-- ===== src/Cluster/Pvc/Available.antt =====
-- Which claim a new pod gets.
use humio_operator.Common.{
  String, ◌≡◌, refl, sym, ap, ◌∙◌, if◌then◌else◌, Bool-cases, ◌⊎◌, inl, inr, Bool, true, false, not,
  none, some, List, [], ◌∷◌, arith, any, ◌==◌, eq_iff, ◌&&◌, ◌||◌, Option-cases,
}
use mathlib.Core.Path.{subst}
use humio_operator.K8s.{
  Pod, Volume, VolumeSource, persistent_volume_claim, empty_source, secret, other_source,
}
use humio_operator.Cluster.Sanitize.{humio_data_volume_name}
use humio_operator.Cluster.Pvc.{
  Claim, claim_of, volume_claims, insert_claim, sort_claims, claims_in_use, is_in_use, first_free,
  find_next_available_pvc,
}

any-insert_claim :
    (f : Claim → Bool) (c : Claim) (cs : List Claim) → any f (insert_claim c cs) ≡ (f c || any f cs)
unfolding insert_claim
any-insert_claim f c [] = refl
any-insert_claim f c (d ∷ ds) = ground (arith, any-insert_claim f c ds)

any-sort_claims : (f : Claim → Bool) (cs : List Claim) → any f (sort_claims cs) ≡ any f cs
unfolding sort_claims
any-sort_claims f [] = refl
any-sort_claims f (c ∷ cs) =
    ground (arith, any-insert_claim f c (sort_claims cs), any-sort_claims f cs)

abbrev pub free : List String → Claim → Bool
free in_use c = not (is_in_use in_use c)

abbrev pub free_named : List String → String → Claim → Bool
free_named in_use n c = c.name == n && free in_use c

first_free-some :
    (in_use : List String) (cs : List Claim) (n : String)
    → first_free in_use cs ≡ some n
    → any (free_named in_use n) cs ≡ true
unfolding first_free
first_free-some in_use [] n h = cc
first_free-some in_use (c ∷ cs) n h = ground (arith, first_free-some in_use cs n, eq_iff c.name n)

first_free-none :
    (in_use : List String) (cs : List Claim)
    → first_free in_use cs ≡ none
    → any (free in_use) cs ≡ false
unfolding first_free
first_free-none in_use [] h = refl
first_free-none in_use (c ∷ cs) h = ground (arith, first_free-none in_use cs)

pub find_next_available_pvc_lem :
    (claims : List Claim) (pods : List Pod) (in_use : List String)
    → ((find_next_available_pvc claims pods in_use ≡ none)
        × (any (free (claims_in_use pods in_use)) claims ≡ false))
      ⊎ ((n : String) × (find_next_available_pvc claims pods in_use ≡ some n)
          × (any (free_named (claims_in_use pods in_use) n) claims ≡ true))
unfolding find_next_available_pvc
find_next_available_pvc_lem claims pods in_use =
    let used = claims_in_use pods in_use in
    elim (Option-cases (first_free used (sort_claims claims))) [
      | inl h ↦ inl (
        h,
        ground (
          arith,
          first_free-none used (sort_claims claims) h,
          any-sort_claims (free used) claims,
        ),
      )
      | inr (n, h) ↦ inr (
        n,
        h,
        ground (
          arith,
          first_free-some used (sort_claims claims) n h,
          any-sort_claims (free_named used n) claims,
        ),
      )
    ]

-- The volume is the data volume of a pod, from the claim.
abbrev pub mounts : String → Volume → Bool
mounts n v =
    v.name == "humio-data" && elim v.source [ persistent_volume_claim c ↦ c == n | _ ↦ false ]

-- The claim is among those given, or a pod has its data volume from it.
abbrev pub is_taken : List String → List Pod → String → Bool
is_taken in_use pods n =
    any (λ (m : String). m == n) in_use || any (λ (p : Pod). any (mounts n) p.spec.volumes) pods

mounts-claim_of :
    (n name : String) (source : VolumeSource) (used : List String)
    → any
        (λ (m : String). m == n)
        (if name == humio_data_volume_name
          then elim (claim_of source) [ none ↦ used | some c ↦ c ∷ used ]
          else used)
      ≡ (any (λ (m : String). m == n) used || mounts n (record { name = name; source = source }))
unfolding claim_of
mounts-claim_of n name (persistent_volume_claim c) used = ground arith
mounts-claim_of n name empty_source used = ground arith
mounts-claim_of n name (secret t m) used = ground arith
mounts-claim_of n name (other_source t) used = ground arith

any-volume_claims :
    (n : String) (vs : List Volume) (used : List String)
    → any (λ (m : String). m == n) (volume_claims vs used)
      ≡ (any (λ (m : String). m == n) used || any (mounts n) vs)
unfolding volume_claims
any-volume_claims n [] used = ground arith
any-volume_claims n (v ∷ vs) used =
    any-volume_claims n vs _
    ∙ ap (λ b. b || any (mounts n) vs) (mounts-claim_of n v.name v.source used)
    ∙ ground arith

any-claims_in_use :
    (n : String) (pods : List Pod) (used : List String)
    → any (λ (m : String). m == n) (claims_in_use pods used) ≡ is_taken used pods n
unfolding claims_in_use
any-claims_in_use n [] used = ground arith
any-claims_in_use n (p ∷ ps) used =
    any-claims_in_use n ps (volume_claims p.spec.volumes used)
    ∙ ap (λ b. b || any (λ (q : Pod). any (mounts n) q.spec.volumes) ps)
        (any-volume_claims n p.spec.volumes used)
    ∙ ground arith

any-pointwise :
    (f g : Claim → Bool) (cs : List Claim) → ((c : Claim) → f c ≡ g c) → any f cs ≡ any g cs
any-pointwise f g [] h = refl
any-pointwise f g (c ∷ cs) h = ground (arith, h c, any-pointwise f g cs h)

free_named-parts :
    (used : List String) (n : String) (cs : List Claim)
    → any (free_named used n) cs ≡ true
    → (any (λ (c : Claim). c.name == n) cs ≡ true) × (any (λ (m : String). m == n) used ≡ false)
free_named-parts used n [] h = absurd (cc h)
free_named-parts used n (c ∷ cs) h = elim (Bool-cases (free_named used n c)) [
  | inl e ↦
      let named : (c.name == n) ≡ true = ground (arith, e) in
      let unused : any (λ (m : String). m == c.name) used ≡ false = ground (arith, e) in
      (
        ground (arith, named),
        subst (λ x. any (λ (m : String). m == x) used ≡ false) ((eq_iff c.name n).0 named) unused,
      )
  | inr e ↦ let (p, q) = free_named-parts used n cs (ground (arith, h, e)) in (ground (arith, p), q)
]

-- If no claim is chosen, every claim is in use: it is among those chosen before, or a pod has its data
-- volume from it. Else the name chosen is that of one of the claims, which is not in use.
pub find_next_available_pvc_exact :
    (claims : List Claim) (pods : List Pod) (in_use : List String)
    → ((find_next_available_pvc claims pods in_use ≡ none)
        × (any (λ (c : Claim). not (is_taken in_use pods c.name)) claims ≡ false))
      ⊎ ((n : String) × (find_next_available_pvc claims pods in_use ≡ some n)
          × (any (λ (c : Claim). c.name == n) claims ≡ true)
          × (is_taken in_use pods n ≡ false))
find_next_available_pvc_exact claims pods in_use =
    let used = claims_in_use pods in_use in
    elim (find_next_available_pvc_lem claims pods in_use) [
      | inl (h, k) ↦ inl (
        h,
        any-pointwise (λ (c : Claim). not (is_taken in_use pods c.name)) (free used) claims
              (λ c. ap not (sym (any-claims_in_use c.name pods in_use)))
            ∙ k,
      )
      | inr (n, h, k) ↦
          let (p, q) = free_named-parts used n claims k in
          inr (n, h, p, sym (any-claims_in_use n pods in_use) ∙ q)
    ]
