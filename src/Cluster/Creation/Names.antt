-- ===== src/Cluster/Creation/Names.antt =====
-- Lists of the names of claims.
use humio_operator.Common.{
  ◌≡◌, refl, sym, inl, inr, String, Bool, true, false, not, none, some, List, [], ◌∷◌, ◌==◌, ◌&&◌,
  ◌||◌, any, all, arith, eq_iff, Option-cases, Bool-cases,
}
use mathlib.Core.Path.{subst}
use humio_operator.K8s.{Pod, Volume, VolumeSource}
use humio_operator.Cluster.Pvc.{Claim, claim_of, volume_claims, claims_in_use}
use humio_operator.Cluster.Pvc.Available.{free_named}

abbrev pub is_among : List String → String → Bool
is_among names c = any (λ (n : String). n == c) names

-- The claims of the data volumes that new pods get.
abbrev pub claims_of : List (VolumeSource × Pod) → List String
claims_of [] = []
claims_of ((source, pod) ∷ rest) =
    let later = claims_of rest in elim (claim_of source) [ none ↦ later | some c ↦ c ∷ later ]

abbrev pub all_new : List String → List String → Bool
all_new used cs = all (λ c. not (is_among used c)) cs

abbrev pub is_distinct : List String → Bool
is_distinct [] = true
is_distinct (c ∷ cs) = let rest = is_distinct cs in not (any (λ (d : String). c == d) cs) && rest

among-volume_claims :
    (vs : List Volume) (used : List String) (c : String)
    → is_among (volume_claims vs used) c ≡ (is_among (volume_claims vs []) c || is_among used c)
unfolding volume_claims
among-volume_claims [] used c = refl
among-volume_claims (v ∷ vs) used c = elim (Option-cases (claim_of v.source)) [
  | inl e ↦ ground (arith, e, among-volume_claims vs used c)
  | inr (d, e) ↦ ground (
    arith,
    e,
    among-volume_claims vs used c,
    among-volume_claims vs (d ∷ used) c,
    among-volume_claims vs (d ∷ []) c,
  )
]

-- The claims in use are those of the pods, and those in use before.
pub among-claims_in_use :
    (pods : List Pod) (used : List String) (c : String)
    → is_among (claims_in_use pods used) c ≡ (is_among (claims_in_use pods []) c || is_among used c)
unfolding claims_in_use
among-claims_in_use [] used c = refl
among-claims_in_use (p ∷ ps) used c = ground (
  arith,
  among-claims_in_use ps (volume_claims p.spec.volumes used) c,
  among-claims_in_use ps (volume_claims p.spec.volumes []) c,
  among-volume_claims p.spec.volumes used c,
)

pub among-free_named :
    (used : List String) (n : String) (claims : List Claim)
    → any (free_named used n) claims ≡ true
    → is_among used n ≡ false
among-free_named used n [] h = cc h
among-free_named used n (c ∷ cs) h = elim (Bool-cases (c.name == n)) [
  | inl e ↦ elim (Bool-cases (is_among used n)) [
    | inl u ↦
        let in_use = subst (λ m. is_among used m ≡ true) (sym ((eq_iff c.name n).0 e)) u in
        among-free_named used n cs (ground (arith, h, e, in_use))
    | inr u ↦ u
  ]
  | inr e ↦ among-free_named used n cs (ground (arith, h, e))
]

-- What is new beside a claim just taken, and those in use with it, is new beside each of these.
pub all_new-cons :
    (pods : List Pod) (used : List String) (c : String) (cs : List String)
    → all_new (c ∷ claims_in_use pods used) cs ≡ true
    → (all_new used cs ≡ true)
      × (all_new (claims_in_use pods []) cs ≡ true)
      × (any (λ (d : String). c == d) cs ≡ false)
all_new-cons pods used c [] h = (refl, refl, refl)
all_new-cons pods used c (d ∷ ds) h =
    ground (arith, h, among-claims_in_use pods used d, all_new-cons pods used c ds)
