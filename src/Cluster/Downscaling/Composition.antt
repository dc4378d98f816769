-- ===== src/Cluster/Downscaling/Composition.antt =====
-- What holds of the phases of processDownscaling, one after another.
use humio_operator.Common.{
  ◌≡◌, refl, Bool, true, false, Option, none, some, List, [], ◌∷◌, arith, Option-cases,
  if◌then◌else◌,
}
use humio_operator.K8s.{Pod}
use humio_operator.Cluster.Downscaling.Marking.{Progress, Step}
use humio_operator.Cluster.Downscaling.Removal.{removal_loop}
use humio_operator.Cluster.Downscaling.{Answers, Return, and_then, remove_marked}

pub and_then-keeps {ℓ} :
    {A : Type ℓ} (K : Progress → Type 0) (s : Step A) (next : A → Progress → Progress × Return)
    → K s.0
    → ((x : A) → s.1 ≡ some x → K (next x s.0).0)
    → K (and_then s next).0
unfolding and_then
and_then-keeps K (p, none) next k l = k
and_then-keeps K (p, some x) next k l = l x refl

pub if-keeps {ℓ} :
    {A : Type ℓ} (K : Progress → Type 0) (b : Bool) (x y : Progress × A)
    → K x.0
    → K y.0
    → K (if b then x else y).0
if-keeps K true x y k l = k
if-keeps K false x y k l = l

pub remove_marked-removal_loop :
    (a : Answers) (marked : List Pod) (p : Progress)
    → (remove_marked a marked p).0 ≡ (removal_loop a.removal marked false p).0
unfolding remove_marked removal_loop
remove_marked-removal_loop a [] p = refl
remove_marked-removal_loop a (m ∷ ms) p =
    ground (arith, Option-cases (removal_loop a.removal (m ∷ ms) false p).1)

-- The pods that a call lists, none if the listing fails.
abbrev pub listed : Option (List Pod) → List Pod
listed none = []
listed (some pods) = pods

pub listed_lem : (o : Option (List Pod)) (x : List Pod) → o ≡ some x → listed o ≡ x
listed_lem o x e = rw e
