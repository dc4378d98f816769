-- ===== src/Cluster/Version.antt =====
-- Image versions, internal/controller/humiocluster_version.go. `semver.NewVersion` is a parameter.
use Prim.Native.Char.{code}
use humio_operator.Common.{
  ℕ, String, ◌≡◌, refl, ◌⊎◌, inl, inr, Bool, true, false, Option, none, some, Option-cases, eqb,
  if◌then◌else◌,
}

-- The parts of `semver.Version` that the code reads.
pub record Semver : Type 0 where
  pub major : ℕ
  pub minor : ℕ
  pub patch : ℕ

pub record HumioVersion : Type 0 where
  pub assume_latest : Bool
  pub version : Option Semver

-- `strings.SplitN(s, sep, 2)` at a separator of one character: `none` if it does not occur, else
-- the parts before and after its first occurrence.
split_2 : ℕ → String → Option (String × String)
split_2 sep String.[] = none
split_2 sep (String.◌∷◌ c s) =
    let rest = split_2 sep s in
    if eqb (code c) sep
    then some ("", s)
    else elim rest [ none ↦ none | some (a, b) ↦ some (String.◌∷◌ c a, b) ]

-- `strings.SplitN(s, sep, 2)[0]`
pub first_part : ℕ → String → String
unfolding split_2
first_part sep s = elim (split_2 sep s) [ none ↦ s | some (a, b) ↦ a ]

abbrev pub latest : HumioVersion
latest = record { assume_latest = true; version = none }

-- The end of HumioVersionFromString: the answer of `semver.NewVersion`.
version_of_semver : Option Semver → HumioVersion
version_of_semver none = latest
version_of_semver (some v) = record { assume_latest = false; version = some v }

-- HumioVersionFromString after the digest is cut off: the parts around the first ":".
version_of_reference : (String → Option Semver) → Option (String × String) → HumioVersion
unfolding version_of_semver first_part
version_of_reference new_version none = latest
version_of_reference new_version (some (name, tag)) =
    version_of_semver (new_version (first_part b'-' tag))

-- HumioVersionFromString
unfoldable pub humio_version_from_string : (String → Option Semver) → String → HumioVersion
unfolding split_2 first_part version_of_reference
humio_version_from_string new_version image =
    version_of_reference new_version (split_2 b':' (first_part b'@' image))

-- A version that is not assumed to be the latest one has been parsed.
abbrev pub IsResolved : HumioVersion → Type 0
IsResolved v = (v.assume_latest ≡ true) ⊎ ((s : Semver) × (v.version ≡ some s))

version_of_reference-IsResolved :
    (new_version : String → Option Semver) (parts : Option (String × String))
    → IsResolved (version_of_reference new_version parts)
unfolding version_of_reference
version_of_reference-IsResolved new_version none = inl refl
version_of_reference-IsResolved new_version (some (name, tag)) =
    elim (Option-cases (new_version (first_part b'-' tag))) [
      | inl e ↦ inl (rw e refl)
      | inr (v, e) ↦ inr (v, rw e refl)
    ]

pub humio_version_from_string-IsResolved :
    (new_version : String → Option Semver) (image : String)
    → IsResolved (humio_version_from_string new_version image)
unfolding humio_version_from_string
humio_version_from_string-IsResolved new_version image =
    version_of_reference-IsResolved new_version _
