-- ===== src/Common/Map.antt =====
-- Go's `map[string]V` as an association list: a read of a missing key gives none, and a write
-- replaces the entry that is there or adds one.
use Prim.Native.String.{String}
use mathlib.Core.Path.{◌≡◌, refl}
use mathlib.Core.Bool.{Bool}
use mathlib.Core.Option.{Option, none, some}
use mathlib.Core.List.{List, [], ◌∷◌}
use native.Mathlib.Omega.{arith}
use text.Mathlib.Text.{◌==◌}
use text.Mathlib.TextEquality.{eq_iff}
use humio_operator.Common.Tests.{is_some, if◌then◌else◌}

abbrev pub Map {ℓ} : Type ℓ → Type ℓ
Map V = List (String × V)

module _ {ℓ} {V : Type ℓ} where
  unfoldable pub lookup : String → Map V → Option V
  lookup key [] = none
  lookup key ((name, value) ∷ entries) =
      let later = lookup key entries in if name == key then some value else later

  unfoldable pub insert : String → V → Map V → Map V
  insert key value [] = (key, value) ∷ []
  insert key value ((name, old) ∷ entries) =
      let later = insert key value entries in
      if name == key then (key, value) ∷ entries else (name, old) ∷ later

  -- A read after a write finds what was written, and at every other key what was there.
  pub lookup-insert :
      (key asked : String) (value : V) (entries : Map V)
      → lookup asked (insert key value entries)
        ≡ (if key == asked then some value else lookup asked entries)
  unfolding insert lookup
  lookup-insert key asked value [] = refl
  lookup-insert key asked value ((name, old) ∷ entries) =
      let induction = lookup-insert key asked value entries in
      ground (eq_iff key asked, eq_iff name asked, eq_iff name key, induction, arith)

-- A read of a `map[string]string`: "" for a missing key.
unfoldable pub get_text : String → Map String → String
unfolding lookup
get_text k m = elim (lookup k m) [ none ↦ "" | some v ↦ v ]

abbrev pub has_key {ℓ} : {V : Type ℓ} → String → Map V → Bool
has_key k m = is_some (lookup k m)
