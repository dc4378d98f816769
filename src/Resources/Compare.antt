-- ===== src/Resources/Compare.antt =====
-- What the comparisons of internal/controller/humio*_controller.go share: cmp.Diff on the types they
-- use, sort.Strings, and helpers of internal/helpers/helpers.go and internal/api/client.go. A slice is
-- an option, since cmp.Diff tells a nil slice from an empty one; so is a pointer.
use Prim.Native.String.{compare}
use text.Mathlib.Text.{is_lt}
use humio_operator.Common.{
  String, Bool, true, false, Option, none, some, List, [], ◌∷◌, ◌==◌, ◌&&◌, if◌then◌else◌,
}

-- cmp.Diff reports no difference.
abbrev pub same_bool : Bool → Bool → Bool
same_bool true b = b
same_bool false true = false
same_bool false false = true

abbrev pub same_text : String → String → Bool
same_text s t = s == t

unfoldable pub same_option {ℓ} : {A : Type ℓ} → (A → A → Bool) → Option A → Option A → Bool
same_option same none none = true
same_option same (some a) (some b) = same a b
same_option same _ _ = false

unfoldable pub same_list {ℓ} : {A : Type ℓ} → (A → A → Bool) → List A → List A → Bool
same_list same [] [] = true
same_list same (x ∷ xs) (y ∷ ys) = same x y && same_list same xs ys
same_list same _ _ = false

abbrev pub Texts : Type 0
Texts = Option (List String)

unfoldable pub same_texts : Texts → Texts → Bool
unfolding same_option same_list
same_texts = same_option (same_list same_text)

insert_text : String → List String → List String
insert_text s [] = s ∷ []
insert_text s (t ∷ ts) = if is_lt (compare t s) then t ∷ insert_text s ts else s ∷ t ∷ ts

sort_list : List String → List String
unfolding insert_text
sort_list [] = []
sort_list (s ∷ ss) = insert_text s (sort_list ss)

-- sort.Strings, which leaves a nil slice as it is.
unfoldable pub sort_strings : Texts → Texts
unfolding sort_list
sort_strings none = none
sort_strings (some ss) = some (sort_list ss)

-- EmptySliceIfNil
unfoldable pub empty_slice_if_nil : Texts → List String
empty_slice_if_nil none = []
empty_slice_if_nil (some ss) = ss

-- BoolTrue
unfoldable pub bool_true : Option Bool → Bool
bool_true none = true
bool_true (some b) = b

-- BoolFalse
unfoldable pub bool_false : Option Bool → Bool
bool_false none = false
bool_false (some b) = b

-- The types of SharedQueryOwnershipType.
pub data QueryOwnership : Type 0 where
  organization_ownership user_ownership no_ownership : QueryOwnership

-- QueryOwnershipIsOrganizationOwnership
unfoldable pub query_ownership_is_organization_ownership : QueryOwnership → Bool
query_ownership_is_organization_ownership organization_ownership = true
query_ownership_is_organization_ownership _ = false

-- The map `keyValues` of a comparison: the keys that differ, of the pairs of a key and whether cmp.Diff
-- reports no difference.
unfoldable pub key_values : List (String × Bool) → List String
key_values [] = []
key_values ((key, same) ∷ rest) =
    let others = key_values rest in if same then others else key ∷ others

-- `len(keyValues) == 0`
abbrev pub is_empty : List String → Bool
is_empty [] = true
is_empty (k ∷ ks) = false

abbrev pub as_expected_of : List (String × Bool) → Bool
as_expected_of pairs = is_empty (key_values pairs)

-- A request, and the next one if it succeeded.
unfoldable pub and_then {ℓ} : {W : Type ℓ} → W × Bool → (W → W × Bool) → W × Bool
and_then (w, ok) next = if ok then next w else (w, false)
