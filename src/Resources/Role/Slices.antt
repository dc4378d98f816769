-- ===== src/Resources/Role/Slices.antt =====
-- equalSlices of internal/humio/client.go, at texts.
pub mod Counting
pub mod Keys
pub mod Exact
use humio_operator.Common.{
  String, Bool, true, false, not, Option, none, some, List, [], ◌∷◌, length, eqb, if◌then◌else◌,
}
use humio_operator.Common.Int.{ℤ, pos, ◌+ℤ◌, ◌-ℤ◌, ltb_ℤ, eqb_ℤ}
use humio_operator.Common.Map.{Map, lookup, insert}

-- A read of the map `freq`
unfoldable pub frequency : Map ℤ → String → ℤ
unfolding lookup
frequency freq s = elim (lookup s freq) [ none ↦ pos 0 | some n ↦ n ]

-- The loop over the first slice
unfoldable pub count_up : List String → Map ℤ → Map ℤ
count_up [] freq = freq
count_up (s ∷ ss) freq = count_up ss (insert s (frequency freq s +ℤ pos 1) freq)

-- The loop over the second slice; `none` is the early return of false.
unfoldable pub count_down : List String → Map ℤ → Option (Map ℤ)
count_down [] freq = some freq
count_down (s ∷ ss) freq =
    let n = frequency freq s -ℤ pos 1 in
    let rest = count_down ss (insert s n freq) in if ltb_ℤ n (pos 0) then none else rest

-- The last loop, over the values of the map
unfoldable pub all_zero : Map ℤ → Bool
all_zero [] = true
all_zero ((s, n) ∷ rest) =
    let later = all_zero rest in if not (eqb_ℤ n (pos 0)) then false else later

-- equalSlices
unfoldable pub equal_slices : List String → List String → Bool
unfolding count_up count_down all_zero
equal_slices a b =
    if not (eqb (length a) (length b))
    then false
    else elim (count_down b (count_up a [])) [ none ↦ false | some freq ↦ all_zero freq ]
