-- ===== src/Helpers.antt =====
-- Slices of text, internal/helpers/helpers.go.
pub mod Removal
use humio_operator.Common.{
  ℕ, zero, suc, ◌-◌, String, Bool, true, false, Option, none, some, List, [], ◌∷◌, ◌++◌, ◌==◌,
  length, ltb, take, drop, if◌then◌else◌,
}

-- ContainsElement
unfoldable pub contains_element : List String → String → Bool
contains_element [] s = false
contains_element (v ∷ vs) s = if v == s then true else contains_element vs s

-- The cells from the place `i` on, after `append(list[:i], list[i+1:]...)` has moved the ones behind
-- `i` that belong to a slice of `kept + 1` more cells one place to the left, in the same array.
shift : ℕ → List String → List String
shift kept [] = []
shift kept (v ∷ rest) = take kept rest ++ drop kept (v ∷ rest)

-- Where the loop of RemoveElement stands: the cells of the array that it has visited, the others, and
-- the number of cells that the slice has.
pub record Scan : Type 0 where
  pub seen : List String
  pub cells : List String
  pub len : ℕ

pass : Scan → List String → Scan
pass c [] = c
pass c (v ∷ rest) = record c { seen = c.seen ++ v ∷ []; cells = rest }

-- One round. The loop reads the array that it changes. `none` is the panic of `list[i+1:]` beyond the
-- slice.
remove_step : String → Scan → Option Scan
unfolding shift pass
remove_step s c = elim c.cells [
  | [] ↦ some c
  | v ∷ rest ↦
      if v == s
      then (if ltb (length c.seen) c.len
          then some
              (record (pass c (shift (c.len - length c.seen - 1) c.cells)) { len = c.len - 1 })
          else none)
      else some (pass c c.cells)
]

-- So many rounds, and the slice that is left.
remove_loop : ℕ → String → Scan → Option (List String)
unfolding remove_step
remove_loop zero s c = some (take c.len (c.seen ++ c.cells))
remove_loop (suc n) s c = elim (remove_step s c) [ none ↦ none | some d ↦ remove_loop n s d ]

-- RemoveElement
unfoldable pub remove_element : List String → String → Option (List String)
unfolding remove_loop
remove_element list s =
    remove_loop (length list) s (record { seen = []; cells = list; len = length list })
