-- ===== src/Helpers/Removal.antt =====
-- What RemoveElement leaves of a slice.
use humio_operator.Common.{
  ℕ, zero, suc, ◌+◌, ◌≤◌, ◌≡◌, refl, ap, ◌∙◌, String, Bool, true, false, not, some, List, [], ◌∷◌,
  ◌++◌, arith, length, length-append, any-append, take, drop, keep, count, any, ◌==◌, Bool-cases,
  inl, inr, eq_refl,
}
use mathlib.Core.List.{append_assoc, append-nil}
use humio_operator.Helpers.{contains_element, remove_loop, remove_element}

abbrev pub other_than : String → String → Bool
other_than s v = not (v == s)

abbrev pub is_text : String → String → Bool
is_text s v = v == s

take_all : (xs ys : List String) → take (length xs) (xs ++ ys) ≡ xs
take_all [] ys = refl
take_all (x ∷ xs) ys = ap (λ zs. x ∷ zs) (take_all xs ys)

-- Rounds over cells without the element change nothing.
remove_loop-passes :
    (n : ℕ) (s : String) (seen cells : List String) (len : ℕ)
    → any (is_text s) cells ≡ false
    → remove_loop n s (record { seen = seen; cells = cells; len = len })
      ≡ some (take len (seen ++ cells))
unfolding remove_loop
remove_loop-passes zero s seen cells len h = refl
remove_loop-passes (suc n) s seen [] len h = remove_loop-passes n s seen [] len h
remove_loop-passes (suc n) s seen (v ∷ rest) len h =
    ground
      (arith, h, remove_loop-passes n s (seen ++ v ∷ []) rest len, append_assoc seen (v ∷ []) rest)

any-drop :
    (s : String) (n : ℕ) (xs : List String)
    → any (is_text s) xs ≡ false
    → any (is_text s) (drop n xs) ≡ false
any-drop s zero xs h = h
any-drop s (suc n) [] h = h
any-drop s (suc n) (x ∷ xs) h = ground (arith, any-drop s n xs)

take-length : (xs : List String) → take (length xs) xs ≡ xs
take-length [] = refl
take-length (x ∷ xs) = ap (λ zs. x ∷ zs) (take-length xs)

no_more :
    (s : String) (xs : List String)
    → count (is_text s) xs ≤ 0
    → (any (is_text s) xs ≡ false) × (keep (other_than s) xs ≡ xs)
no_more s [] h = (refl, refl)
no_more s (x ∷ xs) h = ground (arith, no_more s xs)

-- The round that removes, and those after it.
removes :
    (s : String) (seen : List String) (v : String) (rest : List String)
    → (v == s) ≡ true
    → any (is_text s) rest ≡ false
    → remove_loop
        (suc (length rest))
        s
        (record { seen = seen; cells = v ∷ rest; len = length seen + suc (length rest) })
      ≡ some (seen ++ rest)
unfolding remove_loop
removes s seen v [] e h =
    ground (arith, e, take_all seen (v ∷ []), append-nil (seen ++ v ∷ []), append-nil seen)
removes s seen v (r ∷ rs) e h = ground (
  arith,
  e,
  h,
  take-length rs,
  any-drop s (length rs) (r ∷ rs) h,
  any-append (is_text s) rs (drop (length rs) (r ∷ rs)),
  remove_loop-passes (suc (length rs)) s (seen ++ r ∷ []) (rs ++ drop (length rs) (r ∷ rs))
      (length seen + suc (length rs)),
  append_assoc (seen ++ r ∷ []) rs (drop (length rs) (r ∷ rs)),
  take_all ((seen ++ r ∷ []) ++ rs) (drop (length rs) (r ∷ rs)),
  length-append (seen ++ r ∷ []) rs,
  length-append seen (r ∷ []),
  append_assoc seen (r ∷ []) rs,
)

remove_loop_lem :
    (s : String) (seen cells : List String)
    → count (is_text s) cells ≤ 1
    → remove_loop
        (length cells)
        s
        (record { seen = seen; cells = cells; len = length seen + length cells })
      ≡ some (seen ++ keep (other_than s) cells)
unfolding remove_loop
remove_loop_lem s seen [] h = ground (arith, append-nil seen, take-length seen)
remove_loop_lem s seen (v ∷ rest) h = elim (Bool-cases (v == s)) [
  | inl e ↦ ground (arith, e, h, no_more s rest, removes s seen v rest e)
  | inr e ↦ ground (
    arith,
    e,
    h,
    length-append seen (v ∷ []),
    remove_loop_lem s (seen ++ v ∷ []) rest,
    append_assoc seen (v ∷ []) (keep (other_than s) rest),
  )
]

-- A text that stands in a slice once at most is removed from it, and all others stay in their order.
pub remove_element_exact :
    (list : List String) (s : String)
    → count (is_text s) list ≤ 1
    → remove_element list s ≡ some (keep (other_than s) list)
unfolding remove_element
remove_element_exact list s h = ground (arith, remove_loop_lem s [] list h)

contains_element-any :
    (list : List String) (s : String) → contains_element list s ≡ any (is_text s) list
unfolding contains_element
contains_element-any [] s = refl
contains_element-any (v ∷ vs) s = ground (arith, contains_element-any vs s)

keep-other : (list : List String) (s : String) → any (is_text s) (keep (other_than s) list) ≡ false
keep-other [] s = refl
keep-other (v ∷ vs) s = ground (arith, keep-other vs s)

-- Removal: the result does not have the text any more.
pub contains_element-keep :
    (list : List String) (s : String) → contains_element (keep (other_than s) list) s ≡ false
contains_element-keep list s = contains_element-any (keep (other_than s) list) s ∙ keep-other list s

pub contains_element-append_self :
    (list : List String) (s : String) → contains_element (list ++ s ∷ []) s ≡ true
unfolding contains_element
contains_element-append_self [] s = ground (arith, eq_refl s)
contains_element-append_self (v ∷ vs) s = ground (arith, contains_element-append_self vs s)

pub count_absent :
    (list : List String) (s : String) → contains_element list s ≡ false → count (is_text s) list ≡ 0
unfolding contains_element
count_absent [] s h = refl
count_absent (v ∷ vs) s h = ground (arith, count_absent vs s)
