-- ===== src/Resources/Role/Slices/Keys.antt =====
-- The map of equalSlices: each key stands once, and what the last loop tells of it.
use mathlib.Core.Path.{subst}
use humio_operator.Common.{
  ◌≡◌, refl, ◌∙◌, inl, inr, String, true, false, none, some, List, [], ◌∷◌, ◌==◌, arith, eq_iff,
  eq_refl, Bool-cases, if◌then◌else◌,
}
use humio_operator.Common.Int.{ℤ, pos, ◌-ℤ◌, eqb_ℤ_iff}
use humio_operator.Common.Map.{Map, lookup, insert, lookup-insert}
use humio_operator.Resources.Role.Slices.{frequency, count_up, count_down, all_zero}

-- No key stands twice.
abbrev IsUnique : Map ℤ → Type 0
IsUnique [] = Unit
IsUnique ((s, n) ∷ rest) = (lookup s rest ≡ none) × IsUnique rest

not_same : (t s : String) → (t == s) ≡ false → (s == t) ≡ false
not_same t s h = ground (arith, eq_iff t s, eq_iff s t)

insert-IsUnique : (s : String) (n : ℤ) (freq : Map ℤ) → IsUnique freq → IsUnique (insert s n freq)
unfolding insert lookup
insert-IsUnique s n [] u = (refl, tt)
insert-IsUnique s n ((t, m) ∷ rest) (h, u) = elim (Bool-cases (t == s)) [
  | inl e ↦ rw e (subst (λ x. lookup x rest ≡ none) ((eq_iff t s).0 e) h, u)
  | inr e ↦ rw e (lookup-insert s t n rest ∙ rw (not_same t s e) h, insert-IsUnique s n rest u)
]

pub count_up-IsUnique :
    (ss : List String) (freq : Map ℤ) → IsUnique freq → IsUnique (count_up ss freq)
unfolding count_up
count_up-IsUnique [] freq u = u
count_up-IsUnique (s ∷ ss) freq u = count_up-IsUnique ss _ (insert-IsUnique s _ freq u)

pub count_down-IsUnique :
    (ss : List String) (freq left : Map ℤ)
    → IsUnique freq
    → count_down ss freq ≡ some left
    → IsUnique left
unfolding count_down
count_down-IsUnique [] freq left u e = let same : freq ≡ left = cc in subst (λ m. IsUnique m) same u
count_down-IsUnique (s ∷ ss) freq left u e =
    let n = frequency freq s -ℤ pos 1 in
    count_down-IsUnique ss (insert s n freq) left (insert-IsUnique s n freq u) (ground (arith, e))

frequency-cons :
    (s t : String) (n : ℤ) (rest : Map ℤ)
    → frequency ((s, n) ∷ rest) t ≡ (if s == t then n else frequency rest t)
unfolding frequency lookup
frequency-cons s t n rest = ground arith

pub all_zero-frequency :
    (freq : Map ℤ) (t : String) → all_zero freq ≡ true → frequency freq t ≡ pos 0
unfolding all_zero
all_zero-frequency [] t h = unfold frequency lookup in refl
all_zero-frequency ((s, n) ∷ rest) t h =
    ground (arith, frequency-cons s t n rest, all_zero-frequency rest t, eqb_ℤ_iff n (pos 0))

frequency-none : (s : String) (freq : Map ℤ) → lookup s freq ≡ none → frequency freq s ≡ pos 0
unfolding frequency
frequency-none s freq h = rw (h, frequency) refl

pub all_zero-of_frequency :
    (freq : Map ℤ)
    → IsUnique freq
    → ((s : String) → frequency freq s ≡ pos 0)
    → all_zero freq ≡ true
unfolding all_zero
all_zero-of_frequency [] u h = refl
all_zero-of_frequency ((s, n) ∷ rest) (new, u) h =
    let here : n ≡ pos 0 = ground (arith, h s, frequency-cons s s n rest, eq_refl s) in
    let later = all_zero-of_frequency rest u (λ t. elim (Bool-cases (s == t)) [
      | inl e ↦ subst (λ x. frequency rest x ≡ pos 0) ((eq_iff s t).0 e) (frequency-none s rest new)
      | inr e ↦ ground (arith, h t, frequency-cons s t n rest, e)
    ]) in
    ground (arith, (eqb_ℤ_iff n (pos 0)).1 here, later)
