-- ===== src/Resources/Role/Slices/Counting.antt =====
-- What the two counting loops of equalSlices leave in the map.
use humio_operator.Common.{
  ℕ, zero, suc, ◌+◌, ◌-◌, ◌≤◌, ◌<◌, ◌≡◌, refl, ap, ◌∙◌, ◌⊎◌, inl, inr, String, none, some, List, [],
  ◌∷◌, count, ◌==◌, arith, eq_iff, eq_refl, Bool-cases, if◌then◌else◌,
}
use humio_operator.Common.Int.{ℤ, pos, negsuc, ◌+ℤ◌, ◌-ℤ◌}
use humio_operator.Common.Map.{Map, insert, lookup-insert}
use humio_operator.Resources.Role.Slices.{frequency, count_up, count_down}

abbrev pub occurrences : String → List String → ℕ
occurrences s = count (λ t. t == s)

ℕ-cases : (n : ℕ) → (n ≡ 0) ⊎ ((m : ℕ) × (n ≡ suc m))
ℕ-cases zero = inl refl
ℕ-cases (suc m) = inr (m, refl)

-- The map holds the numbers.
abbrev pub Holds : Map ℤ → (String → ℕ) → Type 0
Holds freq f = (s : String) → frequency freq s ≡ pos (f s)

abbrev pub one_at : String → String → ℕ
one_at s t = if s == t then 1 else 0

frequency-insert :
    (s t : String) (n : ℤ) (freq : Map ℤ)
    → frequency (insert s n freq) t ≡ (if s == t then n else frequency freq t)
unfolding frequency
frequency-insert s t n freq = ground (arith, lookup-insert s t n freq)

pos_suc : (n : ℕ) → pos n +ℤ pos 1 ≡ pos (n + 1)
unfolding ◌+ℤ◌
pos_suc n = ground arith

up :
    (s u : String) (freq : Map ℤ) (f : String → ℕ)
    → Holds freq f
    → frequency (insert s (frequency freq s +ℤ pos 1) freq) u ≡ pos (f u + one_at s u)
up s u freq f h = elim (Bool-cases (s == u)) [
  | inr e ↦
      frequency-insert s u (frequency freq s +ℤ pos 1) freq ∙ rw e (h u ∙ ap pos (omega arith))
  | inl e ↦
      frequency-insert s u (frequency freq s +ℤ pos 1) freq
      ∙ rw e (rw (h s) (pos_suc (f s) ∙ ap (λ t. pos (f t + 1)) ((eq_iff s u).0 e)))
]

pub count_up-Holds :
    (ss : List String) (freq : Map ℤ) (f : String → ℕ)
    → Holds freq f
    → Holds (count_up ss freq) (λ t. f t + occurrences t ss)
unfolding count_up
count_up-Holds [] freq f h t = h t ∙ ap pos (omega arith)
count_up-Holds (s ∷ ss) freq f h t =
    let freq' = insert s (frequency freq s +ℤ pos 1) freq in
    let stepped : Holds freq' (λ u. f u + one_at s u) = λ u. up s u freq f h in
    count_up-Holds ss freq' (λ u. f u + one_at s u) stepped t ∙ ap pos (ground arith)

pos_pred : (n : ℕ) → pos (suc n) -ℤ pos 1 ≡ pos n
unfolding ◌-ℤ◌
pos_pred n = ground arith

zero_pred : pos 0 -ℤ pos 1 ≡ negsuc 0
unfolding ◌-ℤ◌
zero_pred = refl

down :
    (s u : String) (m : ℕ) (freq : Map ℤ) (f : String → ℕ)
    → Holds freq f
    → f s ≡ suc m
    → frequency (insert s (pos m) freq) u ≡ pos (f u - one_at s u)
down s u m freq f h k = elim (Bool-cases (s == u)) [
  | inr e ↦ frequency-insert s u (pos m) freq ∙ rw e (h u ∙ ap pos (omega arith))
  | inl e ↦
      let same : f s ≡ f u = ap f ((eq_iff s u).0 e) in
      frequency-insert s u (pos m) freq ∙ rw e (ap pos (omega arith))
]

-- The second loop ends early exactly if a text is in the second slice more often than was counted.
abbrev IsCountedDown : List String → Map ℤ → (String → ℕ) → Type 0
IsCountedDown ss freq f =
    ((left : Map ℤ) × (count_down ss freq ≡ some left)
      × ((t : String) → occurrences t ss ≤ f t)
      × Holds left (λ t. f t - occurrences t ss))
    ⊎ ((t : String) × (count_down ss freq ≡ none) × (f t < occurrences t ss))

step_down :
    (s : String) (ss : List String) (m : ℕ) (freq : Map ℤ)
    → frequency freq s ≡ pos (suc m)
    → count_down (s ∷ ss) freq ≡ count_down ss (insert s (pos m) freq)
unfolding count_down
step_down s ss m freq h = rw (h, pos_pred m) (ground arith)

pub occurrences-cons :
    (t s : String) (ss : List String) → occurrences t (s ∷ ss) ≡ one_at s t + occurrences t ss
occurrences-cons t s ss = elim (Bool-cases (s == t)) [
  | inl e ↦ rw e (omega arith)
  | inr e ↦ rw e (omega arith)
]

pub at_self : (s : String) → one_at s s ≡ 1
at_self s = rw (eq_refl s) refl

one_at-le : (s t : String) (m : ℕ) (f : String → ℕ) → f s ≡ suc m → one_at s t ≤ f t
one_at-le s t m f h = elim (Bool-cases (s == t)) [
  | inl e ↦ let same : f s ≡ f t = ap f ((eq_iff s t).0 e) in rw e (omega arith)
  | inr e ↦ rw e (omega arith)
]

pub count_down-Holds :
    (ss : List String) (freq : Map ℤ) (f : String → ℕ) → Holds freq f → IsCountedDown ss freq f
unfolding count_down
count_down-Holds [] freq f h = inl (freq, refl, λ t. omega arith, λ t. h t ∙ ap pos (omega arith))
count_down-Holds (s ∷ ss) freq f h = elim (ℕ-cases (f s)) [
  | inl z ↦ inr (s, rw (h s) (rw (z, zero_pred) refl), rw (eq_refl s) (omega arith))
  | inr (m, z) ↦
      let freq' = insert s (pos m) freq in
      let g = λ (u : String). f u - one_at s u in
      let held : Holds freq' g = λ u. down s u m freq f h z in
      elim (count_down-Holds ss freq' g held) [
        | inl (left, e, le, k) ↦ inl (
          left,
          step_down s ss m freq (h s ∙ ap pos z) ∙ e,
          λ t. omega (arith, le t, occurrences-cons t s ss, one_at-le s t m f z),
          λ t. k t ∙ ap pos (omega (arith, occurrences-cons t s ss)),
        )
        | inr (t, e, lt) ↦ inr (
          t,
          step_down s ss m freq (h s ∙ ap pos z) ∙ e,
          omega (arith, lt, occurrences-cons t s ss),
        )
      ]
]
