-- ===== src/Resources/Role/Slices/Exact.antt =====
-- What equalSlices tells: whether two slices hold the same texts, as often.
use humio_operator.Common.{
  suc, ◌-◌, ◌<◌, ◌≡◌, refl, sym, ap, ◌∙◌, ◌↔◌, inl, inr, String, true, false, none, some, List, [],
  ◌∷◌, length, ◌==◌, arith, eq_iff, Bool-cases, if◌then◌else◌,
}
use humio_operator.Common.Int.{ℤ, pos}
use humio_operator.Common.Map.{Map, lookup}
use humio_operator.Resources.Role.Slices.{frequency, count_up, count_down, all_zero, equal_slices}
use humio_operator.Resources.Role.Slices.Keys.{
  count_up-IsUnique, count_down-IsUnique, all_zero-frequency, all_zero-of_frequency,
}
use humio_operator.Resources.Role.Slices.Counting.{
  occurrences, Holds, one_at, count_up-Holds, occurrences-cons, at_self, count_down-Holds,
}

erase : String → List String → List String
erase s [] = []
erase s (t ∷ ts) = let rest = erase s ts in if t == s then ts else t ∷ rest

occurrences-erase :
    (s t : String) (ts : List String) → occurrences t (erase s ts) ≡ occurrences t ts - one_at s t
unfolding erase
occurrences-erase s t [] = omega arith
occurrences-erase s t (u ∷ us) = elim (Bool-cases (u == s)) [
  | inl e ↦ rw e (
      let same : one_at u t ≡ one_at s t = ap (λ x. one_at x t) ((eq_iff u s).0 e) in
      omega (arith, occurrences-cons t u us))
  | inr e ↦ rw e (ground (arith, occurrences-erase s t us, eq_iff s t, eq_iff u t, eq_iff u s))
]

length-erase :
    (s : String) (ts : List String) → 0 < occurrences s ts → length ts ≡ suc (length (erase s ts))
unfolding erase
length-erase s [] h = absurd (omega arith)
length-erase s (t ∷ ts) h = elim (Bool-cases (t == s)) [
  | inl e ↦ rw e refl
  | inr e ↦ rw e (omega (arith, length-erase s ts (rw e at h)))
]

length-of_occurrences :
    (a b : List String) → ((s : String) → occurrences s a ≡ occurrences s b) → length a ≡ length b
length-of_occurrences [] [] h = refl
length-of_occurrences [] (t ∷ ts) h =
    absurd (omega (arith, h t, occurrences-cons t t ts, at_self t))
length-of_occurrences (s ∷ ss) b h =
    let some_in : 0 < occurrences s b = omega (arith, h s, occurrences-cons s s ss, at_self s) in
    let rest =
      length-of_occurrences ss (erase s b)
        (λ t. omega (arith, h t, occurrences-cons t s ss, occurrences-erase s t b)) in
    omega (arith, length-erase s b some_in)

counted : (a : List String) → Holds (count_up a []) (λ s. occurrences s a)
unfolding frequency lookup
counted a s = count_up-Holds a [] (λ _. 0) (λ _. refl) s ∙ ap pos (omega arith)

equal_slices-cases :
    (a b : List String) (left : Map ℤ)
    → length a ≡ length b
    → count_down b (count_up a []) ≡ some left
    → equal_slices a b ≡ all_zero left
unfolding equal_slices
equal_slices-cases a b left h e = ground (arith, h, e)

equal_slices-none :
    (a b : List String) → count_down b (count_up a []) ≡ none → equal_slices a b ≡ false
unfolding equal_slices
equal_slices-none a b e = ground (arith, e)

equal_slices-length : (a b : List String) → equal_slices a b ≡ true → length a ≡ length b
unfolding equal_slices
equal_slices-length a b h = ground (arith, h)

occurrences-of_equal :
    (a b : List String) → equal_slices a b ≡ true → (s : String) → occurrences s a ≡ occurrences s b
occurrences-of_equal a b h s =
    elim (count_down-Holds b (count_up a []) (λ t. occurrences t a) (counted a)) [
      | inr (t, e, lt) ↦ absurd (cc (equal_slices-none a b e, h))
      | inl (left, e, le, k) ↦
          let zero_left = equal_slices-cases a b left (equal_slices-length a b h) e in
          let nothing = all_zero-frequency left s (sym zero_left ∙ h) in
          let same : occurrences s a - occurrences s b ≡ 0 = ground (arith, k s, nothing) in
          omega (arith, le s)
    ]

equal-of_occurrences :
    (a b : List String)
    → ((s : String) → occurrences s a ≡ occurrences s b)
    → equal_slices a b ≡ true
equal-of_occurrences a b h =
    elim (count_down-Holds b (count_up a []) (λ t. occurrences t a) (counted a)) [
      | inr (t, e, lt) ↦ absurd (omega (arith, h t))
      | inl (left, e, le, k) ↦
          equal_slices-cases a b left (length-of_occurrences a b h) e
          ∙ all_zero-of_frequency left
              (count_down-IsUnique b (count_up a []) left (count_up-IsUnique a [] tt) e)
              (λ s. k s ∙ ap pos (omega (arith, h s)))
    ]

-- The client takes two slices for equal exactly if every text stands in both equally often, in any
-- order.
pub equal_slices_exact :
    (a b : List String)
    → (equal_slices a b ≡ true) ↔ ((s : String) → occurrences s a ≡ occurrences s b)
equal_slices_exact a b = (occurrences-of_equal a b, equal-of_occurrences a b)
