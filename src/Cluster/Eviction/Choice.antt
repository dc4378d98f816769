-- ===== src/Cluster/Eviction/Choice.antt =====
-- Which zone a pod is removed from.
use humio_operator.Common.{
  ℕ, ◌≤◌, String, ◌≡◌, refl, ◌⊎◌, inl, inr, Bool, true, none, some, List, [], ◌∷◌, arith, ◌==◌,
  ◌&&◌, any, all, ltb, leb, eqb, eq_refl, eq_iff, Bool-cases,
}
use humio_operator.Cluster.Eviction.{highest_loop, get_key_with_highest_value}

-- No entry has a higher value.
abbrev pub at_most : ℕ → List (String × ℕ) → Bool
at_most value entries = all (λ (f : String × ℕ). leb f.1 value) entries

abbrev pub has_entry : String → ℕ → List (String × ℕ) → Bool
has_entry key value entries = any (λ (e : String × ℕ). e.0 == key && eqb e.1 value) entries

-- The loop from an entry on: its key is that of an entry of the highest value, the start included.
highest_loop_lem :
    (key : String) (value : ℕ) (rest : List (String × ℕ))
    → (w : ℕ) × (value ≤ w)
      × (at_most w rest ≡ true)
      × (((highest_loop key value rest ≡ key) × (w ≡ value))
          ⊎ (has_entry (highest_loop key value rest) w rest ≡ true))
unfolding highest_loop
highest_loop_lem key value [] = (value, omega arith, refl, inl (refl, refl))
highest_loop_lem key value ((k, v) ∷ rest) = elim (Bool-cases (ltb value v)) [
  | inl b ↦
      let (w, l, m, c) = highest_loop_lem k v rest in
      (
        w,
        ground (arith, l, b),
        ground (arith, l, m),
        inr (elim c [
          | inl (e, f) ↦ ground (arith, b, e, f, eq_refl k, eq_iff k (highest_loop k v rest))
          | inr e ↦ ground (arith, b, e)
        ]),
      )
  | inr b ↦
      let (w, l, m, c) = highest_loop_lem key value rest in
      (
        w,
        l,
        ground (arith, l, m, b),
        elim c [ inl (e, f) ↦ inl (ground (arith, b, e), f) | inr e ↦ inr (ground (arith, b, e)) ],
      )
]

-- In whatever order the entries come, the key chosen is that of an entry with a value which no entry
-- exceeds, and only an empty map gives an error.
get_key_with_highest_value_exact :
    (entries : List (String × ℕ))
    → ((entries ≡ []) × (get_key_with_highest_value entries ≡ none))
      ⊎ ((key : String) × (w : ℕ) × (get_key_with_highest_value entries ≡ some key)
          × (has_entry key w entries ≡ true)
          × (at_most w entries ≡ true))
unfolding get_key_with_highest_value
get_key_with_highest_value_exact [] = inl (refl, refl)
get_key_with_highest_value_exact ((k, v) ∷ rest) =
    let (w, l, m, c) = highest_loop_lem k v rest in
    inr (
      highest_loop k v rest,
      w,
      refl,
      elim c [
        | inl (e, f) ↦ ground (arith, e, f, eq_refl k, eq_iff k (highest_loop k v rest))
        | inr e ↦ ground (arith, e)
      ],
      ground (arith, l, m),
    )
