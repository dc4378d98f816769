-- ===== src/Resources/Numbers.antt =====
-- Go's int64 and float64, as far as the retention of repositories needs them.
use humio_operator.Common.{ℕ, suc, ◌-◌, ◌*◌, ◌%◌, ◌^◌, Bool, if◌then◌else◌, ltb}
use humio_operator.Common.Int.{ℤ, pos, negsuc, ltb_ℤ, eqb_ℤ, sub_ℕ}

-- An integer, a natural number of times.
unfoldable pub scale : ℤ → ℕ → ℤ
scale (pos n) k = pos (n * k)
scale (negsuc n) k = sub_ℕ 0 (suc n * k)

-- A product or a conversion to int64, which wraps around.
unfoldable pub wrap64 : ℤ → ℤ
wrap64 (pos n) = let m = n % 2 ^ 64 in if ltb m (2 ^ 63) then pos m else negsuc (2 ^ 64 - m - 1)
wrap64 (negsuc n) = let m = n % 2 ^ 64 in if ltb m (2 ^ 63) then negsuc m else pos (2 ^ 64 - m - 1)

-- A finite float64 that is `numerator / 2 ^ halvings`.
pub record Float64 : Type 0 where
  pub numerator : ℤ
  pub halvings : ℕ

unfoldable pub same_float : Float64 → Float64 → Bool
unfolding scale
same_float a b = eqb_ℤ (scale a.numerator (2 ^ b.halvings)) (scale b.numerator (2 ^ a.halvings))

unfoldable pub less_float : Float64 → Float64 → Bool
unfolding scale
less_float a b = ltb_ℤ (scale a.numerator (2 ^ b.halvings)) (scale b.numerator (2 ^ a.halvings))
