-- ===== src/Common/Format.antt =====
-- Go's `%d` and `strconv.Itoa`, and durations in nanoseconds.
use Prim.Native.Char.{code}
use humio_operator.Common.{
  ℕ, zero, suc, ◌+◌, ◌-◌, ◌*◌, ◌/◌, ◌%◌, ◌^◌, ◌<>◌, ◌≡◌, refl, String, Option, none, some, ltb, leb,
  eqb, ◌==◌, ◌&&◌, if◌then◌else◌,
}
use humio_operator.Common.Int.{ℤ, pos, negsuc}

unfoldable pub digit : ℕ → String
digit d =
    if eqb d 0
    then "0"
    else if eqb d 1
    then "1"
    else if eqb d 2
    then "2"
    else if eqb d 3
    then "3"
    else if eqb d 4
    then "4"
    else if eqb d 5
    then "5"
    else if eqb d 6
    then "6"
    else if eqb d 7
    then "7"
    else if eqb d 8
    then "8"
    else "9"

-- The digits of `n`, for more fuel than `n`.
unfoldable pub digits : ℕ → ℕ → String
unfolding digit
digits zero n = ""
digits (suc f) n =
    let before = digits f (n / 10) in if ltb n 10 then digit n else before <> digit (n % 10)

unfoldable pub itoa : ℤ → String
unfolding digits
itoa (pos n) = digits (suc n) n
itoa (negsuc n) = "-" <> digits (suc (suc n)) (suc n)

itoa_examples : (itoa (pos 407) ≡ "407") × (itoa (negsuc 11) ≡ "-12") × (itoa (pos 0) ≡ "0")
unfolding itoa
itoa_examples = (refl, refl, refl)

abbrev pub second : ℕ
second = 1000000000

-- `n` seconds as a `time.Duration`
abbrev pub seconds : ℕ → ℤ
seconds n = pos (n * second)

-- The digits of `strconv.Atoi` after the sign.
read_digits : ℕ → String → Option ℕ
read_digits n String.[] = some n
read_digits n (String.◌∷◌ c s) =
    let d = code c in
    let rest = read_digits (n * 10 + (d - b'0')) s in
    if leb b'0' d && leb d b'9' then rest else none

-- The largest magnitude is checked for each sign, as for a 64-bit `int`.
checked : ℕ → (ℕ → ℤ) → Option ℕ → Option ℤ
checked limit f none = none
checked limit f (some n) = if leb n limit then some (f n) else none

negated : ℕ → ℤ
negated zero = pos 0
negated (suc n) = negsuc n

read_magnitude : String → Option ℕ
unfolding read_digits
read_magnitude s = if s == "" then none else read_digits 0 s

-- `strconv.Atoi`; `none` is its error.
unfoldable pub atoi : String → Option ℤ
unfolding read_magnitude checked negated
atoi String.[] = none
atoi (String.◌∷◌ c s) =
    if eqb (code c) b'-'
    then checked (2 ^ 63) negated (read_magnitude s)
    else if eqb (code c) b'+'
    then checked (2 ^ 63 - 1) pos (read_magnitude s)
    else checked (2 ^ 63 - 1) pos (read_magnitude (String.◌∷◌ c s))

atoi_examples :
    (atoi "407" ≡ some (pos 407))
    × (atoi "-12" ≡ some (negsuc 11))
    × (atoi "" ≡ none)
    × (atoi "1x" ≡ none)
    × (atoi "9223372036854775808" ≡ none)
unfolding atoi
atoi_examples = (refl, refl, refl, refl, refl)
