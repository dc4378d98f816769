-- ===== src/ScheduledSearch/Times/Reading.antt =====
-- What ParseTimeStringToSeconds reads of a printed number with a unit behind it.
use Prim.Native.Char.{code}
use text.Mathlib.TextLemmas.{append_assoc, nil-append, cons-append}
use humio_operator.Common.{
  ℕ, zero, suc, ◌+◌, ◌-◌, ◌*◌, ◌/◌, ◌%◌, ◌^◌, ◌<◌, ◌<>◌, ◌≡◌, refl, ◌∙◌, sym, ap, String, Bool,
  false, true, not, Option, none, some, List, [], ◌∷◌, ltb, leb, ◌==◌, ◌||◌, if◌then◌else◌, arith,
  Bool-cases, ◌⊎◌, inl, inr, eq_iff,
}
use humio_operator.Common.Int.{ℤ, pos, negsuc}
use humio_operator.Resources.Numbers.{wrap64}
use humio_operator.Common.Format.{itoa, digit, digits}
use humio_operator.ScheduledSearch.Times.{
  scan, is_digit, is_short, time_now, in_unit, parse_time_string_to_seconds, unit_seconds,
}

-- The unit does not begin with a digit.
abbrev pub starts_unit : String → Bool
starts_unit String.[] = true
starts_unit (String.◌∷◌ c s) = not (is_digit (code c))

scan-digit :
    (i n d : ℕ) (s : String) → d < 10 → scan i n (digit d <> s) ≡ scan (suc i) (n * 10 + d) s
unfolding scan digit
scan-digit i n zero s h = rw (cons-append "0" "" s, nil-append s)
scan-digit i n (suc zero) s h = rw (cons-append "1" "" s, nil-append s)
scan-digit i n (suc (suc zero)) s h = rw (cons-append "2" "" s, nil-append s)
scan-digit i n (suc (suc (suc zero))) s h = rw (cons-append "3" "" s, nil-append s)
scan-digit i n (suc (suc (suc (suc zero)))) s h = rw (cons-append "4" "" s, nil-append s)
scan-digit i n (suc (suc (suc (suc (suc zero))))) s h = rw (cons-append "5" "" s, nil-append s)
scan-digit i n (suc (suc (suc (suc (suc (suc zero)))))) s h =
    rw (cons-append "6" "" s, nil-append s)
scan-digit i n (suc (suc (suc (suc (suc (suc (suc zero))))))) s h =
    rw (cons-append "7" "" s, nil-append s)
scan-digit i n (suc (suc (suc (suc (suc (suc (suc (suc zero)))))))) s h =
    rw (cons-append "8" "" s, nil-append s)
scan-digit i n (suc (suc (suc (suc (suc (suc (suc (suc (suc zero))))))))) s h =
    rw (cons-append "9" "" s, nil-append s)
scan-digit i n (suc (suc (suc (suc (suc (suc (suc (suc (suc (suc d)))))))))) s h =
    absurd (omega arith)

scan-digits :
    (f n : ℕ) (s : String) → n < f → (k : ℕ) × (scan 0 0 (digits f n <> s) ≡ scan (suc k) n s)
unfolding digits
scan-digits zero n s h = elim h [ ]
scan-digits (suc f) n s h = elim (Bool-cases (ltb n 10)) [
  | inl p ↦ (0, rw p (scan-digit 0 0 n s (ground arith) ∙ ap (λ m. scan 1 m s) (omega arith)))
  | inr p ↦
      let (k, e) = scan-digits f (n / 10) (digit (n % 10) <> s) (ground arith) in
      (
        suc k,
        rw p (
            ap (scan 0 0) (append_assoc (digits f (n / 10)) (digit (n % 10)) s)
            ∙ e
            ∙ scan-digit (suc k) (n / 10) (n % 10) s (omega arith)
            ∙ ap (λ m. scan (suc (suc k)) m s) (omega arith)),
      )
]

scan-unit :
    (i n : ℕ) (u : String)
    → starts_unit u ≡ true
    → scan i n u ≡ record { digits = i; value = n; rest = u }
unfolding scan
scan-unit i n String.[] h = refl
scan-unit i n (String.◌∷◌ c s) h = ground (arith, h)

scan-printed :
    (n : ℕ) (u : String)
    → starts_unit u ≡ true
    → (k : ℕ) × (scan 0 0 (itoa (pos n) <> u) ≡ record { digits = suc k; value = n; rest = u })
unfolding itoa
scan-printed n u h =
    let (k, e) = scan-digits (suc n) n u (omega arith) in (k, e ∙ scan-unit (suc k) n u h)

scan-short : (t : String) → is_short t ≡ true → ((scan 0 0 t).digits ≡ 0) ⊎ ((scan 0 0 t).rest ≡ "")
unfolding scan
scan-short String.[] h = inl refl
scan-short (String.◌∷◌ c String.[]) h = elim (Bool-cases (is_digit (code c))) [
  | inl p ↦ inr (rw p)
  | inr p ↦ inl (rw p)
]
scan-short (String.◌∷◌ c (String.◌∷◌ d s)) h = cc

-- The text is not "now".
printed-ne-now :
    (t : String) (k n : ℕ) (u : String)
    → scan 0 0 t ≡ record { digits = suc k; value = n; rest = u }
    → (t == time_now) ≡ false
unfolding scan
printed-ne-now t k n u e = elim (Bool-cases (t == time_now)) [
  | inl p ↦
      let same = (eq_iff t time_now).0 p in
      let none_read : (scan 0 0 t).digits ≡ 0 = rw same refl in cc (e, none_read)
  | inr p ↦ p
]

no_unit : unit_seconds "" ≡ none
unfolding unit_seconds
no_unit = refl

none_always : (b : Bool) → ◌≡◌ {A = Option ℤ} none (if b then none else none)
none_always true = refl
none_always false = refl

parse-scanned :
    (t : String) (k n : ℕ) (u : String)
    → scan 0 0 t ≡ record { digits = suc k; value = n; rest = u }
    → parse_time_string_to_seconds t ≡ (if leb (2 ^ 63) n then none else in_unit n (unit_seconds u))
unfolding parse_time_string_to_seconds
parse-scanned t k n u e = elim (Bool-cases (is_short t)) [
  | inl p ↦
      rw (printed-ne-now t k n u e, p)
        (elim (scan-short t p) [
          | inl q ↦ let impossible : suc k ≡ 0 = cc (e, q) in absurd (omega arith)
          | inr q ↦
              let empty : u ≡ "" = cc (e, q) in
              rw (ap unit_seconds empty ∙ no_unit) (none_always (leb (2 ^ 63) n))
        ])
  | inr p ↦ rw (printed-ne-now t k n u e, p, e) (ground arith)
]

pub parse_time_lem :
    (n : ℕ) (unit : String)
    → starts_unit unit ≡ true
    → parse_time_string_to_seconds (itoa (pos n) <> unit)
      ≡ (if leb (2 ^ 63) n then none else in_unit n (unit_seconds unit))
parse_time_lem n unit h =
    let (k, e) = scan-printed n unit h in parse-scanned (itoa (pos n) <> unit) k n unit e

-- The units, each by its names, with their seconds.
abbrev pub unit_table : List (List String × ℕ)
unit_table =
    ("s" ∷ "sec" ∷ "second" ∷ "seconds" ∷ [], 1)
    ∷ ("m" ∷ "min" ∷ "minute" ∷ "minutes" ∷ [], 60)
    ∷ ("h" ∷ "hour" ∷ "hours" ∷ [], 60 * 60)
    ∷ ("d" ∷ "day" ∷ "days" ∷ [], 24 * 60 * 60)
    ∷ ("w" ∷ "week" ∷ "weeks" ∷ [], 7 * 24 * 60 * 60)
    ∷ ("y" ∷ "year" ∷ "years" ∷ [], 365 * 24 * 60 * 60)
    ∷ []

abbrev pub or_one_of : Bool → String → List String → Bool
or_one_of b u [] = b
or_one_of b u (name ∷ names) = or_one_of (b || u == name) u names

abbrev pub is_one_of : String → List String → Bool
is_one_of u [] = false
is_one_of u (name ∷ names) = or_one_of (u == name) u names

abbrev pub find_unit : String → List (List String × ℕ) → Option ℕ
find_unit u [] = none
find_unit u ((names, k) ∷ rest) =
    let later = find_unit u rest in if is_one_of u names then some k else later

-- The number of an int64 with the bits of `m`, for `m` below 2 ^ 64.
abbrev pub signed : ℕ → ℤ
signed m = if ltb m (2 ^ 63) then pos m else negsuc (2 ^ 64 - m - 1)

abbrev pub seconds_of : ℕ → Option ℕ → Option ℤ
seconds_of n none = none
seconds_of n (some k) = if ltb n (2 ^ 63) then some (signed ((n * k) % 2 ^ 64)) else none

unit_seconds-table : (u : String) → unit_seconds u ≡ find_unit u unit_table
unfolding unit_seconds
unit_seconds-table u = refl

seconds_of_lem :
    (n : ℕ) (o : Option ℕ) → (if leb (2 ^ 63) n then none else in_unit n o) ≡ seconds_of n o
unfolding wrap64
seconds_of_lem n none = sym (none_always (leb (2 ^ 63) n))
seconds_of_lem n (some k) = ground arith

-- A printed number with a unit behind it that does not begin with a digit is the number times the
-- seconds of the unit, with the wrap-around of 64 bits; it is an error for a number above the int64
-- range, and for a text that is none of the units of the table.
pub parse_time_exact :
    (n : ℕ) (unit : String)
    → starts_unit unit ≡ true
    → parse_time_string_to_seconds (itoa (pos n) <> unit) ≡ seconds_of n (find_unit unit unit_table)
parse_time_exact n unit h =
    parse_time_lem n unit h
    ∙ seconds_of_lem n (unit_seconds unit)
    ∙ ap (seconds_of n) (unit_seconds-table unit)
