-- ===== src/ScheduledSearch/Times.antt =====
-- ParseTimeStringToSeconds and ParseSecondsToString of api/v1alpha1/humioscheduledsearch_types.go.
-- A text is a sequence of characters; a length below 2 is the same test on bytes, or both are errors.
pub mod Reading
use Prim.Native.Char.{code}
use humio_operator.Common.{
  ℕ, zero, suc, ◌+◌, ◌-◌, ◌*◌, ◌/◌, ◌%◌, ◌^◌, ◌<>◌, ◌≡◌, refl, String, Bool, false, true, Option,
  none, some, leb, eqb, ◌==◌, ◌&&◌, ◌||◌, if◌then◌else◌, List, [], ◌∷◌,
}
use humio_operator.Common.Int.{ℤ, pos, negsuc}
use humio_operator.Common.Format.{itoa}
use humio_operator.Resources.Numbers.{wrap64}

-- HumioScheduledSearchTimeNow
abbrev pub time_now : String
time_now = "now"

-- A character from '0' to '9', by its code
abbrev pub is_digit : ℕ → Bool
is_digit c = leb b'0' c && leb c b'9'

-- The loop that finds where the number ends: the number of digits, their value, and what follows them.
pub record Scan : Type 0 where
  pub digits : ℕ
  pub value : ℕ
  pub rest : String

unfoldable pub scan : ℕ → ℕ → String → Scan
scan i n String.[] = record { digits = i; value = n; rest = "" }
scan i n (String.◌∷◌ c s) =
    let d = code c in
    let further = scan (suc i) (n * 10 + (d - b'0')) s in
    if is_digit d then further else record { digits = i; value = n; rest = String.◌∷◌ c s }

-- The seconds of a unit
unfoldable pub unit_seconds : String → Option ℕ
unit_seconds u =
    if u == "s" || u == "sec" || u == "second" || u == "seconds"
    then some 1
    else if u == "m" || u == "min" || u == "minute" || u == "minutes"
    then some 60
    else if u == "h" || u == "hour" || u == "hours"
    then some 3600
    else if u == "d" || u == "day" || u == "days"
    then some 86400
    else if u == "w" || u == "week" || u == "weeks"
    then some 604800
    else if u == "y" || u == "year" || u == "years"
    then some 31536000
    else none

-- len(timeStr) < 2
abbrev pub is_short : String → Bool
is_short String.[] = true
is_short (String.◌∷◌ c String.[]) = true
is_short (String.◌∷◌ c (String.◌∷◌ d s)) = false

-- The value times the seconds of the unit, on 64 bits.
abbrev pub in_unit : ℕ → Option ℕ → Option ℤ
in_unit n none = none
in_unit n (some k) = some (wrap64 (pos (n * k)))

-- The reading of the number by Sscanf, which is an error above the int64 range, and of the unit.
value_in_unit : Scan → Option ℤ
value_in_unit s =
    if eqb s.digits 0
    then none
    else if leb (2 ^ 63) s.value
    then none
    else in_unit s.value (unit_seconds s.rest)

-- ParseTimeStringToSeconds; `none` is an error.
unfoldable pub parse_time_string_to_seconds : String → Option ℤ
unfolding value_in_unit
parse_time_string_to_seconds t =
    if t == time_now then some (pos 0) else if is_short t then none else value_in_unit (scan 0 0 t)

-- The units that a number of seconds is printed in, and their names.
abbrev pub print_units : List (String × ℕ)
print_units = ("d", 86400) ∷ ("h", 3600) ∷ ("m", 60) ∷ ("s", 1) ∷ []

-- The loop over the units
unfoldable pub print_in : List (String × ℕ) → ℕ → String
print_in [] n = itoa (pos n) <> "s"
print_in ((name, k) ∷ units) n =
    let rest = print_in units n in
    if leb k n && eqb (n % k) 0 then itoa (pos (n / k)) <> name else rest

-- ParseSecondsToString, which returns no error.
unfoldable pub parse_seconds_to_string : ℤ → String
unfolding print_in
parse_seconds_to_string (pos zero) = time_now
parse_seconds_to_string (pos (suc n)) = print_in print_units (suc n)
parse_seconds_to_string (negsuc n) = time_now

times_examples :
    (parse_time_string_to_seconds "now" ≡ some (pos 0))
    × (parse_time_string_to_seconds "12hours" ≡ some (pos 43200))
    × (parse_time_string_to_seconds "h" ≡ none)
    × (parse_time_string_to_seconds "5" ≡ none)
    × (parse_time_string_to_seconds "5 m" ≡ none)
    × (parse_seconds_to_string (pos 43200) ≡ "12h")
    × (parse_seconds_to_string (pos 90061) ≡ "90061s")
    × (parse_seconds_to_string (negsuc 4) ≡ "now")
unfolding parse_time_string_to_seconds parse_seconds_to_string scan unit_seconds wrap64 itoa
times_examples = (refl, refl, refl, refl, refl, refl, refl, refl)
