-- ===== src/ScheduledSearch/RoundTrip.antt =====
-- What the conversions of scheduled searches keep, there and back.
use mathlib.Core.Option
use humio_operator.Common.{
  ℕ, zero, suc, ◌*◌, ◌/◌, ◌%◌, ◌^◌, ◌<◌, ◌<>◌, ◌≡◌, refl, ◌∙◌, ap, String, true, Option, none, some,
  leb, eqb, ◌&&◌, arith, Bool-cases, inl, inr,
}
use humio_operator.Common.Int.{ℤ, pos, negsuc, ◌<ℤ◌, max_ℤ}
use humio_operator.Common.Format.{itoa}
use humio_operator.Resources.Numbers.{wrap64}
use humio_operator.ScheduledSearch.Times.{
  in_unit, parse_time_string_to_seconds, parse_seconds_to_string, unit_seconds, print_in, scan,
}
use humio_operator.ScheduledSearch.Times.Reading.{starts_unit, parse_time_lem}
use humio_operator.ScheduledSearch.{
  AlphaSpec, Alpha, BetaSpec, Beta, event_timestamp, converted_meta, converted_to, convert_to,
  backfill_of, query_end_of, convert_from,
}

wrap64_small : (n : ℕ) → n < 2 ^ 63 → wrap64 (pos n) ≡ pos n
unfolding wrap64
wrap64_small n h = ground arith

parse_printed :
    (n k : ℕ) (name : String)
    → unit_seconds name ≡ some k
    → starts_unit name ≡ true
    → n / k * k ≡ n
    → n / k < 2 ^ 63
    → n < 2 ^ 63
    → parse_time_string_to_seconds (itoa (pos (n / k)) <> name) ≡ some (pos n)
parse_printed n k name unit starts exact small h =
    parse_time_lem (n / k) name starts ∙ rw (unit, exact) (ground (arith, wrap64_small n h))

parse_print_pos :
    (n : ℕ)
    → 0 < n
    → n < 2 ^ 63
    → parse_time_string_to_seconds (parse_seconds_to_string (pos n)) ≡ some (pos n)
unfolding parse_seconds_to_string print_in unit_seconds
parse_print_pos zero p h = absurd (omega arith)
parse_print_pos (suc n) p h = elim (Bool-cases (leb 86400 (suc n) && eqb (suc n % 86400) 0)) [
  | inl t ↦ rw t (parse_printed (suc n) 86400 "d" refl refl (ground arith) (omega arith) h)
  | inr f ↦ rw f (elim (Bool-cases (leb 3600 (suc n) && eqb (suc n % 3600) 0)) [
    | inl t ↦ rw t (parse_printed (suc n) 3600 "h" refl refl (ground arith) (omega arith) h)
    | inr g ↦ rw g (elim (Bool-cases (leb 60 (suc n) && eqb (suc n % 60) 0)) [
      | inl t ↦ rw t (parse_printed (suc n) 60 "m" refl refl (ground arith) (omega arith) h)
      | inr i ↦
          let whole : (leb 1 (suc n) && eqb (suc n % 1) 0) ≡ true = ground arith in
          rw (i, whole) (parse_printed (suc n) 1 "s" refl refl (omega arith) (omega arith) h)
    ])
  ])
]

-- A number of seconds in the int64 range, once printed, is read back as itself; a negative one is read
-- back as 0.
pub parse-print :
    (t : ℤ)
    → t <ℤ pos (2 ^ 63)
    → parse_time_string_to_seconds (parse_seconds_to_string t) ≡ some (max_ℤ t (pos 0))
parse-print (pos zero) h = unfold parse_seconds_to_string parse_time_string_to_seconds in refl
parse-print (pos (suc n)) h = parse_print_pos (suc n) (omega arith) (omega arith) ∙ (ground arith)
parse-print (negsuc n) h =
    unfold parse_seconds_to_string parse_time_string_to_seconds in (ground arith)

wrap64-lt : (t : ℤ) → wrap64 t <ℤ pos (2 ^ 63)
unfolding wrap64
wrap64-lt (pos n) = ground arith
wrap64-lt (negsuc n) = ground arith

in_unit-lt : (n : ℕ) (k : Option ℕ) (t : ℤ) → in_unit n k ≡ some t → t <ℤ pos (2 ^ 63)
in_unit-lt n none t h = cc
in_unit-lt n (some k) t h = ground (arith, wrap64-lt (pos (n * k)))

-- What is read is in the int64 range.
parse-lt : (s : String) (t : ℤ) → parse_time_string_to_seconds s ≡ some t → t <ℤ pos (2 ^ 63)
unfolding parse_time_string_to_seconds
parse-lt s t h =
    let read = scan 0 0 s in ground (arith, in_unit-lt read.value (unit_seconds read.rest) t)

-- ConvertFrom's two ways to a text agree.
query_end_of-some : (t : ℤ) → query_end_of (some t) ≡ parse_seconds_to_string t
unfolding query_end_of parse_seconds_to_string
query_end_of-some (pos zero) = refl
query_end_of-some (pos (suc n)) = ground arith
query_end_of-some (negsuc n) = ground arith

converts :
    (marshal : AlphaSpec → Option String) (now : ℤ) (a : Alpha) (json : String) (s e : ℤ)
    → marshal a.spec ≡ some json
    → parse_time_string_to_seconds a.spec.query_start ≡ some s
    → parse_time_string_to_seconds a.spec.query_end ≡ some e
    → convert_to marshal now a ≡ converted_to (converted_meta json now a.meta) a (some s) (some e)
unfolding convert_to
converts marshal now a json s e m p q = ground arith

-- A scheduled search of v1alpha1 whose times are read as `s` and `e` seconds is converted to v1beta1
-- and back with its name, its state and all of its spec but the two texts of the times, which become
-- the texts printed for `s` and `e`. These are read as the same seconds, or as 0 where the seconds are
-- negative.
pub convert_from-convert_to :
    (marshal : AlphaSpec → Option String) (now : ℤ) (a : Alpha) (json : String) (s e : ℤ)
    → marshal a.spec ≡ some json
    → parse_time_string_to_seconds a.spec.query_start ≡ some s
    → parse_time_string_to_seconds a.spec.query_end ≡ some e
    → (Option.map convert_from (convert_to marshal now a)
        ≡ some (record a {
          meta = converted_meta json now a.meta;
          spec = record a.spec {
            query_start = parse_seconds_to_string s;
            query_end = parse_seconds_to_string e;
          };
        }))
      × (parse_time_string_to_seconds (parse_seconds_to_string s) ≡ some (max_ℤ s (pos 0)))
      × (parse_time_string_to_seconds (parse_seconds_to_string e) ≡ some (max_ℤ e (pos 0)))
unfolding convert_from converted_to
convert_from-convert_to marshal now a json s e m p q = (
  rw (converts marshal now a json s e m p q) (ground (arith, query_end_of-some e)),
  parse-print s (parse-lt a.spec.query_start s p),
  parse-print e (parse-lt a.spec.query_end e q),
)

-- What v1alpha1 holds of a spec of v1beta1.
abbrev pub kept : BetaSpec → BetaSpec
kept b = record b {
  max_wait_time_seconds = pos 0;
  query_timestamp_type = event_timestamp;
  search_interval_seconds = max_ℤ b.search_interval_seconds (pos 0);
  search_interval_offset_seconds =
      some (max_ℤ (backfill_of b.search_interval_offset_seconds) (pos 0));
  backfill_limit = some (backfill_of b.backfill_limit);
}

parse_query_end :
    (o : Option ℤ)
    → backfill_of o <ℤ pos (2 ^ 63)
    → parse_time_string_to_seconds (query_end_of o) ≡ some (max_ℤ (backfill_of o) (pos 0))
parse_query_end none h = unfold query_end_of parse_time_string_to_seconds in refl
parse_query_end (some t) h = ap parse_time_string_to_seconds (query_end_of-some t) ∙ parse-print t h

-- A scheduled search of v1beta1 whose numbers are in the int64 range is converted to v1alpha1 and back
-- without an error, and keeps its name, its state and its spec, but for this: the timestamp type
-- becomes EventTimestamp, the longest wait 0, an offset or a backfill limit that is not set becomes 0,
-- and negative seconds become 0.
pub convert_to-convert_from :
    (marshal : AlphaSpec → Option String) (now : ℤ) (b : Beta) (json : String)
    → marshal (convert_from b).spec ≡ some json
    → b.spec.search_interval_seconds <ℤ pos (2 ^ 63)
    → backfill_of b.spec.search_interval_offset_seconds <ℤ pos (2 ^ 63)
    → convert_to marshal now (convert_from b)
      ≡ some (record b { meta = converted_meta json now b.meta; spec = kept b.spec })
unfolding convert_from converted_to
convert_to-convert_from marshal now b json m h k =
    converts marshal now (convert_from b) json _ _ m (parse-print b.spec.search_interval_seconds h)
      (parse_query_end b.spec.search_interval_offset_seconds k)
    ∙ refl
