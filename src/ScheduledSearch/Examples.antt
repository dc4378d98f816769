-- ===== src/ScheduledSearch/Examples.antt =====
-- Concrete scheduled searches of both versions.
use humio_operator.Common.{String, true, Option, none, some, [], ◌∷◌, ◌≡◌, ◌<>◌, refl, arith}
use mathlib.Core.Option
use humio_operator.Common.Int.{pos, negsuc, max_ℤ}
use humio_operator.Common.Format.{itoa}
use humio_operator.ScheduledSearch.{
  AlphaSpec, Alpha, ObjectMeta, Beta, ingest_timestamp, converted_meta, convert_to, convert_from,
}
use humio_operator.ScheduledSearch.Times.{
  unit_seconds, parse_time_string_to_seconds, parse_seconds_to_string, scan,
}
use humio_operator.ScheduledSearch.Times.Reading.{parse_time_exact}
use humio_operator.ScheduledSearch.RoundTrip.{
  parse-print, convert_from-convert_to, convert_to-convert_from, kept,
}
use humio_operator.Resources.Numbers.{wrap64}

abbrev some_meta : ObjectMeta
some_meta = record { name = "search"; labels = []; annotations = ("team", "a") ∷ [] }

-- A search over the last 24 hours.
abbrev daily : Alpha
daily = record {
  meta = some_meta;
  state = "Exists";
  spec = record {
    managed_cluster_name = "cluster";
    external_cluster_name = "";
    name = "daily";
    view_name = "humio";
    query_string = "#type=error";
    description = "";
    query_start = "24h";
    query_end = "now";
    schedule = "0 0 * * *";
    time_zone = "UTC";
    backfill_limit = pos 3;
    enabled = true;
    actions = "mail" ∷ [];
    labels = [];
  };
}

-- A search on ingest timestamps.
abbrev ingested : Beta
ingested = record {
  meta = some_meta;
  state = "Exists";
  spec = record {
    managed_cluster_name = "cluster";
    external_cluster_name = "";
    name = "ingested";
    view_name = "humio";
    query_string = "#type=error";
    description = "";
    max_wait_time_seconds = pos 60;
    query_timestamp_type = ingest_timestamp;
    search_interval_seconds = pos 5400;
    search_interval_offset_seconds = none;
    schedule = "0 0 * * *";
    time_zone = "UTC";
    backfill_limit = none;
    enabled = true;
    actions = "mail" ∷ [];
    labels = [];
  };
}

-- Not JSON, but a text for each spec.
abbrev to_json : AlphaSpec → Option String
to_json spec = some spec.name

daily_times :
    (parse_time_string_to_seconds "24h" ≡ some (pos 86400))
    × (parse_seconds_to_string (pos 86400) ≡ "1d")
unfolding parse_time_string_to_seconds parse_seconds_to_string scan unit_seconds wrap64 itoa
daily_times = (refl, refl)

-- More days than 64 bits hold in seconds: the answer is negative.
many_days : parse_time_string_to_seconds "106751991167301d" ≡ some (negsuc 9223372036854745215)
unfolding parse_time_string_to_seconds scan unit_seconds wrap64
many_days = refl

parse_time_exact_example :
    parse_time_string_to_seconds (itoa (pos 106751991167301) <> "d")
    ≡ some (negsuc 9223372036854745215)
parse_time_exact_example = parse_time_exact 106751991167301 "d" refl

parse-print_example :
    parse_time_string_to_seconds (parse_seconds_to_string (pos 5400))
    ≡ some (max_ℤ (pos 5400) (pos 0))
parse-print_example = parse-print (pos 5400) (omega arith)

reads_now : parse_time_string_to_seconds "now" ≡ some (pos 0)
unfolding parse_time_string_to_seconds
reads_now = refl

convert_from-convert_to_example :
    (Option.map convert_from (convert_to to_json (pos 1700000000) daily)
      ≡ some (record daily {
        meta = converted_meta "daily" (pos 1700000000) some_meta;
        spec = record daily.spec {
          query_start = parse_seconds_to_string (pos 86400);
          query_end = parse_seconds_to_string (pos 0);
        };
      }))
    × (parse_time_string_to_seconds (parse_seconds_to_string (pos 86400))
        ≡ some (max_ℤ (pos 86400) (pos 0)))
    × (parse_time_string_to_seconds (parse_seconds_to_string (pos 0))
        ≡ some (max_ℤ (pos 0) (pos 0)))
convert_from-convert_to_example =
    convert_from-convert_to to_json (pos 1700000000) daily "daily" (pos 86400) (pos 0) refl
      daily_times.0 reads_now

names_kept : to_json (convert_from ingested).spec ≡ some "ingested"
unfolding convert_from
names_kept = refl

convert_to-convert_from_example :
    convert_to to_json (pos 1700000000) (convert_from ingested)
    ≡ some (record ingested {
      meta = converted_meta "ingested" (pos 1700000000) some_meta;
      spec = kept ingested.spec;
    })
convert_to-convert_from_example =
    convert_to-convert_from to_json (pos 1700000000) ingested "ingested" names_kept (omega arith)
      (omega arith)
