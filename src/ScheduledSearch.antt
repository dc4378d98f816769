-- ===== src/ScheduledSearch.antt =====
-- The versions of the HumioScheduledSearch resource, api/v1alpha1/humioscheduledsearch_types.go and
-- api/v1beta1/humioscheduledsearch_types.go, and the conversions between them. The converted metadata
-- shares its maps with the source, which the conversion drops.
pub mod Times
pub mod RoundTrip
mod Examples
use humio_operator.Common.{String, Bool, Option, none, some, List, if◌then◌else◌}
use humio_operator.Common.Int.{ℤ, pos, ltb_ℤ}
use humio_operator.Common.Map.{Map, insert}
use humio_operator.Common.Format.{itoa}
use humio_operator.ScheduledSearch.Times.{
  parse_time_string_to_seconds, parse_seconds_to_string, time_now,
}

-- The metadata that conversion writes. A nil map is an empty one.
pub record ObjectMeta : Type 0 where
  pub name : String
  pub labels : Map String
  pub annotations : Map String

-- HumioScheduledSearchSpec of v1alpha1
pub record AlphaSpec : Type 0 where
  pub managed_cluster_name : String
  pub external_cluster_name : String
  pub name : String
  pub view_name : String
  pub query_string : String
  pub description : String
  pub query_start : String
  pub query_end : String
  pub schedule : String
  pub time_zone : String
  pub backfill_limit : ℤ
  pub enabled : Bool
  pub actions : List String
  pub labels : List String

-- HumioScheduledSearch of v1alpha1; its status is a state.
pub record Alpha : Type 0 where
  pub meta : ObjectMeta
  pub spec : AlphaSpec
  pub state : String

-- QueryTimestampType
pub data QueryTimestampType : Type 0 where
  event_timestamp ingest_timestamp : QueryTimestampType

-- HumioScheduledSearchSpec of v1beta1
pub record BetaSpec : Type 0 where
  pub managed_cluster_name : String
  pub external_cluster_name : String
  pub name : String
  pub view_name : String
  pub query_string : String
  pub description : String
  pub max_wait_time_seconds : ℤ
  pub query_timestamp_type : QueryTimestampType
  pub search_interval_seconds : ℤ
  pub search_interval_offset_seconds : Option ℤ
  pub schedule : String
  pub time_zone : String
  pub backfill_limit : Option ℤ
  pub enabled : Bool
  pub actions : List String
  pub labels : List String

-- HumioScheduledSearch of v1beta1, the hub
pub record Beta : Type 0 where
  pub meta : ObjectMeta
  pub spec : BetaSpec
  pub state : String

-- The metadata that ConvertTo writes, for the spec as JSON and the time of the conversion.
unfoldable pub converted_meta : String → ℤ → ObjectMeta → ObjectMeta
converted_meta json now m = record m {
  labels = insert "humio.com/conversion-time" (itoa now) m.labels;
  annotations = insert "humio.com/original-v1alpha1-spec" json m.annotations;
}

-- The end of ConvertTo, with the answers to the two times.
unfoldable pub converted_to : ObjectMeta → Alpha → Option ℤ → Option ℤ → Option Beta
converted_to m src none end = none
converted_to m src (some start) none = none
converted_to m src (some start) (some end) = some (record {
  meta = m;
  state = src.state;
  spec = record {
    managed_cluster_name = src.spec.managed_cluster_name;
    external_cluster_name = src.spec.external_cluster_name;
    name = src.spec.name;
    view_name = src.spec.view_name;
    query_string = src.spec.query_string;
    description = src.spec.description;
    max_wait_time_seconds = pos 0;
    query_timestamp_type = event_timestamp;
    search_interval_seconds = start;
    search_interval_offset_seconds = some end;
    schedule = src.spec.schedule;
    time_zone = src.spec.time_zone;
    backfill_limit = some src.spec.backfill_limit;
    enabled = src.spec.enabled;
    actions = src.spec.actions;
    labels = src.spec.labels;
  };
})

-- ConvertTo, for json.Marshal and the seconds of time.Now(), into a new object; `none` is an error.
unfoldable pub convert_to : (AlphaSpec → Option String) → ℤ → Alpha → Option Beta
unfolding converted_to
convert_to marshal now src = elim (marshal src.spec) [
  | none ↦ none
  | some json ↦
      converted_to (converted_meta json now src.meta) src
        (parse_time_string_to_seconds src.spec.query_start)
        (parse_time_string_to_seconds src.spec.query_end)
]

-- The backfill limit, which defaults to 0.
abbrev pub backfill_of : Option ℤ → ℤ
backfill_of none = pos 0
backfill_of (some n) = n

-- The end of the query, which defaults to "now".
unfoldable pub query_end_of : Option ℤ → String
query_end_of none = time_now
query_end_of (some n) = if ltb_ℤ (pos 0) n then parse_seconds_to_string n else time_now

-- ConvertFrom, into a new object. ParseSecondsToString returns no error.
unfoldable pub convert_from : Beta → Alpha
convert_from src = record {
  meta = src.meta;
  state = src.state;
  spec = record {
    managed_cluster_name = src.spec.managed_cluster_name;
    external_cluster_name = src.spec.external_cluster_name;
    name = src.spec.name;
    view_name = src.spec.view_name;
    query_string = src.spec.query_string;
    description = src.spec.description;
    query_start = parse_seconds_to_string src.spec.search_interval_seconds;
    query_end = query_end_of src.spec.search_interval_offset_seconds;
    schedule = src.spec.schedule;
    time_zone = src.spec.time_zone;
    backfill_limit = backfill_of src.spec.backfill_limit;
    enabled = src.spec.enabled;
    actions = src.spec.actions;
    labels = src.spec.labels;
  };
}
