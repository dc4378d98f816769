-- ===== src/Resources/Parser.antt =====
-- Parsers: internal/controller/humioparser_controller.go, and the methods for parsers of
-- internal/humio/client.go. LogScale's GraphQL calls are an interface over a state of its own.
use humio_operator.Common.{
  String, Bool, true, false, Option, none, some, List, [], ◌∷◌, ◌==◌, ◌&&◌, map, if◌then◌else◌,
}
use humio_operator.Resources.{Found, found, not_found, failed, Controller, state_unknown}
use humio_operator.Resources.Compare.{
  Texts, same_text, same_texts, same_option, same_list, sort_strings, empty_slice_if_nil,
  as_expected_of,
}

-- HumioParserSpec
pub record ParserSpec : Type 0 where
  pub name : String
  pub repository_name : String
  pub parser_script : String
  pub tag_fields : Texts
  pub test_data : Texts

-- ParserDetailsTestCasesParserTestCase. An assertion on the output has its type name only, behind a
-- pointer.
pub record TestCase : Type 0 where
  pub raw_string : String
  pub output_assertions : Option (List (Option String))

-- ParserDetails. Nil slices are none.
pub record ParserDetails : Type 0 where
  pub id : String
  pub script : String
  pub fields_to_tag : Texts
  pub test_cases : Option (List TestCase)

-- The arguments of CreateParserOrUpdate. The test cases have their texts only.
pub record ParserInput : Type 0 where
  pub repository_name : String
  pub name : String
  pub script : String
  pub test_cases : List String
  pub fields_to_tag : Texts
  pub fields_to_be_removed : List String
  pub allow_overwriting : Bool

-- The GraphQL calls that the client makes for parsers: ListParsers, with the name and the id of each.
pub record ParserApi {μ} (W : Type μ) : Type μ where
  pub list_parsers : String → W → Option (List (String × String))
  pub get_parser_by_id : String → String → W → Option (Option ParserDetails)
  pub create_parser_or_update : ParserInput → W → W × Bool
  pub delete_parser_by_id : String → String → W → W × Bool

-- TestDataToParserDetailsTestCasesParserTestCase
unfoldable pub test_data_to_test_cases : Texts → List TestCase
test_data_to_test_cases texts =
    map (λ (s : String). record { raw_string = s; output_assertions = some [] })
      (empty_slice_if_nil texts)

same_test_case : TestCase → TestCase → Bool
same_test_case c d =
    c.raw_string == d.raw_string
    && same_option (same_list (same_option same_text)) c.output_assertions d.output_assertions

same_test_cases : Option (List TestCase) → List TestCase → Bool
unfolding same_test_case
same_test_cases none expected = false
same_test_cases (some cases) expected = same_list same_test_case cases expected

-- parserAlreadyAsExpected
unfoldable pub parser_already_as_expected : ParserSpec → ParserDetails → Bool
unfolding same_test_cases
parser_already_as_expected spec d = as_expected_of (
    ("parserScript", same_text d.script spec.parser_script)
    ∷ ("tagFields", same_texts (sort_strings d.fields_to_tag) (sort_strings spec.tag_fields))
    ∷ ("testData", same_test_cases d.test_cases (test_data_to_test_cases spec.test_data))
    ∷ [])

-- What a comparison leaves of the spec in memory
unfoldable pub sorted_parser : ParserSpec → ParserSpec
sorted_parser spec = record spec { tag_fields = sort_strings spec.tag_fields }

parser_input : ParserSpec → Texts → Bool → ParserInput
parser_input spec fields overwrite = record {
  repository_name = spec.repository_name;
  name = spec.name;
  script = spec.parser_script;
  test_cases = empty_slice_if_nil spec.test_data;
  fields_to_tag = fields;
  fields_to_be_removed = [];
  allow_overwriting = overwrite;
}

-- The loop that stops at the first parser of that name, and its id; "" without one.
first_id : String → List (String × String) → String
first_id name [] = ""
first_id name ((n, id) ∷ rest) = if n == name then id else first_id name rest

module _ {μ} {W : Type μ} (api : ParserApi W) where
  -- GetParser
  unfoldable pub get_parser : ParserSpec → W → Found ParserDetails
  unfolding first_id
  get_parser spec w = elim (api.list_parsers spec.repository_name w) [
    | none ↦ failed
    | some parsers ↦
        let id = first_id spec.name parsers in
        if id == "" then not_found else elim (api.get_parser_by_id spec.repository_name id w) [
          | none ↦ failed
          | some none ↦ not_found
          | some (some d) ↦ found d
        ]
  ]

  -- AddParser
  unfoldable pub add_parser : ParserSpec → W → W × Bool
  unfolding parser_input
  add_parser spec w =
      api.create_parser_or_update
        (parser_input spec (some (empty_slice_if_nil spec.tag_fields)) false) w

  -- UpdateParser
  unfoldable pub update_parser : ParserSpec → W → W × Bool
  unfolding parser_input
  update_parser spec w = api.create_parser_or_update (parser_input spec spec.tag_fields true) w

  -- DeleteParser
  unfoldable pub delete_parser : ParserSpec → W → W × Bool
  delete_parser spec w = elim (get_parser spec w) [
    | not_found ↦ (w, true)
    | failed ↦ (w, false)
    | found d ↦ api.delete_parser_by_id spec.repository_name d.id w
  ]

  -- The reconciler of parsers.
  abbrev pub parser_controller : Controller ParserSpec ParserDetails W
  parser_controller = record {
    log_scale = record {
      get = get_parser;
      add = add_parser;
      update = update_parser;
      delete = delete_parser;
      validate = λ spec w. true;
    };
    as_expected = parser_already_as_expected;
    normalize = sorted_parser;
    is_valid = λ spec. true;
    finalize_asks_for_cluster = true;
    ends_after_finalizer = false;
    always_reports = false;
    failure_state = state_unknown;
  }
