-- ===== src/Tests/Query.antt =====
-- Runs of core/search.py on the tokens of `(a OR b) AND !c` and on a small file.
use quick_find.Prelude.{
  pos, ◌≡◌, ◌≢◌, ◌↔◌, refl, Bool, true, false, none, some, [], ◌∷◌, ◌++◌, arith,
}
use quick_find.Text.{Text, codes, ascii, contains}
use quick_find.Index.{FileEntry}
use quick_find.Query.Boolean.{
  BooleanExpression, term, neg, conj, disj, nil, cons, kind, has_operator, parse_boolean_expression,
}
use quick_find.Query.Boolean.Total.{parse_boolean_expression-ne-none}
use quick_find.Query.Boolean.Print.{alone, emit, IsProper}
use quick_find.Query.Boolean.RoundTrip.{
  parse_boolean_expression-emit, parse_boolean_expression-unmatched,
}
use quick_find.Query.Boolean.Legacy.{
  compile_boolean_node, legacy_boolean_fields, extend_group, or_fields, meets,
  legacy_boolean_fields-meets,
}
use quick_find.Query.Options.{SearchOptions, ParsedQuery, smart, by_name, ascending}
use quick_find.Query.Matcher.{fuzzy_match}
use quick_find.Query.Matcher.Fuzzy.{IsSubsequence, fuzzy_match_iff}
use quick_find.Query.Duplicates.{members, find_duplicates}
use quick_find.Query.Duplicates.Groups.{at_least_two, is_named, find_duplicates-keep}
use quick_find.Prelude.{keep}
use quick_find.Query.Synonyms.{
  expand_query_terms, expanded_meets, synonyms_of, expand_query_terms-meets,
}
use quick_find.Prelude.{List, any, all}
use quick_find.Dict.{Dict}
use quick_find.Query.Matches.{Engine, Matchers, matches}
use quick_find.Query.Matches.Criteria.{Satisfies, matches-Satisfies}

abbrev a_or_b : BooleanExpression
a_or_b = disj (cons (term (codes "a")) (cons (term (codes "b")) nil))

abbrev expression : BooleanExpression
expression = conj (cons a_or_b (cons (neg (term (codes "c"))) nil))

parse_boolean_expression-ne-none_example :
    parse_boolean_expression (codes "(" ∷ codes "!" ∷ codes "a" ∷ []) ≢ none
parse_boolean_expression-ne-none_example =
    parse_boolean_expression-ne-none (codes "(" ∷ codes "!" ∷ codes "a" ∷ [])

proper : IsProper expression
unfolding kind
proper = (omega arith, ((omega arith, (refl, (refl, tt))), (refl, tt)))

operators : has_operator (emit alone expression) ≡ true
unfolding has_operator emit
operators = refl

parse_boolean_expression-emit_example :
    parse_boolean_expression (emit alone expression) ≡ some (some expression)
parse_boolean_expression-emit_example = parse_boolean_expression-emit expression proper operators

parse_boolean_expression-unmatched_example :
    parse_boolean_expression (emit alone expression ++ codes ")" ∷ codes "d" ∷ [])
    ≡ some (some expression)
parse_boolean_expression-unmatched_example =
    parse_boolean_expression-unmatched expression (codes "d" ∷ []) proper

abbrev within : Text → Text → Bool
within t text = contains t text

extracted : legacy_boolean_fields (some a_or_b) ≡ ([], [], (codes "a" ∷ codes "b" ∷ []) ∷ [])
unfolding legacy_boolean_fields extend_group or_fields
extracted = refl

fields : legacy_boolean_fields (some a_or_b) ≢ ([], [], [])
fields h = cc (h, extracted)

legacy_boolean_fields-meets_example :
    meets within (codes "bar") (legacy_boolean_fields (some a_or_b))
    ≡ compile_boolean_node within a_or_b (codes "bar")
legacy_boolean_fields-meets_example = legacy_boolean_fields-meets within (codes "bar") a_or_b fields

fuzzy_match_iff_example :
    (fuzzy_match (codes "report") (codes "rpt") ≡ true)
    ↔ IsSubsequence (codes "rpt") (codes "report")
fuzzy_match_iff_example = fuzzy_match_iff (codes "report") (codes "rpt")

abbrev pub engine : Engine
engine = record {
  unicode = ascii;
  resolve = λ drive frn. codes "C:\\report.txt";
  stat = λ path. none;
  exists = λ path. true;
  lexists = λ path. true;
  islink = λ path. false;
  readlink = λ path. none;
  isabs = λ path. true;
  join = λ a b. b;
  dirname = λ path. path;
  expandvars = λ text. text;
  shortcut_target_path = λ path. path;
  is_in_dirty_git_repo = λ path. false;
  plugin_match = λ name. none;
  content_search = λ path text match_case. false;
}

abbrev options : SearchOptions
options = record {
  match_case = false;
  case_mode = smart;
  match_whole_word = false;
  match_whole_filename = false;
  match_path = false;
  use_regex = false;
  use_wildcards = false;
  use_fuzzy = false;
  files_only = true;
  folders_only = false;
  max_results = 100;
  sort_by = by_name;
  sort_order = ascending;
}

abbrev pub query : ParsedQuery
query = record {
  terms = codes "report" ∷ [];
  options = options;
  ext_filter = codes "txt" ∷ [];
  size_min = pos 5;
  size_max = pos 0;
  date_mod_after = none;
  date_mod_before = none;
  date_create_after = none;
  date_create_before = none;
  path_includes = [];
  parent_filter = [];
  name_len_min = pos 0;
  name_len_max = pos 0;
  attrib_include = 0;
  content_search = [];
  dupe_mode = false;
  dupe_hash_mode = false;
  broken_link_mode = false;
  broken_shortcut_mode = false;
  git_dirty_mode = false;
  archive_mode = false;
  custom_modifiers = [];
  boolean_expression = none;
  or_groups = [];
  exclude_terms = [];
}

abbrev matchers : Matchers
matchers = record {
  terms = (λ text. contains (codes "report") text) ∷ [];
  excludes = [];
  or_groups = [];
  boolean = none;
}

abbrev pub report : FileEntry
report = record {
  frn = 20;
  parent_frn = 5;
  name = codes "report.txt";
  drive = codes "C";
  attributes = 0x20;
  size = 9;
  date_modified = none;
  date_created = none;
  reparse_tag = 0;
  has_extended_attributes = false;
  content_snippet = [];
  content_rank = 0;
  path = none;
  stat_loaded = false;
}

matches-Satisfies_example :
    ((matches engine query matchers [] report).0 ≡ true) ↔ Satisfies engine query matchers [] report
matches-Satisfies_example = matches-Satisfies engine query matchers [] report

abbrev synonyms : Dict Text (List Text)
synonyms = (codes "car", codes "vehicle" ∷ codes "automobile" ∷ []) ∷ []

abbrev meets_vehicle : Text → Bool
meets_vehicle t = contains t (codes "red vehicle")

expand_query_terms-meets_example :
    expanded_meets meets_vehicle
      (expand_query_terms ascii (codes "Car" ∷ codes "red" ∷ []) synonyms)
    ≡ all
        (λ t. any meets_vehicle (t ∷ synonyms_of ascii synonyms t))
        (codes "Car" ∷ codes "red" ∷ [])
expand_query_terms-meets_example =
    expand_query_terms-meets ascii meets_vehicle synonyms (codes "Car" ∷ codes "red" ∷ [])

find_duplicates-keep_example :
    members (find_duplicates ascii (report ∷ report ∷ [])) (codes "report.txt")
    ≡ at_least_two (keep (is_named ascii (codes "report.txt")) (report ∷ report ∷ []))
find_duplicates-keep_example =
    find_duplicates-keep ascii (report ∷ report ∷ []) (codes "report.txt")
