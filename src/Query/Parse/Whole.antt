-- ===== src/Query/Parse/Whole.antt =====
-- core/search.py, `parse_query`: the loop over the tokens and what follows it.
use quick_find.Prelude.{
  pos, Bool, true, false, not, ◌&&◌, ◌||◌, List, [], ◌∷◌, ◌++◌, Option, none, some, if◌then◌else◌,
  any, map,
}
use quick_find.Text.{Text, codes, strip}
use quick_find.Dict.{Dict, get, text_key}
use quick_find.Query.Options.{
  ParsedQuery, SearchOptions, CaseMode, smart, insensitive, sensitive, by_date_modified, descending,
}
use quick_find.Query.Boolean.{
  BooleanExpression, term, conj, disj, neg, Exprs, nil, cons, parse_boolean_expression,
}
use quick_find.Query.Boolean.Legacy.{legacy_boolean_fields}
use quick_find.Query.Matcher.{has_wildcard}
use quick_find.Query.Parse.{
  is_blank, split_words, split_once, Quoting, unquoted, restore, tokenize_boolean_terms,
}
use quick_find.Query.Parse.Values.{Reading}
use quick_find.Query.Parse.Modifiers.{
  Modifier, builtin_modifiers, modifier_of, Parsing, Plugin, apply_plugin, apply_modifier,
}

-- `SearchOptions()` and `ParsedQuery()`.
abbrev pub default_options : SearchOptions
default_options = record {
  match_case = false;
  case_mode = smart;
  match_whole_word = false;
  match_whole_filename = false;
  match_path = false;
  use_regex = false;
  use_wildcards = false;
  use_fuzzy = false;
  files_only = false;
  folders_only = false;
  max_results = 0;
  sort_by = by_date_modified;
  sort_order = descending;
}

abbrev pub empty_query : SearchOptions → ParsedQuery
empty_query o = record {
  terms = [];
  options = o;
  ext_filter = [];
  size_min = pos 0;
  size_max = pos 0;
  date_mod_after = none;
  date_mod_before = none;
  date_create_after = none;
  date_create_before = none;
  path_includes = [];
  parent_filter = [];
  name_len_min = pos 0;
  name_len_max = pos 0;
  attrib_include = 0;
  content_search = [];
  dupe_mode = false;
  dupe_hash_mode = false;
  broken_link_mode = false;
  broken_shortcut_mode = false;
  git_dirty_mode = false;
  archive_mode = false;
  custom_modifiers = [];
  boolean_expression = none;
  or_groups = [];
  exclude_terms = [];
}

-- `_boolean_expression_terms`.
unfoldable mutual
  pub expression_terms : BooleanExpression → List Text
  expression_terms (term t) = t ∷ []
  expression_terms (conj es) = all_terms es
  expression_terms (disj es) = all_terms es
  expression_terms (neg e) = expression_terms e

  pub all_terms : Exprs → List Text
  all_terms nil = []
  all_terms (cons e es) = expression_terms e ++ all_terms es

abbrev pub terms_of_expression : Option BooleanExpression → List Text
terms_of_expression none = []
terms_of_expression (some e) = expression_terms e

abbrev pub joined : List (List Text) → List Text
joined [] = []
joined (g ∷ gs) = g ++ joined gs

module _ (qu : Quoting) (rd : Reading) (plugins : Dict Text Plugin) where
  abbrev pub append_token : Text → Parsing → Parsing
  append_token token s = record s { remaining = s.remaining ++ (token ∷ []) }

  unfoldable pub custom_modifier : Text → Text → Option Plugin → Parsing → Parsing
  unfolding apply_plugin
  custom_modifier token val none s = append_token token s
  custom_modifier token val (some plugin) s = apply_plugin plugin token val s

  unfoldable pub modify : Text → Text → Text → Option Modifier → Parsing → Option Parsing
  unfolding apply_modifier custom_modifier get
  modify token name val (some m) s = apply_modifier rd m val s
  modify token name val none s = some (custom_modifier token val (get plugins name) s)

  -- One round of the loop, for the parts of the token around its first colon.
  unfoldable pub token_step : List Text → Text → Option (Text × Text) → Parsing → Option Parsing
  unfolding modify modifier_of restore
  token_step parts token none s = some (append_token token s)
  token_step parts token (some (mod_name, val)) s =
      modify token (rd.unicode.lower mod_name) (restore qu 0 parts val)
        (modifier_of builtin_modifiers (rd.unicode.lower mod_name)) s

  unfoldable pub token_loop : List Text → List Text → Option Parsing → Option Parsing
  unfolding token_step split_once
  token_loop parts tokens none = none
  token_loop parts [] (some s) = some s
  token_loop parts (token ∷ tokens) (some s) =
      token_loop parts tokens (token_step parts token (split_once (codes ":") token) s)

  -- The terms, from the Boolean expression if there is one.
  unfoldable pub with_expression : List Text → Parsing → Option BooleanExpression → Parsing
  unfolding legacy_boolean_fields restore
  with_expression parts s none = record s {
    query = record s.query { terms = map (restore qu 0 parts) s.remaining };
  }
  with_expression parts s (some e) =
      let fields = legacy_boolean_fields (some e) in
      record s {
        query = record s.query {
          boolean_expression = some e;
          terms = fields.0;
          exclude_terms = fields.1;
          or_groups = fields.2;
        };
      }

  unfoldable pub with_wildcards : ParsedQuery → ParsedQuery
  unfolding has_wildcard
  with_wildcards q =
      if not q.options.use_regex && any has_wildcard q.terms
      then record q { options = record q.options { use_wildcards = true } }
      else q

  unfoldable pub smart_case : ParsedQuery → Bool
  unfolding expression_terms
  smart_case q =
      q.options.match_case
      || any (any rd.unicode.is_upper)
          (q.terms ++ (joined q.or_groups ++ terms_of_expression q.boolean_expression))

  unfoldable pub case_of : CaseMode → ParsedQuery → Bool
  unfolding smart_case
  case_of sensitive q = true
  case_of insensitive q = false
  case_of smart q = smart_case q

  unfoldable pub with_case : Bool → ParsedQuery → ParsedQuery
  unfolding case_of
  with_case explicit q =
      if explicit
      then q
      else record q { options = record q.options { match_case = case_of q.options.case_mode q } }

  unfoldable pub parsed_query : List Text → Parsing → Option ParsedQuery
  unfolding tokenize_boolean_terms parse_boolean_expression with_expression with_wildcards with_case
  parsed_query parts s = elim (tokenize_boolean_terms qu s.remaining parts) [
    | none ↦ none
    | some tokens ↦ elim (parse_boolean_expression tokens) [
      | none ↦ none
      | some expression ↦
          some
            (with_case s.case_explicit (with_wildcards (with_expression parts s expression).query))
    ]
  ]

  abbrev pub parsed_loop : List Text → Option Parsing → Option ParsedQuery
  parsed_loop parts none = none
  parsed_loop parts (some s) = parsed_query parts s

  -- `raw_query` is what `expand_query_slots` gives where there are slots.
  unfoldable pub parse_query : Text → Option SearchOptions → Option ParsedQuery
  unfolding strip unquoted split_words token_loop parsed_query
  parse_query raw_query base_options =
      let options : SearchOptions = elim base_options [ some o ↦ o | none ↦ default_options ] in
      let query = unquoted qu 0 (strip raw_query) in
      if is_blank (strip raw_query)
      then some (empty_query options)
      else parsed_loop query.1 (
          token_loop query.1 (split_words query.0)
            (some (record { query = empty_query options; case_explicit = false; remaining = [] })))
