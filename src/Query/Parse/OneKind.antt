-- ===== src/Query/Parse/OneKind.antt =====
-- core/search.py, `parse_query`: a query does not ask for files only and for folders only at once.
use quick_find.Prelude.{
  some_eq, ◌≡◌, refl, subst, Bool, true, false, List, [], ◌∷◌, Option, none, some, if◌then◌else◌,
  arith, All,
}
use quick_find.Text.{Text, codes, text_eq, strip}
use quick_find.Dict.{Dict, get, text_key}
use quick_find.Query.Options.{ParsedQuery, SearchOptions}
use quick_find.Query.Boolean.{BooleanExpression, parse_boolean_expression}
use quick_find.Query.Parse.{
  is_blank, Quoting, restore, unquoted, split_words, split_once, tokenize_boolean_terms,
}
use quick_find.Query.Parse.Values.{Reading}
use quick_find.Query.Parse.Modifiers.{Modifier, builtin_modifiers, modifier_of, Parsing, Plugin}
use quick_find.Query.Parse.Whole.{
  default_options, empty_query, custom_modifier, modify, token_step, token_loop, with_expression,
  with_wildcards, with_case, parsed_query, parsed_loop, parse_query,
}
use quick_find.Query.Parse.Kinds.{
  one_kind, IsOneKind, Ok, apply_modifier-Ok, apply_plugin-IsOneKind, KeepsKinds,
}

module _ (qu : Quoting) (rd : Reading) (plugins : Dict Text Plugin)
    (keep : All (λ entry. KeepsKinds entry.1) plugins) where
  found-KeepsKinds :
      (d : Dict Text Plugin) (name : Text) (plugin : Plugin)
      → All (λ entry. KeepsKinds entry.1) d
      → get d name ≡ some plugin
      → KeepsKinds plugin
  unfolding get
  found-KeepsKinds [] name plugin all_keep e = ground (arith, e)
  found-KeepsKinds ((n, p) ∷ d) name plugin (k, ks) e =
      from (text_eq n name) (λ q. found-KeepsKinds d name plugin ks q) e
    where
      from :
          (b : Bool)
          → (get d name ≡ some plugin → KeepsKinds plugin)
          → (if b then some p else get d name) ≡ some plugin
          → KeepsKinds plugin
      from true later q = subst KeepsKinds (some_eq q) k
      from false later q = later q

  custom_modifier-IsOneKind :
      (token val : Text) (o : Option Plugin) (s : Parsing)
      → ((plugin : Plugin) → o ≡ some plugin → KeepsKinds plugin)
      → IsOneKind s
      → IsOneKind (custom_modifier qu rd plugins token val o s)
  unfolding custom_modifier
  custom_modifier-IsOneKind token val none s k h = h
  custom_modifier-IsOneKind token val (some plugin) s k h =
      apply_plugin-IsOneKind plugin token val s (k plugin refl) h

  modify-Ok :
      (token name val : Text) (m : Option Modifier) (s : Parsing)
      → IsOneKind s
      → Ok rd (modify qu rd plugins token name val m s)
  unfolding modify
  modify-Ok token name val (some m) s h = apply_modifier-Ok rd m val s h
  modify-Ok token name val none s h =
      custom_modifier-IsOneKind token val (get plugins name) s
        (λ plugin e. found-KeepsKinds plugins name plugin keep e) h

  token_step-Ok :
      (parts : List Text) (token : Text) (o : Option (Text × Text)) (s : Parsing)
      → IsOneKind s
      → Ok rd (token_step qu rd plugins parts token o s)
  unfolding token_step
  token_step-Ok parts token none s h = h
  token_step-Ok parts token (some (mod_name, val)) s h =
      modify-Ok token (rd.unicode.lower mod_name) (restore qu 0 parts val)
        (modifier_of builtin_modifiers (rd.unicode.lower mod_name)) s h

  token_loop-Ok :
      (parts tokens : List Text) (o : Option Parsing)
      → Ok rd o
      → Ok rd (token_loop qu rd plugins parts tokens o)
  unfolding token_loop
  token_loop-Ok parts [] none h = tt
  token_loop-Ok parts (token ∷ tokens) none h = tt
  token_loop-Ok parts [] (some s) h = h
  token_loop-Ok parts (token ∷ tokens) (some s) h =
      token_loop-Ok parts tokens _ (token_step-Ok parts token (split_once (codes ":") token) s h)

  with_expression-IsOneKind :
      (parts : List Text) (s : Parsing) (o : Option BooleanExpression)
      → IsOneKind s
      → IsOneKind (with_expression qu rd plugins parts s o)
  unfolding with_expression
  with_expression-IsOneKind parts s none h = h
  with_expression-IsOneKind parts s (some e) h = h

  OkQuery : Option ParsedQuery → Type 0
  OkQuery none = Unit
  OkQuery (some q) = one_kind q.options ≡ true

  ended_kinds :
      (explicit : Bool) (q : ParsedQuery)
      → one_kind q.options ≡ true
      → one_kind (with_case qu rd plugins explicit (with_wildcards qu rd plugins q)).options ≡ true
  unfolding with_case with_wildcards
  ended_kinds explicit q h = ground (arith, h)

  parsed_query-OkQuery :
      (parts : List Text) (s : Parsing) → IsOneKind s → OkQuery (parsed_query qu rd plugins parts s)
  unfolding parsed_query OkQuery
  parsed_query-OkQuery parts s h = from (tokenize_boolean_terms qu s.remaining parts)
    where
      parsed :
          (o : Option (Option BooleanExpression))
          → OkQuery (elim o as (λ _. Option ParsedQuery) [
            | none ↦ none
            | some expression ↦ some (
                with_case qu rd plugins s.case_explicit (
                  with_wildcards qu rd plugins
                    (with_expression qu rd plugins parts s expression).query))
          ])
      parsed none = tt
      parsed (some expression) =
          ended_kinds s.case_explicit (with_expression qu rd plugins parts s expression).query
            (with_expression-IsOneKind parts s expression h)

      from :
          (o : Option (List Text))
          → OkQuery (elim o as (λ _. Option ParsedQuery) [
            | none ↦ none
            | some tokens ↦ elim (parse_boolean_expression tokens) as (λ _. Option ParsedQuery) [
              | none ↦ none
              | some expression ↦ some (
                  with_case qu rd plugins s.case_explicit (
                    with_wildcards qu rd plugins
                      (with_expression qu rd plugins parts s expression).query))
            ]
          ])
      from none = tt
      from (some tokens) = parsed (parse_boolean_expression tokens)

  parsed_loop-OkQuery :
      (parts : List Text) (o : Option Parsing)
      → Ok rd o
      → OkQuery (parsed_loop qu rd plugins parts o)
  unfolding OkQuery
  parsed_loop-OkQuery parts none h = tt
  parsed_loop-OkQuery parts (some s) h = parsed_query-OkQuery parts s h

  abbrev pub options_of : Option SearchOptions → SearchOptions
  options_of none = default_options
  options_of (some o) = o

  parse_query-OkQuery :
      (raw_query : Text) (base_options : Option SearchOptions)
      → one_kind (options_of base_options) ≡ true
      → OkQuery (parse_query qu rd plugins raw_query base_options)
  unfolding parse_query OkQuery
  parse_query-OkQuery raw_query base_options h = either (is_blank (strip raw_query))
    where
      begun : Parsing
      begun = record {
        query = empty_query (options_of base_options);
        case_explicit = false;
        remaining = [];
      }

      either :
          (b : Bool)
          → OkQuery (
              if b
              then some (empty_query (options_of base_options))
              else parsed_loop qu rd plugins (unquoted qu 0 (strip raw_query)).1 (
                  token_loop qu rd plugins
                    (unquoted qu 0 (strip raw_query)).1
                    (split_words (unquoted qu 0 (strip raw_query)).0)
                    (some begun)))
      either true = h
      either false =
          parsed_loop-OkQuery (unquoted qu 0 (strip raw_query)).1
            (token_loop qu rd plugins (unquoted qu 0 (strip raw_query)).1
              (split_words (unquoted qu 0 (strip raw_query)).0) (some begun))
            (token_loop-Ok (unquoted qu 0 (strip raw_query)).1
              (split_words (unquoted qu 0 (strip raw_query)).0) (some begun) h)

  -- If the options that a query starts from do not ask for files only and for folders only at once,
  -- and no plugin makes a query do so, then neither does any query that is parsed.
  pub parse_query-one_kind :
      (raw_query : Text) (base_options : Option SearchOptions) (q : ParsedQuery)
      → one_kind (options_of base_options) ≡ true
      → parse_query qu rd plugins raw_query base_options ≡ some q
      → one_kind q.options ≡ true
  unfolding OkQuery
  parse_query-one_kind raw_query base_options q h e =
      subst (λ o. OkQuery o) e (parse_query-OkQuery raw_query base_options h)
