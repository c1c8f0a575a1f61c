-- ===== src/Query/Parse/Modifiers.antt =====
-- core/search.py, `parse_query`: what a modifier does to the query. An exception is none.
use quick_find.Prelude.{
  ℕ, suc, zero, ℤ, pos, negsuc, Bool, true, false, ◌||◌, List, [], ◌∷◌, ◌++◌, Option, none, some,
  if◌then◌else◌, drop, ◌==◌,
}
use quick_find.Text.{Text, Unicode, codes, text_eq, strip}
use quick_find.Dict.{get, put, remove, text_key}
use quick_find.Query.Options.{ParsedQuery, SearchOptions}
use quick_find.Query.Parse.{is_blank, split_once}
use quick_find.Query.Parse.Values.{
  Reading, parse_size, parse_date, parse_date_range, with_attributes,
}

-- The branches of the chain on `mod_lower`.
pub data Modifier : Type 0 where
  case_on case_off regex_on regex_off wildcards_on wildcards_off fuzzy_on fuzzy_off whole_word_on
        whole_word_off whole_filename_on whole_filename_off path_on path_off files_only folders_only
        ext size date_modified date_created parent len attrib content dupe broken git archive :
      Modifier

abbrev pub builtin_modifiers : List (Text × Modifier)
builtin_modifiers =
    (codes "case", case_on)
    ∷ (codes "matchcase", case_on)
    ∷ (codes "nocase", case_off)
    ∷ (codes "nomatchcase", case_off)
    ∷ (codes "regex", regex_on)
    ∷ (codes "noregex", regex_off)
    ∷ (codes "wildcards", wildcards_on)
    ∷ (codes "wc", wildcards_on)
    ∷ (codes "nowildcards", wildcards_off)
    ∷ (codes "fuzzy", fuzzy_on)
    ∷ (codes "nofuzzy", fuzzy_off)
    ∷ (codes "wholeword", whole_word_on)
    ∷ (codes "ww", whole_word_on)
    ∷ (codes "nowholeword", whole_word_off)
    ∷ (codes "wholefilename", whole_filename_on)
    ∷ (codes "wfn", whole_filename_on)
    ∷ (codes "nowholefilename", whole_filename_off)
    ∷ (codes "path", path_on)
    ∷ (codes "nopath", path_off)
    ∷ (codes "file", files_only)
    ∷ (codes "folder", folders_only)
    ∷ (codes "dir", folders_only)
    ∷ (codes "ext", ext)
    ∷ (codes "size", size)
    ∷ (codes "dm", date_modified)
    ∷ (codes "datemodified", date_modified)
    ∷ (codes "dc", date_created)
    ∷ (codes "datecreated", date_created)
    ∷ (codes "parent", parent)
    ∷ (codes "len", len)
    ∷ (codes "attrib", attrib)
    ∷ (codes "attributes", attrib)
    ∷ (codes "content", content)
    ∷ (codes "dupe", dupe)
    ∷ (codes "duplicate", dupe)
    ∷ (codes "broken", broken)
    ∷ (codes "git", git)
    ∷ (codes "archive", archive)
    ∷ []

unfoldable pub modifier_of : List (Text × Modifier) → Text → Option Modifier
unfolding text_eq
modifier_of [] name = none
modifier_of ((n, m) ∷ rest) name =
    let later = modifier_of rest name in if text_eq n name then some m else later

-- The query so far, whether its case was set, and the terms.
pub record Parsing : Type 0 where
  pub query : ParsedQuery
  pub case_explicit : Bool
  pub remaining : List Text

abbrev pub with_options : (SearchOptions → SearchOptions) → Parsing → Parsing
with_options f s = record s { query = record s.query { options = f s.query.options } }

-- `if val: remaining_terms.append(val)`.
abbrev pub append_value : Text → Parsing → Parsing
append_value [] s = s
append_value (c ∷ v) s = record s { remaining = s.remaining ++ ((c ∷ v) ∷ []) }

abbrev pub plus_one : ℤ → ℤ
plus_one (pos n) = pos (suc n)
plus_one (negsuc zero) = pos 0
plus_one (negsuc (suc n)) = negsuc n

abbrev pub minus_one : ℤ → ℤ
minus_one (pos zero) = negsuc 0
minus_one (pos (suc n)) = pos n
minus_one (negsuc n) = negsuc (suc n)

-- `val.split(c)` for a character: what stands before the first, and the pieces behind it.
unfoldable pub pieces : ℕ → Text → Text × List Text
pieces sep [] = ([], [])
pieces sep (c ∷ s) =
    let rest = pieces sep s in if c == sep then ([], rest.0 ∷ rest.1) else (c ∷ rest.0, rest.1)

-- `e.strip().lstrip('.').lower()` of each piece, but for those that are empty.
unfoldable pub strip_dots : Text → Text
strip_dots [] = []
strip_dots (c ∷ s) = let rest = strip_dots s in if c == b'.' then rest else c ∷ s

unfoldable pub extensions_of : Unicode → List Text → List Text
unfolding strip strip_dots
extensions_of u [] = []
extensions_of u (e ∷ es) =
    let rest = extensions_of u es in
    let cleaned = u.lower (strip_dots (strip e)) in
    if is_blank cleaned then rest else cleaned ∷ rest

-- What a plugin's `parse` gives, and what the terms of it are.
pub data PluginResult : Type 0 where
  nothing : PluginResult
  string : (s : Text) → PluginResult
  iterable : (items : List Text) → PluginResult
  other : (s : Text) → PluginResult

unfoldable pub non_empty : List Text → List Text
non_empty [] = []
non_empty (t ∷ ts) = let rest = non_empty ts in if is_blank t then rest else t ∷ rest

unfoldable pub terms_from_plugin_parse_result : PluginResult → List Text
unfolding non_empty
terms_from_plugin_parse_result nothing = []
terms_from_plugin_parse_result (string s) = non_empty (s ∷ [])
terms_from_plugin_parse_result (iterable items) = non_empty items
terms_from_plugin_parse_result (other s) = non_empty (s ∷ [])

-- A plugin's parser may change the query; its result is none where it raises.
pub record Plugin : Type 0 where
  pub canonical_name : Text
  pub parse : Option (Text → ParsedQuery → ParsedQuery × Option PluginResult)

-- `values.pop()`.
unfoldable pub without_last : List Text → List Text
without_last [] = []
without_last (v ∷ []) = []
without_last (v ∷ w ∷ vs) = v ∷ without_last (w ∷ vs)

unfoldable pub pop_value : Text → ParsedQuery → ParsedQuery
unfolding get put remove without_last
pop_value name q = elim (get q.custom_modifiers name) [
  | none ↦ q
  | some values ↦
      let left = without_last values in
      record q {
        custom_modifiers = elim left [
          | [] ↦ remove q.custom_modifiers name
          | v ∷ vs ↦ put q.custom_modifiers name (v ∷ vs)
        ];
      }
]

unfoldable pub add_value : Text → Text → ParsedQuery → ParsedQuery
unfolding get put
add_value name val q = record q {
  custom_modifiers =
      put q.custom_modifiers name (elim (get q.custom_modifiers name) [
        | none ↦ val ∷ []
        | some values ↦ values ++ (val ∷ [])
      ]);
}

unfoldable pub plugin_outcome : Text → Text → Parsing → ParsedQuery × Option PluginResult → Parsing
unfolding terms_from_plugin_parse_result pop_value
plugin_outcome name token s (q, some result) = record s {
  query = q;
  remaining = s.remaining ++ terms_from_plugin_parse_result result;
}
plugin_outcome name token s (q, none) = record s {
  query = pop_value name q;
  remaining = s.remaining ++ (token ∷ []);
}

unfoldable pub apply_plugin : Plugin → Text → Text → Parsing → Parsing
unfolding add_value plugin_outcome
apply_plugin plugin token val s =
    let q = add_value plugin.canonical_name val s.query in
    elim plugin.parse [
      | none ↦ record s { query = q }
      | some parse ↦ plugin_outcome plugin.canonical_name token s (parse val q)
    ]

module _ (rd : Reading) where
  abbrev pub first_is : ℕ → Text → Bool
  first_is c [] = false
  first_is c (d ∷ s) = d == c

  abbrev pub size_range : ParsedQuery → Option ℤ → Option ℤ → Option ParsedQuery
  size_range q (some lo) (some hi) = some (record q { size_min = lo; size_max = hi })
  size_range q none hi = none
  size_range q (some lo) none = none

  unfoldable pub with_size : Text → ParsedQuery → Option ParsedQuery
  unfolding split_once parse_size
  with_size val q = if is_blank val then some q else elim (split_once (codes "..") val) [
    | some parts ↦ size_range q (parse_size rd parts.0) (parse_size rd parts.1)
    | none ↦
        if first_is b'>' val
        then elim (parse_size rd (drop 1 val)) [
          | none ↦ none
          | some z ↦ some (record q { size_min = z })
        ]
        else if first_is b'<' val
        then elim (parse_size rd (drop 1 val)) [
          | none ↦ none
          | some z ↦ some (record q { size_max = z })
        ]
        else size_range q (parse_size rd val) (parse_size rd val)
  ]

  -- `before` is assigned only if there is one.
  abbrev pub or_else : Option ℕ → Option ℕ → Option ℕ
  or_else none default = default
  or_else (some d) default = some d

  -- What a date modifier gives the two limits that are `after` and `before` so far.
  unfoldable pub date_limits : Text → Option ℕ → Option ℕ → Option (Option ℕ × Option ℕ)
  unfolding parse_date parse_date_range
  date_limits val after before =
      if first_is b'>' val
      then elim (parse_date rd (drop 1 val)) [ none ↦ none | some d ↦ some (d, before) ]
      else if first_is b'<' val
      then elim (parse_date rd (drop 1 val)) [ none ↦ none | some d ↦ some (after, d) ]
      else elim (parse_date_range rd val) [ none ↦ none | some r ↦ some (r.0, or_else r.1 before) ]

  abbrev pub int_or_zero : Text → Option ℤ
  int_or_zero [] = some (pos 0)
  int_or_zero (c ∷ s) = rd.int (c ∷ s)

  abbrev pub set_len_min : Option ℤ → ParsedQuery → ParsedQuery
  set_len_min none q = q
  set_len_min (some z) q = record q { name_len_min = z }

  abbrev pub set_len_max : Option ℤ → ParsedQuery → ParsedQuery
  set_len_max none q = q
  set_len_max (some z) q = record q { name_len_max = z }

  -- The second number is read only if the first was, which stays assigned if the second is none.
  abbrev pub set_len_range : Option ℤ → Option ℤ → ParsedQuery → ParsedQuery
  set_len_range none hi q = q
  set_len_range (some lo) hi q = set_len_max hi (record q { name_len_min = lo })

  abbrev pub shifted : (ℤ → ℤ) → Option ℤ → Option ℤ
  shifted f none = none
  shifted f (some z) = some (f z)

  unfoldable pub with_len : Text → ParsedQuery → ParsedQuery
  unfolding split_once
  with_len val q = elim (split_once (codes "..") val) [
    | some parts ↦ set_len_range (int_or_zero parts.0) (int_or_zero parts.1) q
    | none ↦
        if first_is b'>' val
        then set_len_min (shifted plus_one (rd.int (drop 1 val))) q
        else if first_is b'<' val
        then set_len_max (shifted minus_one (rd.int (drop 1 val))) q
        else set_len_range (rd.int val) (rd.int val) q
  ]

  unfoldable pub with_broken : Text → ParsedQuery → ParsedQuery
  unfolding text_eq
  with_broken kind q =
      if text_eq kind (codes "link") || text_eq kind (codes "links")
      then record q { broken_link_mode = true }
      else if text_eq kind (codes "shortcut") || text_eq kind (codes "shortcuts")
      then record q { broken_shortcut_mode = true }
      else if is_blank kind
      then record q { broken_link_mode = true; broken_shortcut_mode = true }
      else q

  -- The modifiers that set options.
  unfoldable pub apply_option : Modifier → Text → Parsing → Parsing
  apply_option case_on val s = record (with_options (λ o. record o { match_case = true }) s) {
    case_explicit = true;
  }
  apply_option case_off val s = record (with_options (λ o. record o { match_case = false }) s) {
    case_explicit = true;
  }
  apply_option regex_on val s =
      append_value val (with_options (λ o. record o { use_regex = true }) s)
  apply_option regex_off val s = with_options (λ o. record o { use_regex = false }) s
  apply_option wildcards_on val s =
      append_value val (with_options (λ o. record o { use_wildcards = true }) s)
  apply_option wildcards_off val s = with_options (λ o. record o { use_wildcards = false }) s
  apply_option fuzzy_on val s =
      append_value val (with_options (λ o. record o { use_fuzzy = true }) s)
  apply_option fuzzy_off val s = with_options (λ o. record o { use_fuzzy = false }) s
  apply_option whole_word_on val s = with_options (λ o. record o { match_whole_word = true }) s
  apply_option whole_word_off val s = with_options (λ o. record o { match_whole_word = false }) s
  apply_option whole_filename_on val s =
      append_value val (with_options (λ o. record o { match_whole_filename = true }) s)
  apply_option whole_filename_off val s =
      with_options (λ o. record o { match_whole_filename = false }) s
  apply_option path_on val s =
      let marked = with_options (λ o. record o { match_path = true }) s in
      if is_blank val then marked else record marked {
        query = record marked.query { path_includes = s.query.path_includes ++ (val ∷ []) };
      }
  apply_option path_off val s = with_options (λ o. record o { match_path = false }) s
  apply_option files_only val s =
      append_value val (with_options (λ o. record o { files_only = true; folders_only = false }) s)
  apply_option folders_only val s =
      append_value val (with_options (λ o. record o { folders_only = true; files_only = false }) s)
  apply_option archive val s =
      append_value val (record s { query = record s.query { archive_mode = true } })
  apply_option _ val s = s

  abbrev pub with_query : Parsing → Option ParsedQuery → Option Parsing
  with_query s none = none
  with_query s (some q) = some (record s { query = q })

  unfoldable pub apply_modifier : Modifier → Text → Parsing → Option Parsing
  unfolding apply_option extensions_of pieces with_size date_limits with_len with_attributes
      with_broken text_eq
  apply_modifier ext val s =
      let found = pieces b';' val in
      with_query s (
        some (record s.query {
          ext_filter = s.query.ext_filter ++ extensions_of rd.unicode (found.0 ∷ found.1);
        }))
  apply_modifier size val s = with_query s (with_size val s.query)
  apply_modifier date_modified val s =
      elim (date_limits val s.query.date_mod_after s.query.date_mod_before) [
        | none ↦ none
        | some l ↦
            with_query s (some (record s.query { date_mod_after = l.0; date_mod_before = l.1 }))
      ]
  apply_modifier date_created val s =
      elim (date_limits val s.query.date_create_after s.query.date_create_before) [
        | none ↦ none
        | some l ↦
            with_query s
              (some (record s.query { date_create_after = l.0; date_create_before = l.1 }))
      ]
  apply_modifier parent val s = with_query s (some (record s.query { parent_filter = val }))
  apply_modifier len val s = with_query s (some (with_len val s.query))
  apply_modifier attrib val s = with_query s (
      some (record s.query {
        attrib_include = with_attributes s.query.attrib_include (rd.unicode.lower val);
      }))
  apply_modifier content val s = with_query s (some (record s.query { content_search = val }))
  apply_modifier dupe val s = with_query s (
      some (record s.query {
        dupe_mode = true;
        dupe_hash_mode = text_eq (rd.unicode.lower val) (codes "hash");
      }))
  apply_modifier broken val s = with_query s (some (with_broken (rd.unicode.lower val) s.query))
  apply_modifier git val s =
      with_query s
        (some (record s.query { git_dirty_mode = text_eq (rd.unicode.lower val) (codes "dirty") }))
  apply_modifier m val s = some (apply_option m val s)
