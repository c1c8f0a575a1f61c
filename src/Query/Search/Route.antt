-- ===== src/Query/Search/Route.antt =====
-- core/search.py, `search`: the filter in use, the synonyms, and which of the database and the
-- memory answers. `db_search` is that of core/cache.py, none where it raises.
use quick_find.Prelude.{
  ℕ, Bool, true, false, not, ◌&&◌, ◌||◌, List, [], ◌∷◌, ◌++◌, Option, none, some, if◌then◌else◌,
  length, keep, any, truthy, ltb, ℤ, pos, is_set, map,
}
use quick_find.Text.{Text, Unicode}
use quick_find.Dict.{Dict}
use quick_find.Index.{FileEntry}
use quick_find.Query.Options.{
  ParsedQuery, SearchOptions, SortField, by_name, by_path, by_size, by_date_modified,
  by_date_created, by_extension, by_attributes, by_relevance, ascending, descending,
}
use quick_find.Query.Filters.{SearchFilter}
use quick_find.Query.Matcher.{compile_exclude_matchers}
use quick_find.Query.Matches.{is_empty}
use quick_find.Query.Synonyms.{expand_query_terms}
use quick_find.Query.Search.{Searching, memory_search}

-- The columns of the database that results are sorted by.
pub data Column : Type 0 where
  name_column path_column size_column modified_column created_column attributes_column : Column

unfoldable pub sort_column : SortField → Column
sort_column by_name = name_column
sort_column by_path = path_column
sort_column by_size = size_column
sort_column by_date_modified = modified_column
sort_column by_date_created = created_column
sort_column by_extension = name_column
sort_column by_attributes = attributes_column
sort_column by_relevance = modified_column

-- The arguments of `db_search`. An empty list stands for `None`, as there; dates are milliseconds.
pub record Request : Type 0 where
  pub query : Text
  pub match_path : Bool
  pub extensions : List Text
  pub files_only : Bool
  pub folders_only : Bool
  pub size_min : ℤ
  pub size_max : ℤ
  pub date_mod_after_ms : ℕ
  pub date_mod_before_ms : ℕ
  pub date_create_after_ms : ℕ
  pub date_create_before_ms : ℕ
  pub exclude_paths : List Text
  pub limit : ℕ
  pub offset : ℕ
  pub sort_col : Column
  pub sort_desc : Bool

pub record Row : Type 0 where
  pub frn : ℕ
  pub drive : Text
  pub parent_frn : ℕ
  pub name : Text
  pub path : Text
  pub attrs : ℕ
  pub size : ℕ
  pub mtime_ms : ℕ
  pub ctime_ms : ℕ
  pub reparse_tag : ℕ
  pub has_ea : ℕ

-- What the routing takes from elsewhere: the database and whether it is there, the entry of a drive
-- by its FRN, `_dt_to_ms` and `_ms_to_dt` on a date and a number that are there, where they do not
-- raise, and the user's synonyms.
pub record Routing : Type 0 where
  pub searching : Searching
  pub cache_exists : Bool
  pub db_search : Request → Option (List Row)
  pub get_entry : Text → ℕ → Option FileEntry
  pub to_ms : ℕ → ℕ
  pub of_ms : ℕ → Option ℕ
  pub synonyms : Dict Text (List Text)

abbrev pub is_absent {ℓ} : {A : Type ℓ} → Option A → Bool
is_absent none = true
is_absent (some x) = false

-- `if active_filter: …`.
unfoldable pub with_filter : ParsedQuery → Option SearchFilter → ParsedQuery
with_filter p none = p
with_filter p (some f) = record p {
  options = record p.options {
    files_only = f.files_only || p.options.files_only;
    folders_only = f.folders_only || p.options.folders_only;
  };
  ext_filter =
      if not (is_empty f.extensions) && is_empty p.ext_filter then f.extensions else p.ext_filter;
  size_min = if truthy f.min_size then pos f.min_size else p.size_min;
  size_max = if truthy f.max_size then pos f.max_size else p.size_max;
}

unfoldable pub with_limit : ParsedQuery → ℕ → ParsedQuery
with_limit p max_results =
    if truthy max_results
    then record p { options = record p.options { max_results = max_results } }
    else p

unfoldable pub apply_synonyms : Unicode → Dict Text (List Text) → ParsedQuery → ParsedQuery
unfolding expand_query_terms
apply_synonyms u synonyms p =
    if is_empty p.terms || not (is_absent p.boolean_expression) || is_empty synonyms
    then p
    else (let (remaining, groups) = expand_query_terms u p.terms synonyms in
        if is_empty groups
        then p
        else record p { terms = remaining; or_groups = p.or_groups ++ groups })

-- The options that the database knows nothing of.
abbrev pub plain_options : SearchOptions → Bool
plain_options o = not (
    o.use_regex || o.match_case || o.match_whole_word || o.match_whole_filename || o.use_wildcards
    || o.use_fuzzy)

module _ (r : Routing) where
  unfoldable pub can_use_db : ParsedQuery → Bool
  can_use_db p =
      if not (plain_options p.options)
      then false
      else if not (is_empty p.content_search)
      then false
      else if p.dupe_mode
      then false
      else if p.broken_link_mode || p.broken_shortcut_mode
      then false
      else if p.git_dirty_mode
      then false
      else if p.archive_mode
      then false
      else if not (is_empty p.custom_modifiers)
      then false
      else if not (is_absent p.boolean_expression)
      then false
      else if not (is_empty p.or_groups)
      then false
      else if truthy p.attrib_include
      then false
      else if is_set p.name_len_min || is_set p.name_len_max
      then false
      else if not (is_empty p.parent_filter)
      then false
      else if not (is_empty p.path_includes)
          && (not (is_empty p.terms) || ltb 1 (length p.path_includes))
      then false
      else if ltb 1 (length p.terms)
      then false
      else r.cache_exists

  abbrev first_of : List Text → Text
  first_of [] = []
  first_of (t ∷ ts) = t

  abbrev dt_to_ms : Option ℕ → ℕ
  dt_to_ms none = 0
  dt_to_ms (some d) = r.to_ms d

  abbrev ms_to_dt : ℕ → Option ℕ
  ms_to_dt ms = if truthy ms then r.of_ms ms else none

  -- What a filter adds to the request: its fields, or those of no filter.
  abbrev filter_or : {A : Type 0} → Option SearchFilter → (SearchFilter → A) → A → A
  filter_or none field default = default
  filter_or (some f) field default = field f

  unfoldable pub db_request : ParsedQuery → Option SearchFilter → ℕ → ℕ → Request
  unfolding sort_column
  db_request p active_filter limit offset =
      let query_text = first_of p.terms in
      let extensions = filter_or active_filter (λ f. f.extensions) [] in
      record {
        query = if is_empty query_text then first_of p.path_includes else query_text;
        match_path = not (is_empty p.path_includes) || p.options.match_path;
        extensions = if is_empty extensions then p.ext_filter else extensions;
        files_only = p.options.files_only || filter_or active_filter (λ f. f.files_only) false;
        folders_only =
            p.options.folders_only || filter_or active_filter (λ f. f.folders_only) false;
        size_min =
            if is_set p.size_min
            then p.size_min
            else filter_or active_filter (λ f. pos f.min_size) (pos 0);
        size_max =
            if is_set p.size_max
            then p.size_max
            else filter_or active_filter (λ f. pos f.max_size) (pos 0);
        date_mod_after_ms = dt_to_ms p.date_mod_after;
        date_mod_before_ms = dt_to_ms p.date_mod_before;
        date_create_after_ms = dt_to_ms p.date_create_after;
        date_create_before_ms = dt_to_ms p.date_create_before;
        exclude_paths = filter_or active_filter (λ f. f.exclude_paths) [];
        limit = limit;
        offset = offset;
        sort_col = sort_column p.options.sort_by;
        sort_desc = elim p.options.sort_order [ descending ↦ true | ascending ↦ false ];
      }

  -- The entry of a row that the index does not hold.
  unfoldable pub entry_of_row : Row → FileEntry
  entry_of_row row =
      let has_stat = truthy row.size || truthy row.mtime_ms || truthy row.ctime_ms in
      record {
        frn = row.frn;
        parent_frn = row.parent_frn;
        name = row.name;
        drive = row.drive;
        attributes = row.attrs;
        size = if has_stat then row.size else 0;
        date_modified = if has_stat then ms_to_dt row.mtime_ms else none;
        date_created = if has_stat then ms_to_dt row.ctime_ms else none;
        reparse_tag = row.reparse_tag;
        has_extended_attributes = truthy row.has_ea;
        content_snippet = [];
        content_rank = 0;
        path = if is_empty row.path then none else some row.path;
        stat_loaded = has_stat;
      }

  unfoldable pub result_of : Row → FileEntry
  unfolding entry_of_row
  result_of row = elim (r.get_entry row.drive row.frn) [
    | some existing ↦ existing
    | none ↦ entry_of_row row
  ]

  unfoldable pub db_search_results : ParsedQuery → Option SearchFilter → ℕ → Option (List FileEntry)
  unfolding db_request result_of compile_exclude_matchers
  db_search_results p active_filter limit =
      elim (r.db_search (db_request p active_filter limit 0)) [
        | none ↦ none
        | some rows ↦
            let excludes =
              compile_exclude_matchers r.searching.engine.unicode r.searching.patterns p in
            some (keep (λ e. not (any (λ m. m e.name) excludes)) (map result_of rows))
      ]

  unfoldable pub routed :
      (ℕ → Bool) → ParsedQuery → Option SearchFilter → List FileEntry → List FileEntry
  unfolding can_use_db db_search_results memory_search
  routed cancel p active_filter entries =
      let in_memory = memory_search r.searching cancel p active_filter entries in
      if can_use_db p
      then elim (db_search_results p active_filter p.options.max_results) [
        | some results ↦ results
        | none ↦ in_memory
      ]
      else in_memory

  -- `parsed` is what `parse_query` gives; `max_results` is 0 where the caller sets no limit.
  unfoldable pub search_parsed :
      (ℕ → Bool) → ParsedQuery → Option SearchFilter → ℕ → List FileEntry → List FileEntry
  unfolding routed with_filter with_limit apply_synonyms
  search_parsed cancel parsed active_filter max_results entries =
      routed cancel
        (with_filter
          (with_limit (apply_synonyms r.searching.engine.unicode r.synonyms parsed) max_results)
          active_filter)
        active_filter entries
