-- ===== src/Query/Order.antt =====
-- core/search.py, `_sort_results`, with `natural_key` of core/utils.py: the order of the results.
pub mod Sorted
use quick_find.Prelude.{
  ℕ, suc, ◌+◌, Bool, true, false, not, ◌&&◌, ◌||◌, List, [], ◌∷◌, Option, none, some, ltb, leb,
  ◌==◌, if◌then◌else◌, length, keep, sorted, bit_and,
}
use quick_find.Text.{Text, Unicode, text_eq, text_leb}
use quick_find.Index.{FileEntry}
use quick_find.Index.Flat.{get_path}
use quick_find.Index.Stat.{Stat, extension, ensure_stat}
use quick_find.Query.Options.{
  SearchOptions, SortField, by_name, by_path, by_size, by_date_modified, by_date_created,
  by_extension, by_attributes, by_relevance, SortOrder, ascending, descending,
}

-- A part of a key: a number, or a text. A key that is one number or text has one part.
pub data Part : Type 0 where
  number : (n : ℕ) → Part
  word : (s : Text) → Part

-- Keys that are compared have parts of the same kind at the same place.
unfoldable pub part_eq : Part → Part → Bool
unfolding text_eq
part_eq (number m) (number n) = m == n
part_eq (word s) (word t) = text_eq s t
part_eq (number m) (word t) = false
part_eq (word s) (number n) = false

unfoldable pub part_leb : Part → Part → Bool
unfolding text_leb
part_leb (number m) (number n) = leb m n
part_leb (word s) (word t) = text_leb s t
part_leb (number m) (word t) = true
part_leb (word s) (number n) = false

-- The order of lists.
unfoldable pub parts_leb : List Part → List Part → Bool
unfolding part_eq part_leb
parts_leb [] ks = true
parts_leb (j ∷ js) [] = false
parts_leb (j ∷ js) (k ∷ ks) = if part_eq j k then parts_leb js ks else part_leb j k

-- What sorting takes from elsewhere: `split` is that of the expression `(\d+)`, `isdigit` and `int`
-- are Python's, `int` is none for a `ValueError`, as `int('²')` raises, and
-- `score` is `get_usage_scores` with 0 for a path that it does not give.
pub record Sorting : Type 0 where
  pub unicode : Unicode
  pub split : Text → List Text
  pub isdigit : Text → Bool
  pub int : Text → Option ℕ
  pub score : Text → ℕ
  pub resolve : Text → ℕ → Text
  pub stat : Text → Option Stat

module _ (s : Sorting) where
  -- None where `int` raises for a part.
  unfoldable pub natural_part : Text → Option Part
  natural_part part =
      if s.isdigit part
      then elim (s.int part) [ some n ↦ some (number n) | none ↦ none ]
      else some (word (s.unicode.lower part))

  unfoldable pub natural_parts : List Text → Option (List Part)
  unfolding natural_part
  natural_parts [] = some []
  natural_parts (part ∷ parts) =
      let rest = natural_parts parts in
      elim (natural_part part) [
        | none ↦ none
        | some first ↦ elim rest [ some others ↦ some (first ∷ others) | none ↦ none ]
      ]

  unfoldable pub natural_key : Text → Option (List Part)
  unfolding natural_parts
  natural_key text = natural_parts (s.split text)

  unfoldable pub path_of_entry : FileEntry → Text
  unfolding get_path
  path_of_entry e = (get_path s.resolve e).0

  -- A date that is missing counts as `datetime.min`, a size that is not loaded as -1.
  abbrev pub date_or_min : Option ℕ → ℕ
  date_or_min none = 0
  date_or_min (some d) = d

  -- None where making the key raises.
  unfoldable pub key_func : SortField → FileEntry → Option (List Part)
  unfolding natural_key path_of_entry extension
  key_func by_name e = natural_key e.name
  key_func by_path e = natural_key (path_of_entry e)
  key_func by_size e = some (number (if e.stat_loaded then suc e.size else 0) ∷ [])
  key_func by_extension e = some (word (extension s.unicode e) ∷ [])
  key_func by_date_modified e = some (number (date_or_min e.date_modified) ∷ [])
  key_func by_date_created e = some (number (date_or_min e.date_created) ∷ [])
  key_func by_attributes e = some (number e.attributes ∷ [])
  key_func by_relevance e = some (number (s.score (path_of_entry e)) ∷ [])

  unfoldable pub has_key : SortField → FileEntry → Bool
  unfolding key_func
  has_key field e = elim (key_func field e) [ some key ↦ true | none ↦ false ]

  -- The key of an entry that has one.
  unfoldable pub sort_key : SortField → FileEntry → List Part
  unfolding key_func
  sort_key field e = elim (key_func field e) [ some key ↦ key | none ↦ [] ]

  -- `results.sort(key=…, reverse=…)` keeps the order of entries of the same key in both directions.
  unfoldable pub entry_before : SortField → Bool → FileEntry → FileEntry → Bool
  unfolding sort_key parts_leb
  entry_before field reverse a b =
      if reverse
      then parts_leb (sort_key field b) (sort_key field a)
      else parts_leb (sort_key field a) (sort_key field b)

  -- Whether the key reads what `ensure_stat` loads.
  abbrev pub reads_stat : SortField → Bool
  reads_stat by_date_modified = true
  reads_stat by_date_created = true
  reads_stat by_size = true
  reads_stat _ = false

  abbrev pub reads_path : SortField → Bool
  reads_path by_path = true
  reads_path by_relevance = true
  reads_path _ = false

  abbrev pub is_descending : SortField → SortOrder → Bool
  is_descending by_relevance order = true
  is_descending _ descending = true
  is_descending _ ascending = false

  unfoldable pub needs_stat : List FileEntry → ℕ
  needs_stat results = length (keep (λ e. not e.stat_loaded) results)

  -- Loading the files' data in order; `cancel i` is what the callback says before the entry `i`,
  -- where it is asked, at every 4096th. Returns whether it has gone to the end.
  unfoldable pub load_stats : (ℕ → Bool) → ℕ → List FileEntry → Bool × List FileEntry
  unfolding ensure_stat
  load_stats cancel i [] = (true, [])
  load_stats cancel i (e ∷ es) =
      let rest = load_stats cancel (suc i) es in
      if bit_and i 0xFFF == 0 && cancel i
      then (false, e ∷ es)
      else (rest.0, ensure_stat s.resolve s.stat e ∷ rest.1)

  unfoldable pub loaded : (ℕ → Bool) → SortField → List FileEntry → Bool × List FileEntry
  unfolding load_stats needs_stat
  loaded cancel field results =
      if reads_stat field && (ltb 0 (needs_stat results) && leb (needs_stat results) 100000)
      then load_stats cancel 0 results
      else (true, results)

  -- The keys are made in the order of the results, until one raises.
  unfoldable pub keyed : SortField → List FileEntry → Bool × List FileEntry
  unfolding has_key get_path
  keyed field [] = (true, [])
  keyed field (e ∷ es) =
      let rest = keyed field es in
      let e' = if reads_path field then (get_path s.resolve e).1 else e in
      if has_key field e then (rest.0, e' ∷ rest.1) else (false, e' ∷ es)

  -- If a key raises, the error is logged and the results stay in their order.
  unfoldable pub sort_results : (ℕ → Bool) → SearchOptions → List FileEntry → List FileEntry
  unfolding loaded sorted entry_before keyed
  sort_results cancel o results =
      let (complete, ready) = loaded cancel o.sort_by results in
      let (every, with_keys) = keyed o.sort_by ready in
      if not complete
      then ready
      else if every
      then sorted (entry_before o.sort_by (is_descending o.sort_by o.sort_order)) with_keys
      else with_keys
