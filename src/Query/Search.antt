-- ===== src/Query/Search.antt =====
-- core/search.py, the search in memory: the loop over the entries, the hits of the content cache,
-- the archives, the duplicates, the order and the limit. `cancel n` is what the callback
-- `cancel_check` says when it is asked for the n-th time; without one it always says no.
pub mod Plain
pub mod Route
use quick_find.Prelude.{
  ℕ, suc, ◌+◌, ◌-◌, ◌*◌, ◌/◌, ◌^◌, ◌%◌, Bool, true, false, not, ◌&&◌, ◌||◌, List, [], ◌∷◌, ◌++◌,
  Option, none, some, map, ltb, leb, ◌==◌, if◌then◌else◌, length, keep, any, take, drop, truthy,
  sorted,
}
use quick_find.Text.{Text, Unicode, codes, text_eq, contains, starts_with}
use quick_find.Dict.{Dict, get, put, has, text_key}
use quick_find.Index.{FileEntry, is_dir}
use quick_find.Index.Flat.{get_path}
use quick_find.Query.Options.{ParsedQuery, SearchOptions}
use quick_find.Query.Filters.{SearchFilter}
use quick_find.Query.Matcher.{
  Patterns, compile_term_matchers, compile_exclude_matchers, compile_or_groups,
  compile_boolean_matcher,
}
use quick_find.Query.Matches.{Engine, Matchers, is_empty, matches}
use quick_find.Query.Duplicates.{find_duplicates}
use quick_find.Query.Order.{Sorting, sort_results}

pub record ContentHit : Type 0 where
  pub hit_path : Text
  pub snippet : Text
  pub rank : ℕ

-- By `_normalize_path_key`; freshness is the size and the time of the file that was read.
pub record ContentCache : Type 0 where
  pub freshness : Dict Text (ℕ × ℕ)
  pub hits : Dict Text ContentHit

-- What a search uses beside `_matches`: `normcase(abspath(p))`, `(st_size, int(st_mtime * 1000))` of
-- `os.stat`, none where it raises, the rows of the content cache and its hits, none where they raise,
-- `hash`, the archives, and `_filter_content_hash_duplicates`.
pub record Searching : Type 0 where
  pub engine : Engine
  pub patterns : Patterns
  pub sorting : Sorting
  pub normalize_path_key : Text → Text
  pub stat_key : Text → Option (ℕ × ℕ)
  pub content_freshness : Option (Dict Text (ℕ × ℕ))
  pub content_hits : Text → Bool → Option (List ContentHit)
  pub hash : Text → ℕ
  pub is_supported_archive : FileEntry → Bool
  pub archive_entries : FileEntry → List FileEntry
  pub hash_duplicates : List FileEntry → List FileEntry

-- `s.find(needle)`.
unfoldable pub find : Text → Text → Option ℕ
unfolding starts_with
find needle [] = if starts_with needle [] then some 0 else none
find needle (c ∷ s) =
    let behind = find needle s in
    if starts_with needle (c ∷ s)
    then some 0
    else elim behind [ none ↦ none | some i ↦ some (suc i) ]

unfoldable pub split_at_marker : Unicode → Text → List Text → Option (Text × Text)
unfolding find
split_at_marker u path [] = none
split_at_marker u path (ext ∷ exts) = elim (find (ext ++ codes "\\") (u.lower path)) [
  | none ↦ split_at_marker u path exts
  | some i ↦ some (take (i + length ext) path, drop (i + length ext + 1) path)
]

unfoldable pub split_archive_member_path : Unicode → Text → Option (Text × Text)
unfolding split_at_marker
split_archive_member_path u path = split_at_marker u path (codes ".zip" ∷ codes ".7z" ∷ [])

-- `s.rsplit('\\', 1)[-1]`.
unfoldable pub last_component : Text → Text
last_component [] = []
last_component (c ∷ s) =
    let rest = last_component s in
    if any (λ d. d == b'\\') (c ∷ s)
    then (if c == b'\\' && not (any (λ d. d == b'\\') s) then s else rest)
    else c ∷ s

module _ (w : Searching) where
  unfoldable pub content_cache_filter : ParsedQuery → Option ContentCache
  unfolding put
  content_cache_filter p = if is_empty p.content_search then none else elim w.content_freshness [
    | none ↦ none
    | some rows ↦
        if is_empty rows
        then none
        else elim (w.content_hits p.content_search p.options.match_case) [
          | none ↦ none
          | some found ↦
              some (record { freshness = fresh_by_key rows []; hits = hits_by_key found [] })
        ]
  ]
    where
      fresh_by_key : Dict Text (ℕ × ℕ) → Dict Text (ℕ × ℕ) → Dict Text (ℕ × ℕ)
      fresh_by_key [] d = d
      fresh_by_key ((path, meta) ∷ rows) d =
          fresh_by_key rows (put d (w.normalize_path_key path) meta)

      hits_by_key : List ContentHit → Dict Text ContentHit → Dict Text ContentHit
      hits_by_key [] d = d
      hits_by_key (hit ∷ hits) d = hits_by_key hits (put d (w.normalize_path_key hit.hit_path) hit)

  abbrev without_content : ParsedQuery → ParsedQuery
  without_content p = record p { content_search = [] }

  abbrev pair_eq : ℕ × ℕ → ℕ × ℕ → Bool
  pair_eq (a, b) (c, d) = a == c && b == d

  -- `_content_path_key` and `_content_entry_cache_is_fresh`, with the entry that caches its path.
  unfoldable pub content_path_key : FileEntry → Text × FileEntry
  unfolding get_path
  content_path_key e =
      let (path, e') = get_path w.engine.resolve e in (w.normalize_path_key path, e')

  unfoldable pub content_entry_cache_is_fresh : FileEntry → ℕ × ℕ → Bool
  unfolding get_path
  content_entry_cache_is_fresh e freshness = elim (w.stat_key (get_path w.engine.resolve e).0) [
    | none ↦ false
    | some now ↦ pair_eq freshness now
  ]

  module _ (p : ParsedQuery) (m : Matchers) (excluded : List Text) where
    -- The entry whose content is known: its hit, if it has one, stands for the reading of the file.
    unfoldable pub visit_known : FileEntry → Option ContentHit → Bool × FileEntry
    unfolding matches
    visit_known e none = (false, e)
    visit_known e (some hit) =
        matches w.engine (without_content p) m excluded
          (record e { content_snippet = hit.snippet; content_rank = hit.rank })

    unfoldable pub visit_cached : ContentCache → FileEntry → Bool × FileEntry
    unfolding content_path_key content_entry_cache_is_fresh visit_known matches get
    visit_cached cache e =
        let (key, e') = content_path_key e in
        elim (get cache.freshness key) [
          | none ↦ matches w.engine p m excluded e'
          | some freshness ↦
              if content_entry_cache_is_fresh e' freshness
              then visit_known e' (get cache.hits key)
              else matches w.engine p m excluded e'
        ]

    -- One round of the loop: whether the entry is a result, and the entry after it.
    unfoldable pub visit : Option ContentCache → FileEntry → Bool × FileEntry
    unfolding visit_cached matches
    visit none e =
        matches w.engine p m excluded (record e { content_snippet = []; content_rank = 0 })
    visit (some cache) e = visit_cached cache (record e { content_snippet = []; content_rank = 0 })

    abbrev pub limit_reached : ℕ → Bool
    limit_reached count =
        truthy p.options.max_results && (not p.dupe_mode && leb p.options.max_results count)

    -- `n` questions have been asked and `count` results found. Returns the results, the entries as
    -- they are left, and the questions asked.
    unfoldable pub memory_loop :
        (ℕ → Bool)
        → Option ContentCache
        → ℕ
        → ℕ
        → List FileEntry
        → List FileEntry × List FileEntry × ℕ
    unfolding visit
    memory_loop cancel cache n count [] = ([], [], n)
    memory_loop cancel cache n count (e ∷ es) =
        let (hit, e') = visit cache e in
        let rest = memory_loop cancel cache (suc n) (if hit then suc count else count) es in
        if cancel n || limit_reached count
        then ([], e ∷ es, suc n)
        else (if hit then e' ∷ rest.0 else rest.0, e' ∷ rest.1, rest.2)

    -- The virtual entry of a hit inside an archive.
    unfoldable pub member_entry : ContentHit → Text → Text → FileEntry
    unfolding last_component
    member_entry hit archive_path member_path = record {
      frn = w.hash hit.hit_path % 2 ^ 48;
      parent_frn = 0;
      name = last_component member_path;
      drive = elim (take 1 archive_path) [ [] ↦ codes "C" | c ∷ s ↦ c ∷ s ];
      attributes = 0x20;
      size = 0;
      date_modified = none;
      date_created = none;
      reparse_tag = 0;
      has_extended_attributes = false;
      content_snippet = hit.snippet;
      content_rank = hit.rank;
      path = some hit.hit_path;
      stat_loaded = true;
    }

    unfoldable pub member_hit : ContentCache → List Text → Text → ContentHit → Option FileEntry
    unfolding split_archive_member_path get member_entry text_eq
    member_hit cache seen key hit = elim (split_archive_member_path w.engine.unicode hit.hit_path) [
      | none ↦ none
      | some parts ↦
          if any (λ s. text_eq s hit.hit_path) seen then none else elim (get cache.freshness key) [
            | none ↦ none
            | some fresh ↦ elim (w.stat_key parts.0) [
              | none ↦ none
              | some now ↦
                  if pair_eq now fresh then some (member_entry hit parts.0 parts.1) else none
            ]
          ]
    ]

    unfoldable pub archive_member_hits :
        ContentCache → List Text → Dict Text ContentHit → List FileEntry
    unfolding member_hit
    archive_member_hits cache seen [] = []
    archive_member_hits cache seen ((key, hit) ∷ hits) =
        let again = archive_member_hits cache seen hits in
        let rest = archive_member_hits cache (hit.hit_path ∷ seen) hits in
        elim (member_hit cache seen key hit) [ none ↦ again | some e ↦ e ∷ rest ]

    -- The members that meet the rest of the query.
    unfoldable pub member_results : List FileEntry → List FileEntry
    unfolding matches
    member_results [] = []
    member_results (e ∷ es) =
        let (hit, e') = matches w.engine (without_content p) m excluded e in
        let rest = member_results es in if hit then e' ∷ rest else rest

    unfoldable pub filter_duplicate_results : List FileEntry → List FileEntry
    unfolding find_duplicates is_dir has
    filter_duplicate_results entries =
        if p.dupe_hash_mode
        then w.hash_duplicates entries
        else keep
            (λ e.
              not (is_dir e)
              && has (find_duplicates w.engine.unicode entries) (w.engine.unicode.lower e.name))
            entries

    -- The callback as `_sort_results` asks it, behind `n` questions, at every 4096th entry.
    abbrev pub asked_later : (ℕ → Bool) → ℕ → ℕ → Bool
    asked_later cancel n i = cancel (n + i / 4096)

    -- What follows the loops: the duplicates, the order, then the rank, then their limit.
    unfoldable pub arranged : (ℕ → Bool) → ℕ → Bool → List FileEntry → List FileEntry
    unfolding filter_duplicate_results sort_results sorted
    arranged cancel n ranked results =
        let kept = if p.dupe_mode then filter_duplicate_results results else results in
        let ordered = sort_results w.sorting (asked_later cancel (suc n)) p.options kept in
        let by_rank =
          if ranked then sorted (λ a b. leb b.content_rank a.content_rank) ordered else ordered in
        if cancel n
        then results
        else if p.dupe_mode && truthy p.options.max_results
        then take p.options.max_results by_rank
        else by_rank

    -- The members of one archive, as the loop over the entries.
    unfoldable pub archive_loop : (ℕ → Bool) → ℕ → ℕ → List FileEntry → List FileEntry × ℕ
    unfolding matches
    archive_loop cancel n count [] = ([], n)
    archive_loop cancel n count (e ∷ es) =
        let (hit, e') = matches w.engine p m [] e in
        let rest = archive_loop cancel (suc n) (if hit then suc count else count) es in
        if cancel n || limit_reached count
        then ([], suc n)
        else (if hit then e' ∷ rest.0 else rest.0, rest.1)

    abbrev is_excluded : FileEntry → Bool
    is_excluded e =
        not (is_empty excluded)
        && any (λ x. contains x (w.engine.unicode.lower (get_path w.engine.resolve e).0)) excluded

    unfoldable pub archives_loop : (ℕ → Bool) → ℕ → ℕ → List FileEntry → List FileEntry × ℕ
    unfolding archive_loop contains get_path
    archives_loop cancel n count [] = ([], n)
    archives_loop cancel n count (e ∷ es) =
        let (found, asked) = archive_loop cancel (suc n) count (w.archive_entries e) in
        let skipped = archives_loop cancel (suc n) count es in
        let rest = archives_loop cancel asked (count + length found) es in
        if cancel n || limit_reached count
        then ([], suc n)
        else if not (w.is_supported_archive e) || is_excluded e
        then skipped
        else (found ++ rest.0, rest.1)

    unfoldable pub archive_search : (ℕ → Bool) → List FileEntry → List FileEntry
    unfolding archives_loop arranged
    archive_search cancel entries =
        let (found, n) = archives_loop cancel 0 0 entries in arranged cancel n false found

    unfoldable pub search_entries :
        (ℕ → Bool) → Option ContentCache → List FileEntry → List FileEntry
    unfolding memory_loop archive_member_hits member_results arranged
    search_entries cancel none entries =
        let (found, _, n) = memory_loop cancel none 0 0 entries in arranged cancel n false found
    search_entries cancel (some cache) entries =
        let (found, _, n) = memory_loop cancel (some cache) 0 0 entries in
        arranged cancel n true (found ++ member_results (archive_member_hits cache [] cache.hits))

  unfoldable pub compiled : ParsedQuery → Matchers
  unfolding compile_term_matchers compile_exclude_matchers compile_or_groups compile_boolean_matcher
  compiled p = record {
    terms = compile_term_matchers w.engine.unicode w.patterns p;
    excludes = compile_exclude_matchers w.engine.unicode w.patterns p;
    or_groups = compile_or_groups w.engine.unicode w.patterns p.options p.or_groups;
    boolean = compile_boolean_matcher w.engine.unicode w.patterns p;
  }

  unfoldable pub exclude_paths_of : Option SearchFilter → List Text
  exclude_paths_of none = []
  exclude_paths_of (some f) = map w.engine.unicode.lower f.exclude_paths

  unfoldable pub memory_search :
      (ℕ → Bool) → ParsedQuery → Option SearchFilter → List FileEntry → List FileEntry
  unfolding compiled exclude_paths_of archive_search search_entries content_cache_filter
  memory_search cancel p active_filter entries =
      if p.archive_mode
      then archive_search p (compiled p) (exclude_paths_of active_filter) cancel entries
      else search_entries p (compiled p) (exclude_paths_of active_filter) cancel
          (content_cache_filter p) entries
