-- ===== src/Query/Search/Plain.antt =====
-- core/search.py: what a search in memory gives that is not cancelled, looks into no content cache
-- and no archive, and does not ask for duplicates.
use quick_find.Prelude.{
  ℕ, zero, suc, ◌-◌, ◌≡◌, refl, sym, ap, ◌∙◌, subst, Bool, true, false, ◌&&◌, ◌||◌, List, [], ◌∷◌,
  Option, none, leb, if◌then◌else◌, length, keep, take, truthy, sorted, IsSorted, arith,
  keep-sorted, all,
}
use quick_find.Text.{Text}
use quick_find.Index.{FileEntry}
use quick_find.Query.Options.{ParsedQuery, SearchOptions, SortField}
use quick_find.Query.Filters.{SearchFilter}
use quick_find.Query.Matches.{Matchers, matches}
use quick_find.Query.Order.{
  Sorting, entry_before, is_descending, load_stats, loaded, has_key, keyed, sort_results,
}
use quick_find.Query.Order.Sorted.{sorted-entries}
use quick_find.Query.Search.{
  Searching, content_cache_filter, visit, memory_loop, arranged, search_entries, compiled,
  exclude_paths_of, memory_search,
}

module _ (s : Sorting) where
  never : ℕ → Bool
  never n = false

  load_stats_complete : (i : ℕ) (es : List FileEntry) → (load_stats s (λ n. false) i es).0 ≡ true
  unfolding load_stats
  load_stats_complete i [] = refl
  load_stats_complete i (e ∷ es) = ground (arith, load_stats_complete (suc i) es)

  loaded_complete :
      (field : SortField) (es : List FileEntry) → (loaded s (λ n. false) field es).0 ≡ true
  unfolding loaded
  loaded_complete field es = ground (arith, load_stats_complete 0 es)

  keyed-all :
      (field : SortField) (es : List FileEntry) → (keyed s field es).0 ≡ all (has_key s field) es
  unfolding keyed
  keyed-all field [] = refl
  keyed-all field (e ∷ es) = ground (arith, keyed-all field es)

  -- The entries with what the sort loads.
  abbrev pub ready : SearchOptions → List FileEntry → List FileEntry
  ready o es = (loaded s (λ n. false) o.sort_by es).1

  -- The entries as the sort reads them.
  abbrev pub prepared : SearchOptions → List FileEntry → List FileEntry
  prepared o es = (keyed s o.sort_by (ready o es)).1

  -- No entry's key raises.
  abbrev pub all_keyed : SearchOptions → List FileEntry → Bool
  all_keyed o es = all (has_key s o.sort_by) (ready o es)

  abbrev pub result_order : SearchOptions → FileEntry → FileEntry → Bool
  result_order o = entry_before s o.sort_by (is_descending s o.sort_by o.sort_order)

  abbrev in_order : SearchOptions → List FileEntry → List FileEntry
  in_order o es = if all_keyed o es then sorted (result_order o) (prepared o es) else prepared o es

  sort_results-in_order :
      (o : SearchOptions) (es : List FileEntry) → sort_results s (λ n. false) o es ≡ in_order o es
  unfolding sort_results
  sort_results-in_order o es =
      ground (arith, loaded_complete o.sort_by es, keyed-all o.sort_by (ready o es))

  -- In order if no key raises, and else as they are.
  abbrev pub Ordered : Bool → SearchOptions → List FileEntry → List FileEntry → Type 0
  Ordered true o es results = IsSorted (result_order o) results
  Ordered false o es results = results ≡ es

  in_order-Ordered :
      (o : SearchOptions) (q : FileEntry → Bool) (es : List FileEntry) (every : Bool)
      → let results = if every then sorted (result_order o) es else es in
        Ordered every o es results × (length (keep q results) ≡ length (keep q es))
  in_order-Ordered o q es true = (
    sorted-entries s o.sort_by (is_descending s o.sort_by o.sort_order) es,
    keep-sorted (result_order o) q es,
  )
  in_order-Ordered o q es false = (refl, refl)

module _ (w : Searching) (p : ParsedQuery) (m : Matchers) (excluded : List Text) where
  -- The entries that pass, as they are left by the tests.
  abbrev pub hits : List FileEntry → List FileEntry
  hits [] = []
  hits (e ∷ es) =
      let (hit, e') =
        matches w.engine p m excluded (record e { content_snippet = []; content_rank = 0 }) in
      let rest = hits es in if hit then e' ∷ rest else rest

  -- The first of a list, up to the limit of the query, of which `count` are used up.
  abbrev pub first_results : ℕ → List FileEntry → List FileEntry
  first_results count es =
      if truthy p.options.max_results then take (p.options.max_results - count) es else es

  take_step :
      (n c : ℕ) (x : FileEntry) (xs : List FileEntry)
      → leb n c ≡ false
      → take (n - c) (x ∷ xs) ≡ x ∷ take (n - suc c) xs
  take_step n c x xs h = ap (λ k. take k (x ∷ xs)) (difference n c h)
    where
      difference : (n c : ℕ) → leb n c ≡ false → n - c ≡ suc (n - suc c)
      difference n c h = ground arith

  take_none : (n c : ℕ) (xs : List FileEntry) → leb n c ≡ true → take (n - c) xs ≡ []
  take_none n c xs h = ap (λ k. take k xs) (difference n c h)
    where
      difference : (n c : ℕ) → leb n c ≡ true → n - c ≡ 0
      difference n c h = ground arith

  abbrev results_of : List FileEntry × List FileEntry × ℕ → List FileEntry
  results_of r = r.0

  take_empty : (n : ℕ) → take {A = FileEntry} n [] ≡ []
  take_empty zero = refl
  take_empty (suc n) = refl

  -- One round: `found` is what the rest of the loop gives.
  round-first :
      (n count : ℕ) (hit : Bool) (x : FileEntry) (found xs seen left : List FileEntry) (i j : ℕ)
      → found ≡ (if truthy n then take (n - (if hit then suc count else count)) xs else xs)
      → results_of (
          if false || (truthy n && (true && leb n count))
          then ([], seen, i)
          else (if hit then x ∷ found else found, left, j))
        ≡ (if truthy n
            then take (n - count) (if hit then x ∷ xs else xs)
            else (if hit then x ∷ xs else xs))
  round-first n count true x found xs seen left i j e =
      ground (arith, e, take_none n count (x ∷ xs), take_step n count x xs)
  round-first n count false x found xs seen left i j e = ground (arith, e, take_none n count xs)

  memory_loop-first :
      p.dupe_mode ≡ false
      → (n count : ℕ) (es : List FileEntry)
      → (memory_loop w p m excluded (λ i. false) none n count es).0 ≡ first_results count (hits es)
  unfolding memory_loop visit
  memory_loop-first plain n count [] = ground (arith, take_empty (p.options.max_results - count))
  memory_loop-first plain n count (e ∷ es) = rw (plain) (
      round-first p.options.max_results count
        (matches w.engine p m excluded (record e { content_snippet = []; content_rank = 0 })).0 _ _
        (hits es) _ _ _ _ (memory_loop-first plain (suc n) _ es))

  arranged-sorted :
      p.dupe_mode ≡ false
      → (n : ℕ) (es : List FileEntry)
      → arranged w p m excluded (λ i. false) n false es ≡ in_order w.sorting p.options es
  unfolding arranged
  arranged-sorted plain n es = rw (arranged, plain) (sort_results-in_order w.sorting p.options es)

module _ (w : Searching) (p : ParsedQuery) (active_filter : Option SearchFilter) where
  abbrev pub first_hits : List FileEntry → List FileEntry
  first_hits entries =
      first_results w p (compiled w p) (exclude_paths_of w active_filter) 0
        (hits w p (compiled w p) (exclude_paths_of w active_filter) entries)

  -- The entries of the index that pass the query's tests, the first of them up to its limit, as the
  -- sort reads them.
  abbrev pub expected : List FileEntry → List FileEntry
  expected entries = prepared w.sorting p.options (first_hits entries)

  memory_search-sorted :
      (entries : List FileEntry)
      → p.archive_mode ≡ false
      → p.dupe_mode ≡ false
      → content_cache_filter w p ≡ none
      → memory_search w (λ n. false) p active_filter entries
        ≡ in_order w.sorting p.options (first_hits entries)
  unfolding memory_search search_entries
  memory_search-sorted entries no_archive plain no_cache =
      let looped =
        memory_loop w p (compiled w p) (exclude_paths_of w active_filter) (λ i. false) none 0 0
          entries in
      rw (no_archive, memory_search, no_cache, search_entries)
        (arranged-sorted w p (compiled w p) (exclude_paths_of w active_filter) plain looped.2
            looped.0
          ∙ ap (in_order w.sorting p.options) (
              memory_loop-first w p (compiled w p) (exclude_paths_of w active_filter) plain 0 0
                entries))

  -- A search in memory that is not cancelled, and that asks for no archive, no duplicates and no
  -- cached content, gives the first entries of the index that pass its tests, up to its limit, as
  -- many of each kind: in the order that the query asks for if the key of each of them can be made,
  -- and otherwise in the order of the index.
  pub memory_search-Refines :
      (entries : List FileEntry) (q : FileEntry → Bool)
      → p.archive_mode ≡ false
      → p.dupe_mode ≡ false
      → content_cache_filter w p ≡ none
      → Ordered w.sorting
          (all_keyed w.sorting p.options (first_hits entries))
          p.options
          (expected entries)
          (memory_search w (λ n. false) p active_filter entries)
        × (length (keep q (memory_search w (λ n. false) p active_filter entries))
            ≡ length (keep q (expected entries)))
  memory_search-Refines entries q no_archive plain no_cache =
      subst
        (λ found.
          Ordered w.sorting (all_keyed w.sorting p.options (first_hits entries)) p.options
            (expected entries) found
          × (length (keep q found) ≡ length (keep q (expected entries))))
        (sym (memory_search-sorted entries no_archive plain no_cache))
        (in_order-Ordered w.sorting p.options q (expected entries)
          (all_keyed w.sorting p.options (first_hits entries)))
