-- ===== src/Tests/Search.antt =====
-- Runs of the search of core/search.py on an index of one file.
use quick_find.Prelude.{◌≡◌, refl, true, false, none, some, [], ◌∷◌, length, keep}
use quick_find.Text.{codes, ascii, contains}
use quick_find.Query.Matcher.{Patterns}
use quick_find.Query.Order.{Sorting}
use quick_find.Query.Search.{Searching, content_cache_filter, memory_search}
use quick_find.Query.Search.Plain.{Ordered, all_keyed, first_hits, expected, memory_search-Refines}
use quick_find.Tests.Query.{engine, query, report}

abbrev patterns : Patterns
patterns = record {
  regex = λ matters term. none;
  wildcard = λ matters term text. true;
  whole_word = λ matters term text. contains term text;
}

abbrev sorting : Sorting
sorting = record {
  unicode = ascii;
  split = λ text. text ∷ [];
  isdigit = λ text. false;
  int = λ text. some 0;
  score = λ path. 0;
  resolve = λ drive frn. codes "C:\\report.txt";
  stat = λ path. none;
}

abbrev searching : Searching
searching = record {
  engine = engine;
  patterns = patterns;
  sorting = sorting;
  normalize_path_key = λ path. path;
  stat_key = λ path. none;
  content_freshness = none;
  content_hits = λ text matters. none;
  hash = λ path. 0;
  is_supported_archive = λ e. false;
  archive_entries = λ e. [];
  hash_duplicates = λ entries. entries;
}

memory_search-Refines_example :
    Ordered sorting
      (all_keyed sorting query.options (first_hits searching query none (report ∷ report ∷ [])))
      query.options
      (expected searching query none (report ∷ report ∷ []))
      (memory_search searching (λ n. false) query none (report ∷ report ∷ []))
    × (length (
          keep (λ e. true) (memory_search searching (λ n. false) query none (report ∷ report ∷ [])))
        ≡ length (keep (λ e. true) (expected searching query none (report ∷ report ∷ []))))
unfolding content_cache_filter
memory_search-Refines_example =
    memory_search-Refines searching query none (report ∷ report ∷ []) (λ e. true) refl refl refl
