-- ===== src/Tests/Parse.antt =====
-- A run of `parse_query` of core/search.py: files only, a range of sizes and a quoted term.
use quick_find.Prelude.{pos, ◌≡◌, ◌==◌, if◌then◌else◌, refl, true, none, some, [], ◌∷◌}
use quick_find.Text.{codes, ascii}
use quick_find.Query.Options.{ParsedQuery}
use quick_find.Query.Boolean.{parse_boolean_expression}
use quick_find.Query.Parse.{Quoting}
use quick_find.Query.Parse.Values.{Reading, refused}
use quick_find.Query.Parse.Whole.{default_options, empty_query, parse_query}
use quick_find.Query.Parse.Kinds.{one_kind}
use quick_find.Query.Parse.OneKind.{parse_query-one_kind}

-- One quoted part at most: its number is 0, and its placeholder has nine characters.
abbrev quoting : Quoting
quoting = record {
  decimal = λ n. codes "0";
  placeholder = λ s. elim s [ [] ↦ none | c ∷ t ↦ if c == 0 then some (0, 9) else none ];
}

abbrev reading : Reading
reading = record {
  unicode = ascii;
  int = λ s. some (pos 7);
  scaled = λ s m. refused;
  shortcuts = some [];
  strptime = λ s f. none;
}

abbrev parsed : ParsedQuery
parsed = record (empty_query default_options) {
  options = record default_options { files_only = true };
  size_min = pos 7;
  terms = codes "a b" ∷ [];
}

runs : parse_query quoting reading [] (codes "folder: file: size:>7 \"a b\"") none ≡ some parsed
unfolding parse_query parse_boolean_expression
runs = refl

parse_query-one_kind_example : one_kind parsed.options ≡ true
parse_query-one_kind_example =
    parse_query-one_kind quoting reading [] tt (codes "folder: file: size:>7 \"a b\"") none parsed
      refl runs
