-- ===== src/Query/Matcher.antt =====
-- core/search.py, `_fuzzy_match`, `_make_matcher` and the `_compile_…_matchers`: the test of a text
-- that a term stands for.
pub mod Fuzzy
use quick_find.Prelude.{
  ℕ, Bool, true, false, ◌||◌, Option, none, some, List, [], ◌∷◌, any, map, ◌==◌, if◌then◌else◌,
}
use quick_find.Text.{Text, Unicode, codes, text_eq, contains, strip}
use quick_find.Query.Options.{SearchOptions, ParsedQuery}
use quick_find.Query.Boolean.Legacy.{compile_boolean_node}

-- `c in it`: the iterator is read until it gives `c`, and goes on behind it.
unfoldable pub advance : ℕ → Text → Option Text
advance c [] = none
advance c (d ∷ it) = let rest = advance c it in if d == c then some it else rest

unfoldable pub fuzzy_match : Text → Text → Bool
unfolding advance
fuzzy_match text [] = true
fuzzy_match text (c ∷ pattern) = elim (advance c text) [
  | none ↦ false
  | some rest ↦ fuzzy_match rest pattern
]

-- The modules `re` and `fnmatch`, as the program calls them. The first argument says whether the
-- case counts.
pub record Patterns : Type 0 where
  -- `re.compile(term, flags)`, as its `search`, or none for `re.error`.
  pub regex : Bool → Text → Option (Text → Bool)
  -- `re.compile(fnmatch.translate(term), flags).search`.
  pub wildcard : Bool → Text → Text → Bool
  -- `re.compile(r'\b' + re.escape(term) + r'\b', flags).search`.
  pub whole_word : Bool → Text → Text → Bool

-- `'*' in term or '?' in term`.
unfoldable pub has_wildcard : Text → Bool
has_wildcard t = any (λ c. c == b'*') t || any (λ c. c == b'?') t

module _ (u : Unicode) (ps : Patterns) where
  unfoldable pub make_matcher : Text → SearchOptions → Text → Bool
  unfolding has_wildcard fuzzy_match text_eq contains
  make_matcher term o text =
      if o.use_regex
      then elim (ps.regex o.match_case term) [ none ↦ false | some search ↦ search text ]
      else if o.use_wildcards || has_wildcard term
      then ps.wildcard o.match_case term text
      else if o.match_whole_word
      then ps.whole_word o.match_case term text
      else if o.match_whole_filename
      then (if o.match_case then text_eq text term else text_eq (u.lower text) (u.lower term))
      else if o.use_fuzzy
      then (if o.match_case
          then fuzzy_match text term
          else fuzzy_match (u.lower text) (u.lower term))
      else if o.match_case
      then contains term text
      else contains (u.lower term) (u.lower text)

  unfoldable pub compile_term_matchers : ParsedQuery → List (Text → Bool)
  compile_term_matchers p = map (λ t. make_matcher t p.options) p.terms

  unfoldable pub compile_exclude_matchers : ParsedQuery → List (Text → Bool)
  compile_exclude_matchers p = map (λ t. make_matcher t p.options) p.exclude_terms

  -- A term that is blank is left out, and so is a group that has no other.
  unfoldable pub compile_or_group : SearchOptions → List Text → List (Text → Bool)
  unfolding strip
  compile_or_group o [] = []
  compile_or_group o (t ∷ ts) =
      let rest = compile_or_group o ts in
      elim (strip t) [ [] ↦ rest | c ∷ cs ↦ make_matcher (c ∷ cs) o ∷ rest ]

  unfoldable pub add_group :
      List (Text → Bool) → List (List (Text → Bool)) → List (List (Text → Bool))
  add_group [] groups = groups
  add_group (m ∷ ms) groups = (m ∷ ms) ∷ groups

  unfoldable pub compile_or_groups : SearchOptions → List (List Text) → List (List (Text → Bool))
  unfolding compile_or_group add_group
  compile_or_groups o [] = []
  compile_or_groups o (g ∷ gs) = add_group (compile_or_group o g) (compile_or_groups o gs)

  unfoldable pub compile_boolean_matcher : ParsedQuery → Option (Text → Bool)
  compile_boolean_matcher p = elim p.boolean_expression [
    | none ↦ none
    | some e ↦ some (λ text. compile_boolean_node (λ t. make_matcher t p.options) e text)
  ]
