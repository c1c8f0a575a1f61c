-- ===== src/Query/Synonyms.antt =====
-- core/synonyms.py, `expand_query_terms`: a term that has synonyms becomes a group of alternatives.
use quick_find.Prelude.{◌≡◌, refl, Bool, ◌&&◌, none, some, List, [], ◌∷◌, any, all, arith}
use quick_find.Text.{Text, Unicode}
use quick_find.Dict.{Dict, get, text_key}

-- `synonyms.get(term.lower())`, where an empty list counts as none.
unfoldable pub synonyms_of : Unicode → Dict Text (List Text) → Text → List Text
unfolding get
synonyms_of u synonyms t = elim (get synonyms (u.lower t)) [ none ↦ [] | some syns ↦ syns ]

unfoldable pub add_term :
    Text → List Text → List Text × List (List Text) → List Text × List (List Text)
add_term t [] (remaining, groups) = (t ∷ remaining, groups)
add_term t (s ∷ syns) (remaining, groups) = (remaining, (t ∷ s ∷ syns) ∷ groups)

-- Built from the last term, so that both lists are in the order of the terms.
unfoldable pub expand_query_terms :
    Unicode → List Text → Dict Text (List Text) → List Text × List (List Text)
unfolding add_term synonyms_of
expand_query_terms u [] synonyms = ([], [])
expand_query_terms u (t ∷ ts) synonyms =
    add_term t (synonyms_of u synonyms t) (expand_query_terms u ts synonyms)

-- Every remaining term is met, and one term of every group.
abbrev pub expanded_meets : (Text → Bool) → List Text × List (List Text) → Bool
expanded_meets meets (remaining, groups) = all meets remaining && all (λ g. any meets g) groups

add_term-meets :
    (meets : Text → Bool) (t : Text) (syns : List Text) (r : List Text × List (List Text))
    → expanded_meets meets (add_term t syns r) ≡ (any meets (t ∷ syns) && expanded_meets meets r)
unfolding add_term
add_term-meets meets t [] (remaining, groups) = ground arith
add_term-meets meets t (s ∷ syns) (remaining, groups) = ground arith

-- For any test of a term, the remaining terms and one of each group are met exactly when each term of the query is met by itself or by one of its synonyms.
pub expand_query_terms-meets :
    (u : Unicode) (meets : Text → Bool) (synonyms : Dict Text (List Text)) (ts : List Text)
    → expanded_meets meets (expand_query_terms u ts synonyms)
      ≡ all (λ t. any meets (t ∷ synonyms_of u synonyms t)) ts
unfolding expand_query_terms
expand_query_terms-meets u meets synonyms [] = refl
expand_query_terms-meets u meets synonyms (t ∷ ts) = ground (
  arith,
  add_term-meets meets t (synonyms_of u synonyms t) (expand_query_terms u ts synonyms),
  expand_query_terms-meets u meets synonyms ts,
)
