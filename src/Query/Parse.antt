-- ===== src/Query/Parse.antt =====
-- core/search.py, `parse_query`: its texts. Quoted parts are put by and stand as placeholders until
-- the modifiers and terms are told apart; `_tokenize_boolean_terms` makes Boolean tokens of terms.
pub mod Values
pub mod Modifiers
pub mod Whole
pub mod Kinds
pub mod OneKind
use quick_find.Prelude.{
  ℕ, zero, suc, ◌+◌, ◌-◌, Bool, true, false, not, ◌&&◌, ◌||◌, List, [], ◌∷◌, ◌++◌, Option, none,
  some, if◌then◌else◌, length, take, drop, get_elem?, any, ◌==◌,
}
use quick_find.Text.{Text, codes, starts_with, is_space}

abbrev pub is_blank : Text → Bool
is_blank [] = true
is_blank (c ∷ s) = false

-- `s.split()`: the word that is being read, and the words behind it.
unfoldable pub word_before : Text → List Text → List Text
word_before [] words = words
word_before (c ∷ s) words = (c ∷ s) ∷ words

-- What `s` begins with, up to white space, and the words behind that.
unfoldable pub first_word : Text → Text × List Text
unfolding is_space word_before
first_word [] = ([], [])
first_word (c ∷ s) =
    let rest = first_word s in
    if is_space c then ([], word_before rest.0 rest.1) else (c ∷ rest.0, rest.1)

unfoldable pub split_words : Text → List Text
unfolding first_word word_before
split_words s = let found = first_word s in word_before found.0 found.1

-- `s.replace(old, new)` for an `old` that is not empty; `skip` characters belong to the last match.
unfoldable pub replace_from : ℕ → Text → Text → Text → Text
unfolding starts_with
replace_from skip old new [] = []
replace_from zero old new (c ∷ s) =
    let matched = replace_from (length old - 1) old new s in
    let passed = replace_from 0 old new s in
    if starts_with old (c ∷ s) then new ++ matched else c ∷ passed
replace_from (suc skip) old new (c ∷ s) = replace_from skip old new s

-- `(before, after)` of `s.partition(sep)` or `s.split(sep, 1)`, none where `sep` is not in it.
unfoldable pub split_once : Text → Text → Option (Text × Text)
unfolding starts_with
split_once sep [] = none
split_once sep (c ∷ s) =
    let later = split_once sep s in
    if starts_with sep (c ∷ s)
    then some ([], drop (length sep) (c ∷ s))
    else elim later [ none ↦ none | some parts ↦ some (c ∷ parts.0, parts.1) ]

-- `decimal` is `str(n)`; `placeholder` is the match of `\x00QUOTED(\d+)\x00` at the start of a text,
-- as the number in it and the length of the match.
pub record Quoting : Type 0 where
  pub decimal : ℕ → Text
  pub placeholder : Text → Option (ℕ × ℕ)

module _ (qu : Quoting) where
  unfoldable pub placeholder_of : ℕ → Text
  placeholder_of j = 0 ∷ codes "QUOTED" ++ (qu.decimal j ++ (0 ∷ []))

  -- `re.sub(r'"([^"]*)"', …)`: outside of quotes, with `j` parts so far, and inside of one.
  unfoldable mutual
    pub unquoted : ℕ → Text → Text × List Text
    unquoted j [] = ([], [])
    unquoted j (c ∷ s) =
        let inside = quoted j [] s in
        let rest = unquoted j s in if c == b'"' then inside else (c ∷ rest.0, rest.1)

    pub quoted : ℕ → Text → Text → Text × List Text
    quoted j part [] = (b'"' ∷ part, [])
    quoted j part (c ∷ s) =
        let rest = unquoted (suc j) s in
        let inside = quoted j (part ++ (c ∷ [])) s in
        if c == b'"' then (placeholder_of j ++ rest.0, part ∷ rest.1) else inside

  -- `for j, qp in enumerate(quoted_parts): s = s.replace(placeholder, qp)`.
  unfoldable pub restore : ℕ → List Text → Text → Text
  unfolding placeholder_of replace_from
  restore j [] s = s
  restore j (part ∷ parts) s = restore (suc j) parts (replace_from 0 (placeholder_of j) part s)

  abbrev pub flush : Text → List Text → List Text
  flush [] tokens = tokens
  flush (c ∷ s) tokens = (c ∷ s) ∷ tokens

  -- `_tokenize_boolean_terms` for one term: `skip` characters belong to a placeholder, `buffer` is
  -- what has been read. A number without a part raises, which is none.
  unfoldable pub tokens_of : List Text → ℕ → Text → Text → Option (List Text)
  tokens_of parts skip buffer [] = some (flush buffer [])
  tokens_of parts (suc skip) buffer (c ∷ s) = tokens_of parts skip buffer s
  tokens_of parts zero buffer (c ∷ s) =
      let punctuation = tokens_of parts 0 [] s in
      let more = tokens_of parts 0 (buffer ++ (c ∷ [])) s in
      elim (qu.placeholder (c ∷ s)) [
        | some found ↦ elim (get_elem? parts found.0) [
          | none ↦ none
          | some part ↦ elim (tokens_of parts (found.1 - 1) [] s) [
            | none ↦ none
            | some rest ↦ some (flush buffer (part ∷ rest))
          ]
        ]
        | none ↦
            if c == b'(' || c == b')' || c == b'|' || (c == b'!' && is_blank buffer)
            then elim punctuation [
              | none ↦ none
              | some rest ↦ some (flush buffer ((c ∷ []) ∷ rest))
            ]
            else more
      ]

  unfoldable pub tokenize_terms : List Text → List Text → Option (List Text)
  unfolding tokens_of
  tokenize_terms parts [] = some []
  tokenize_terms parts (term ∷ terms) = elim (tokens_of parts 0 [] term) [
    | none ↦ none
    | some tokens ↦ elim (tokenize_terms parts terms) [
      | none ↦ none
      | some rest ↦ some (tokens ++ rest)
    ]
  ]

  -- `[token for token in tokens if token]`.
  unfoldable pub non_blank : List Text → List Text
  non_blank [] = []
  non_blank (t ∷ ts) = let rest = non_blank ts in if is_blank t then rest else t ∷ rest

  unfoldable pub tokenize_boolean_terms : List Text → List Text → Option (List Text)
  unfolding tokenize_terms non_blank
  tokenize_boolean_terms terms parts = elim (tokenize_terms parts terms) [
    | none ↦ none
    | some tokens ↦ some (non_blank tokens)
  ]
