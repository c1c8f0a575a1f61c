-- ===== src/Query/Boolean.antt =====
-- core/search.py, `BooleanExpression` and `_BooleanParser`: recursive descent over Boolean tokens.
-- The parser's position in its token list is the list of the tokens that are left.
mod View
pub mod Total
pub mod Print
pub mod RoundTrip
pub mod Legacy
use quick_find.Prelude.{
  ℕ, zero, suc, ◌+◌, ◌*◌, ◌≡◌, refl, Bool, true, false, ◌||◌, List, [], ◌∷◌, ◌==◌, if◌then◌else◌,
  Option, none, some, length,
}
use quick_find.Text.{Text, codes}

-- One constructor for each value of `op`. `_BooleanParser` gives NOT one child, and AND and OR a
-- tuple of children.
mutual
  pub data BooleanExpression : Type 0 where
    term : Text → BooleanExpression
    conj : Exprs → BooleanExpression
    disj : Exprs → BooleanExpression
    neg : BooleanExpression → BooleanExpression

  pub data Exprs : Type 0 where
    nil : Exprs
    cons : BooleanExpression → Exprs → Exprs

-- What the parser tells apart by comparing a token with "|", "!", "(" and ")".
pub data Kind : Type 0 where
  bar bang open_paren close_paren word : Kind

unfoldable pub kind : Text → Kind
kind (c ∷ []) =
    if c == b'|'
    then bar
    else if c == b'!'
    then bang
    else if c == b'('
    then open_paren
    else if c == b')'
    then close_paren
    else word
kind _ = word

-- `nodes.append(node)` for a node that is not None.
unfoldable pub push : Option BooleanExpression → Exprs → Exprs
push none es = es
push (some e) es = cons e es

-- What a list of nodes becomes: None, the single node, or a node over them all.
unfoldable pub gather : (Exprs → BooleanExpression) → Exprs → Option BooleanExpression
gather op nil = none
gather op (cons e nil) = some e
gather op (cons e (cons e' es)) = some (op (cons e (cons e' es)))

abbrev pub negated : Option BooleanExpression → BooleanExpression
negated none = term (codes "!")
negated (some e) = neg e

-- A parse consumes tokens. `none` outside means that the fuel ran out.
abbrev pub Parse : Type 0 → Type 0
Parse A = Option (A × List Text)

infixl 5 ◌>>=◌
abbrev pub ◌>>=◌ : {A B : Type 0} → Parse A → (A × List Text → Parse B) → Parse B
none >>= k = none
some r >>= k = k r

-- `if self._peek() == ')': self._pos += 1`.
unfoldable pub skip_close : List Text → List Text
unfolding kind
skip_close [] = []
skip_close (t ∷ ts) = elim (kind t) [ close_paren ↦ ts | _ ↦ t ∷ ts ]

unfoldable mutual
  pub parse_or : ℕ → List Text → Parse (Option BooleanExpression)
  parse_or zero ts = none
  parse_or (suc f) ts = parse_and f ts >>= λ (node, rest).
      or_loop f rest >>= λ (nodes, rest'). some (gather disj (push node nodes), rest')

  -- `while self._peek() == '|'`.
  pub or_loop : ℕ → List Text → Parse Exprs
  or_loop zero ts = none
  or_loop (suc f) [] = some (nil, [])
  or_loop (suc f) (t ∷ ts) = elim (kind t) [
    | bar ↦ parse_and f ts >>= λ (node, rest).
        or_loop f rest >>= λ (nodes, rest'). some (push node nodes, rest')
    | _ ↦ some (nil, t ∷ ts)
  ]

  pub parse_and : ℕ → List Text → Parse (Option BooleanExpression)
  parse_and zero ts = none
  parse_and (suc f) ts = and_loop f ts >>= λ (nodes, rest). some (gather conj nodes, rest)

  -- `while self._peek() is not None and self._peek() not in {')', '|'}`.
  pub and_loop : ℕ → List Text → Parse Exprs
  and_loop zero ts = none
  and_loop (suc f) [] = some (nil, [])
  and_loop (suc f) (t ∷ ts) = elim (kind t) [
    | close_paren ↦ some (nil, t ∷ ts)
    | bar ↦ some (nil, t ∷ ts)
    | _ ↦ parse_not f (t ∷ ts) >>= λ (node, rest).
        and_loop f rest >>= λ (nodes, rest'). some (push node nodes, rest')
  ]

  pub parse_not : ℕ → List Text → Parse (Option BooleanExpression)
  parse_not zero ts = none
  parse_not (suc f) [] = parse_primary f []
  parse_not (suc f) (t ∷ ts) = elim (kind t) [
    | bang ↦ parse_not f ts >>= λ (node, rest). some (some (negated node), rest)
    | _ ↦ parse_primary f (t ∷ ts)
  ]

  pub parse_primary : ℕ → List Text → Parse (Option BooleanExpression)
  parse_primary zero ts = none
  parse_primary (suc f) [] = some (none, [])
  parse_primary (suc f) (t ∷ ts) = elim (kind t) [
    | open_paren ↦ parse_or f ts >>= λ (node, rest). some (node, skip_close rest)
    | close_paren ↦ some (none, t ∷ ts)
    | _ ↦ some (some (term t), ts)
  ]

-- Six units for each token, and five for the calls from `_parse_or` down to `_parse_primary`.
abbrev pub fuel_for : List Text → ℕ
fuel_for ts = 6 * length ts + 5

-- `any(token in {'|', '!', '(', ')'} for token in tokens)`.
unfoldable pub has_operator : List Text → Bool
unfolding kind
has_operator [] = false
has_operator (t ∷ ts) = elim (kind t) [ word ↦ has_operator ts | _ ↦ true ]

-- `_parse_boolean_expression`: what is left when `parse` returns is not looked at.
unfoldable pub parse_boolean_expression : List Text → Option (Option BooleanExpression)
unfolding has_operator parse_or
parse_boolean_expression ts =
    if has_operator ts
    then elim (parse_or (fuel_for ts) ts) [ none ↦ none | some (e, rest) ↦ some e ]
    else some none
