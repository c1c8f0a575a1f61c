-- ===== src/Query/Boolean/Print.antt =====
-- How a Boolean expression is written as tokens, with brackets only where the precedence
-- NOT > AND > OR asks for them. The program has no such printer: this is what its parser is held to.
use quick_find.Prelude.{ℕ, ◌≡◌, ◌≤◌, List, [], ◌∷◌, ◌++◌, suc}
use quick_find.Text.{Text, codes}
use quick_find.Query.Boolean.{
  BooleanExpression, Exprs, term, conj, disj, neg, nil, cons, kind, word,
}

-- Where an expression stands: by itself or in brackets, between bars, or as a factor.
pub data Place : Type 0 where
  alone alternative factor : Place

abbrev pub brackets : List Text → List Text
brackets ts = codes "(" ∷ (ts ++ codes ")" ∷ [])

unfoldable mutual
  pub emit : Place → BooleanExpression → List Text
  emit p (term t) = t ∷ []
  emit p (neg e) = codes "!" ∷ emit factor e
  emit alone (disj es) = emit_alternatives es
  emit _ (disj es) = brackets (emit_alternatives es)
  emit factor (conj es) = brackets (emit_factors es)
  emit _ (conj es) = emit_factors es

  pub emit_alternatives : Exprs → List Text
  emit_alternatives nil = []
  emit_alternatives (cons e es) = emit alternative e ++ emit_more es

  pub emit_more : Exprs → List Text
  emit_more nil = []
  emit_more (cons e es) = codes "|" ∷ (emit alternative e ++ emit_more es)

  pub emit_factors : Exprs → List Text
  emit_factors nil = []
  emit_factors (cons e es) = emit factor e ++ emit_factors es

abbrev size : Exprs → ℕ
size nil = 0
size (cons e es) = suc (size es)

-- What the parser builds: terms are no operators, and AND and OR have two children at least.
abbrev mutual
  pub IsProper : BooleanExpression → Type 0
  IsProper (term t) = kind t ≡ word
  IsProper (neg e) = IsProper e
  IsProper (conj es) = (2 ≤ size es) × AllProper es
  IsProper (disj es) = (2 ≤ size es) × AllProper es

  pub AllProper : Exprs → Type 0
  AllProper nil = Unit
  AllProper (cons e es) = IsProper e × AllProper es
