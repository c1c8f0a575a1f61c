-- ===== src/Query/Boolean/RoundTrip.antt =====
-- What is printed with the precedence NOT > AND > OR parses back.
use quick_find.Prelude.{
  ℕ, zero, suc, ◌+◌, ◌*◌, ◌≤◌, ◌≡◌, refl, true, ◌≢◌, ◌⊎◌, inl, inr, List, [], ◌∷◌, ◌++◌,
  append_assoc, append-nil, some, arith, length, length-append, subst, sym,
}
use quick_find.Text.{Text, codes}
use quick_find.Query.Boolean.View.{view, is_bar, is_bang, is_open, is_close, is_word}
use quick_find.Query.Boolean.Print.{
  emit, emit_alternatives, emit_more, emit_factors, alone, alternative, factor, brackets, IsProper,
  AllProper,
}
use quick_find.Query.Boolean.{
  BooleanExpression, Exprs, term, conj, disj, neg, nil, cons, kind, bar, close_paren, word, push,
  gather, skip_close, parse_or, or_loop, parse_and, and_loop, parse_not, parse_primary,
  has_operator, fuel_for, parse_boolean_expression,
}

-- Where `_parse_or` stops, and where `_parse_and` stops.
abbrev Stops : List Text → Type 0
Stops [] = Unit
Stops (t ∷ ts) = kind t ≡ close_paren

abbrev Ends : List Text → Type 0
Ends [] = Unit
Ends (t ∷ ts) = (kind t ≡ close_paren) ⊎ (kind t ≡ bar)

-- Tokens at which the loop of `_parse_and` goes on.
abbrev Starts : List Text → Type 0
Starts [] = ⊥
Starts (t ∷ ts) = (kind t ≢ bar) × (kind t ≢ close_paren)

module _ (e : BooleanExpression) (ts : List Text) where
  abbrev ReadsNot : Type 0
  ReadsNot =
      (f : ℕ) (rest : List Text)
      → 6 * length ts + 2 ≤ f
      → parse_not f (ts ++ rest) ≡ some (some e, rest)

  abbrev ReadsAnd : Type 0
  ReadsAnd =
      (f : ℕ) (rest : List Text)
      → Ends rest
      → 6 * length ts + 4 ≤ f
      → parse_and f (ts ++ rest) ≡ some (some e, rest)

  abbrev ReadsOr : Type 0
  ReadsOr =
      (f : ℕ) (rest : List Text)
      → Stops rest
      → 6 * length ts + 5 ≤ f
      → parse_or f (ts ++ rest) ≡ some (some e, rest)

module _ (es : Exprs) (ts : List Text) where
  abbrev ReadsFactors : Type 0
  ReadsFactors =
      (f : ℕ) (rest : List Text)
      → Ends rest
      → 6 * length ts + 3 ≤ f
      → and_loop f (ts ++ rest) ≡ some (es, rest)

  abbrev ReadsMore : Type 0
  ReadsMore =
      (f : ℕ) (rest : List Text)
      → Stops rest
      → 6 * length ts + 1 ≤ f
      → or_loop f (ts ++ rest) ≡ some (es, rest)

Stops→Ends : (ts : List Text) → Stops ts → Ends ts
Stops→Ends [] h = tt
Stops→Ends (t ∷ ts) h = inl h

factors_nil : ReadsFactors nil []
unfolding parse_or
factors_nil zero rest h b = absurd (omega arith)
factors_nil (suc f) [] h b = refl
factors_nil (suc f) (t ∷ rest) (inl e) b = rw (e, and_loop)
factors_nil (suc f) (t ∷ rest) (inr e) b = rw (e, and_loop)

more_nil : ReadsMore nil []
unfolding parse_or
more_nil zero rest h b = absurd (omega arith)
more_nil (suc f) [] h b = refl
more_nil (suc f) (t ∷ rest) e b = rw (e, or_loop)

and_step :
    (t : Text) (ts r r' : List Text) (e : BooleanExpression) (es : Exprs) (f : ℕ)
    → kind t ≢ bar
    → kind t ≢ close_paren
    → parse_not f (t ∷ ts) ≡ some (some e, r)
    → and_loop f r ≡ some (es, r')
    → and_loop (suc f) (t ∷ ts) ≡ some (cons e es, r')
unfolding parse_or push
and_step t ts r r' e es f not_bar not_close one more = elim (view (kind t)) [
  | is_bar k ↦ absurd (not_bar k)
  | is_close k ↦ absurd (not_close k)
  | is_bang k ↦ rw (k, and_loop) (simp (one, more))
  | is_open k ↦ rw (k, and_loop) (simp (one, more))
  | is_word k ↦ rw (k, and_loop) (simp (one, more))
]

factors_cons :
    (e : BooleanExpression) (es : Exprs) (ts us : List Text)
    → Starts ts
    → ReadsNot e ts
    → ReadsFactors es us
    → ReadsFactors (cons e es) (ts ++ us)
factors_cons e es [] us s rn rf f rest h b = absurd s
factors_cons e es (t ∷ ts) us s rn rf zero rest h b = absurd (omega arith)
factors_cons e es (t ∷ ts) us s rn rf (suc f) rest h b =
    subst (λ u. and_loop (suc f) u ≡ some (cons e es, rest)) (sym (append_assoc (t ∷ ts) us rest))
      (and_step t (ts ++ (us ++ rest)) (us ++ rest) rest e es f s.0 s.1
        (rn f (us ++ rest) (omega (arith, length-append ts us)))
        (rf f rest h (omega (arith, length-append ts us))))

and_of_factors :
    (e : BooleanExpression) (ts : List Text) → ReadsFactors (cons e nil) ts → ReadsAnd e ts
unfolding parse_or gather
and_of_factors e ts rf zero rest h b = absurd (omega arith)
and_of_factors e ts rf (suc f) rest h b = simp (rf f rest h (omega arith))

conj_of_factors :
    (e e' : BooleanExpression) (es : Exprs) (ts : List Text)
    → ReadsFactors (cons e (cons e' es)) ts
    → ReadsAnd (conj (cons e (cons e' es))) ts
unfolding parse_or gather
conj_of_factors e e' es ts rf zero rest h b = absurd (omega arith)
conj_of_factors e e' es ts rf (suc f) rest h b = simp (rf f rest h (omega arith))

or_of_and : (e : BooleanExpression) (ts : List Text) → ReadsAnd e ts → ReadsOr e ts
unfolding parse_or gather push
or_of_and e ts ra zero rest h b = absurd (omega arith)
or_of_and e ts ra (suc f) rest h b =
    simp (ra f rest (Stops→Ends rest h) (omega arith), more_nil f rest h (omega arith))

disj_of_more :
    (e e' : BooleanExpression) (es : Exprs) (ts us : List Text)
    → ReadsAnd e ts
    → ((rest : List Text) → Stops rest → Ends (us ++ rest))
    → ReadsMore (cons e' es) us
    → ReadsOr (disj (cons e (cons e' es))) (ts ++ us)
unfolding parse_or gather push
disj_of_more e e' es ts us ra opens rm zero rest h b = absurd (omega arith)
disj_of_more e e' es ts us ra opens rm (suc f) rest h b = rw (append_assoc ts us rest) (
    simp (
      ra f (us ++ rest) (opens rest h) (omega (arith, length-append ts us)),
      rm f rest h (omega (arith, length-append ts us)),
    ))

more_cons :
    (e : BooleanExpression) (es : Exprs) (ts us : List Text)
    → ReadsAnd e ts
    → ((rest : List Text) → Stops rest → Ends (us ++ rest))
    → ReadsMore es us
    → ReadsMore (cons e es) (codes "|" ∷ (ts ++ us))
unfolding parse_or push kind
more_cons e es ts us ra opens rm zero rest h b = absurd (omega arith)
more_cons e es ts us ra opens rm (suc f) rest h b = rw (append_assoc ts us rest) (
    simp (
      ra f (us ++ rest) (opens rest h) (omega (arith, length-append ts us)),
      rm f rest h (omega (arith, length-append ts us)),
    ))

primary_word :
    (t : Text) (rest : List Text) (f : ℕ)
    → kind t ≡ word
    → parse_primary (suc f) (t ∷ rest) ≡ some (some (term t), rest)
unfolding parse_or
primary_word t rest f k = rw (k, parse_primary)

not_term : (t : Text) → kind t ≡ word → ReadsNot (term t) (t ∷ [])
unfolding parse_or
not_term t k zero rest b = absurd (omega arith)
not_term t k (suc zero) rest b = absurd (omega arith)
not_term t k (suc (suc f)) rest b = rw (k, parse_not) (primary_word t rest f k)

not_neg :
    (e : BooleanExpression) (ts : List Text) → ReadsNot e ts → ReadsNot (neg e) (codes "!" ∷ ts)
unfolding parse_or kind
not_neg e ts rn zero rest b = absurd (omega arith)
not_neg e ts rn (suc f) rest b = simp (rn f rest (omega arith))

not_brackets : (e : BooleanExpression) (ts : List Text) → ReadsOr e ts → ReadsNot e (brackets ts)
unfolding parse_or kind skip_close
not_brackets e ts ro zero rest b = absurd (omega arith)
not_brackets e ts ro (suc zero) rest b = absurd (omega arith)
not_brackets e ts ro (suc (suc f)) rest b =
    rw (append_assoc ts (codes ")" ∷ []) rest)
      (simp (ro f (codes ")" ∷ rest) refl (omega (arith, length-append ts (codes ")" ∷ [])))))

abbrev ReadsExpr : BooleanExpression → Type 0
ReadsExpr e =
    ReadsNot e (emit factor e) × ReadsAnd e (emit alternative e) × ReadsOr e (emit alone e)

abbrev ReadsExprs : Exprs → Type 0
ReadsExprs es = ReadsFactors es (emit_factors es) × ReadsMore es (emit_more es)

Starts-emit : (e : BooleanExpression) → IsProper e → Starts (emit factor e)
unfolding emit kind
Starts-emit (term t) h = (λ e. cc, λ e. cc)
Starts-emit (neg e) h = (λ e. cc, λ e. cc)
Starts-emit (conj es) h = (λ e. cc, λ e. cc)
Starts-emit (disj es) h = (λ e. cc, λ e. cc)

Ends-emit_more : (es : Exprs) (rest : List Text) → Stops rest → Ends (emit_more es ++ rest)
unfolding emit kind
Ends-emit_more nil rest h = Stops→Ends rest h
Ends-emit_more (cons e es) rest h = inr refl

-- An expression that stands alone and between bars as it stands as a factor.
alike :
    (e : BooleanExpression) (ts : List Text)
    → ReadsNot e ts
    → Starts ts
    → ReadsNot e ts × ReadsAnd e ts × ReadsOr e ts
alike e ts rn s =
    let ra : ReadsAnd e ts =
      subst (λ u. ReadsAnd e u) (append-nil ts)
        (and_of_factors e (ts ++ []) (factors_cons e nil ts [] s rn factors_nil)) in
    (rn, ra, or_of_and e ts ra)

bracketed : (e : BooleanExpression) (ts : List Text) → Starts (brackets ts)
unfolding kind
bracketed e ts = (λ e. cc, λ e. cc)

-- An AND, from its factors, and an OR, from its alternatives; brackets make either a factor.
conj_places :
    (es : Exprs) → IsProper (conj es) → ReadsFactors es (emit_factors es) → ReadsExpr (conj es)
unfolding emit
conj_places nil h rf = absurd (omega arith)
conj_places (cons e nil) h rf = absurd (omega arith)
conj_places (cons e (cons e' es)) h rf =
    let ts = emit_factors (cons e (cons e' es)) in
    let ra : ReadsAnd (conj (cons e (cons e' es))) ts = conj_of_factors e e' es ts rf in
    let ro : ReadsOr (conj (cons e (cons e' es))) ts = or_of_and _ ts ra in
    (not_brackets _ ts ro, ra, ro)

disj_places :
    (e e' : BooleanExpression) (es : Exprs)
    → ReadsAnd e (emit alternative e)
    → ReadsMore (cons e' es) (emit_more (cons e' es))
    → ReadsExpr (disj (cons e (cons e' es)))
unfolding emit
disj_places e e' es ra rm =
    let ts = emit_alternatives (cons e (cons e' es)) in
    let d = disj (cons e (cons e' es)) in
    let ro : ReadsOr d ts =
      disj_of_more e e' es (emit alternative e) (emit_more (cons e' es)) ra
        (Ends-emit_more (cons e' es)) rm in
    let (rn, ra', ro') = alike d (brackets ts) (not_brackets d ts ro) (bracketed d ts) in
    (rn, ra', ro)

mutual
  unfolding emit

  reads_expr : (e : BooleanExpression) → IsProper e → ReadsExpr e
  reads_expr (term t) h = alike (term t) (t ∷ []) (not_term t h) (Starts-emit (term t) h)
  reads_expr (neg e) h =
      alike (neg e) (codes "!" ∷ emit factor e) (not_neg e (emit factor e) (reads_expr e h).0)
        (Starts-emit (neg e) h)
  reads_expr (conj es) h = conj_places es h (reads_exprs es h.1).0
  reads_expr (disj nil) h = absurd (omega arith)
  reads_expr (disj (cons e nil)) h = absurd (omega arith)
  reads_expr (disj (cons e (cons e' es))) h =
      disj_places e e' es (reads_expr e h.1.0).1 (reads_exprs (cons e' es) h.1.1).1

  reads_exprs : (es : Exprs) → AllProper es → ReadsExprs es
  reads_exprs nil h = (factors_nil, more_nil)
  reads_exprs (cons e es) h = (
    factors_cons e es (emit factor e) (emit_factors es) (Starts-emit e h.0) (reads_expr e h.0).0
        (reads_exprs es h.1).0,
    more_cons e es (emit alternative e) (emit_more es) (reads_expr e h.0).1 (Ends-emit_more es)
        (reads_exprs es h.1).1,
  )

-- An expression that has an operator, printed with brackets only where NOT > AND > OR asks for
-- them, is parsed back to itself.
pub parse_boolean_expression-emit :
    (e : BooleanExpression)
    → IsProper e
    → has_operator (emit alone e) ≡ true
    → parse_boolean_expression (emit alone e) ≡ some (some e)
unfolding parse_boolean_expression
parse_boolean_expression-emit e h op =
    let read : parse_or (fuel_for (emit alone e)) (emit alone e) ≡ some (some e, []) =
      subst (λ u. parse_or (fuel_for (emit alone e)) u ≡ some (some e, []))
        (append-nil (emit alone e))
        ((reads_expr e h).2 (fuel_for (emit alone e)) [] tt (omega arith)) in
    simp (op, read)

has_operator-close : (ts rest : List Text) → has_operator (ts ++ codes ")" ∷ rest) ≡ true
unfolding has_operator
has_operator-close [] rest = refl
has_operator-close (t ∷ ts) rest = ground (arith, has_operator-close ts rest)

-- After a whole expression, a closing bracket without its opening one ends the query: the
-- expression is returned, and what follows the bracket is dropped, whatever it is.
pub parse_boolean_expression-unmatched :
    (e : BooleanExpression) (rest : List Text)
    → IsProper e
    → parse_boolean_expression (emit alone e ++ codes ")" ∷ rest) ≡ some (some e)
unfolding parse_boolean_expression kind
parse_boolean_expression-unmatched e rest h =
    let ts = emit alone e ++ codes ")" ∷ rest in
    simp (
      has_operator-close (emit alone e) rest,
      (reads_expr e h).2 (fuel_for ts) (codes ")" ∷ rest) refl
          (omega (arith, length-append (emit alone e) (codes ")" ∷ rest))),
    )
