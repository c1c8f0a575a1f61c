-- ===== src/Query/Boolean/Legacy.antt =====
-- core/search.py, what a Boolean expression matches (`_compile_boolean_node`), the terms that it
-- holds, and the flat fields that `_legacy_boolean_fields` extracts from it.
use quick_find.Prelude.{
  ◌≡◌, refl, ◌≢◌, Bool, true, false, not, ◌&&◌, ◌||◌, List, [], ◌∷◌, ◌++◌, Option, none, some,
  arith, any, all, if◌then◌else◌,
}
use quick_find.Text.{Text}
use quick_find.Query.Boolean.{BooleanExpression, Exprs, term, conj, disj, neg, nil, cons}

-- `make t text` is the matcher that `_make_matcher` gives for the term `t`, applied to `text`.
module _ (make : Text → Text → Bool) where
  unfoldable mutual
    pub compile_boolean_node : BooleanExpression → Text → Bool
    compile_boolean_node (term t) text = make t text
    compile_boolean_node (neg e) text = not (compile_boolean_node e text)
    compile_boolean_node (disj es) text = any_child es text
    compile_boolean_node (conj es) text = all_children es text

    pub any_child : Exprs → Text → Bool
    any_child nil text = false
    any_child (cons e es) text = compile_boolean_node e text || any_child es text

    pub all_children : Exprs → Text → Bool
    all_children nil text = true
    all_children (cons e es) text = compile_boolean_node e text && all_children es text

unfoldable mutual
  pub boolean_expression_terms : BooleanExpression → List Text
  boolean_expression_terms (term t) = t ∷ []
  boolean_expression_terms (neg e) = boolean_expression_terms e
  boolean_expression_terms (conj es) = children_terms es
  boolean_expression_terms (disj es) = children_terms es

  pub children_terms : Exprs → List Text
  children_terms nil = []
  children_terms (cons e es) = boolean_expression_terms e ++ children_terms es

-- `positives` and `excludes`, to which `collect_and_terms` appends.
abbrev pub Collected : Type 0
Collected = List Text × List Text

-- `all(...)` stops at the first child that is refused.
unfoldable pub after_child : Bool × Collected → (Collected → Bool × Collected) → Bool × Collected
after_child (true, s) rest = rest s
after_child (false, s) rest = (false, s)

after_child-eq-true :
    (r : Bool × Collected) (rest : Collected → Bool × Collected) {s' : Collected}
    → after_child r rest ≡ (true, s')
    → (s : Collected) × (r ≡ (true, s)) × (rest s ≡ (true, s'))
unfolding after_child
after_child-eq-true (true, s) rest h = (s, refl, h)
after_child-eq-true (false, s) rest h = cc

unfoldable mutual
  pub collect_and_terms : BooleanExpression → Collected → Bool × Collected
  collect_and_terms (term t) (positives, excludes) = (true, (positives ++ t ∷ [], excludes))
  collect_and_terms (neg (term t)) (positives, excludes) = (true, (positives, excludes ++ t ∷ []))
  collect_and_terms (neg e) s = (false, s)
  collect_and_terms (conj es) s = collect_all es s
  collect_and_terms (disj es) s = (false, s)

  pub collect_all : Exprs → Collected → Bool × Collected
  collect_all nil s = (true, s)
  collect_all (cons e es) s = after_child (collect_and_terms e s) (λ s'. collect_all es s')

unfoldable pub extend_group : List Text → List Text → (List Text → List Text) → List Text
extend_group [] terms rest = []
extend_group (t ∷ ts) terms rest = rest (terms ++ t ∷ ts)

extend_group-ne :
    (us ts : List Text) (rest : List Text → List Text)
    → extend_group us ts rest ≢ []
    → (us ≢ []) × (extend_group us ts rest ≡ rest (ts ++ us))
unfolding extend_group
extend_group-ne [] ts rest h = absurd (h refl)
extend_group-ne (u ∷ us) ts rest h = (λ e. cc, refl)

-- `_legacy_or_group`: the terms of an OR of terms, or nothing.
unfoldable mutual
  pub legacy_or_group : BooleanExpression → List Text
  legacy_or_group (term t) = t ∷ []
  legacy_or_group (disj es) = group_terms es []
  legacy_or_group (conj es) = []
  legacy_or_group (neg e) = []

  pub group_terms : Exprs → List Text → List Text
  group_terms nil terms = terms
  group_terms (cons e es) terms = extend_group (legacy_or_group e) terms (λ ts. group_terms es ts)

-- `(positives, excludes, or_groups)`.
abbrev pub Fields : Type 0
Fields = List Text × List Text × List (List Text)

unfoldable pub or_fields : List Text → Fields
or_fields [] = ([], [], [])
or_fields (t ∷ ts) = ([], [], (t ∷ ts) ∷ [])

unfoldable pub legacy_boolean_fields : Option BooleanExpression → Fields
unfolding collect_and_terms or_fields legacy_or_group
legacy_boolean_fields none = ([], [], [])
legacy_boolean_fields (some e) =
    let (done, (positives, excludes)) = collect_and_terms e ([], []) in
    if done then (positives, excludes, []) else or_fields (legacy_or_group e)

module _ (make : Text → Text → Bool) (text : Text) where
  -- What the fields ask of a text: each positive term, no excluded term, a term of each group.
  abbrev pub meets : Fields → Bool
  meets (positives, excludes, groups) =
      all (λ t. make t text) positives
      && not (any (λ t. make t text) excludes)
      && all (λ g. any (λ t. make t text) g) groups

  abbrev meets_collected : Collected → Bool
  meets_collected (positives, excludes) =
      all (λ t. make t text) positives && not (any (λ t. make t text) excludes)

  all-snoc :
      (ts : List Text) (t : Text)
      → all (λ u. make u text) (ts ++ t ∷ []) ≡ (all (λ u. make u text) ts && make t text)
  all-snoc [] t = ground arith
  all-snoc (u ∷ ts) t = ground (arith, all-snoc ts t)

  any-append :
      (ts us : List Text)
      → any (λ u. make u text) (ts ++ us) ≡ (any (λ u. make u text) ts || any (λ u. make u text) us)
  any-append [] us = refl
  any-append (u ∷ ts) us = ground (arith, any-append ts us)

  mutual
    unfolding collect_and_terms compile_boolean_node after_child

    -- A collection that is not given up asks, beyond what was collected before, what the
    -- expression asks.
    collect_and_terms-meets :
        (e : BooleanExpression) (s s' : Collected)
        → collect_and_terms e s ≡ (true, s')
        → meets_collected s' ≡ (meets_collected s && compile_boolean_node make e text)
    collect_and_terms-meets (term t) (p, x) (p', x') h = ground (arith, all-snoc p t)
    collect_and_terms-meets (neg (term t)) (p, x) (p', x') h = ground (arith, any-append x (t ∷ []))
    collect_and_terms-meets (neg e) (p, x) (p', x') h = cc
    collect_and_terms-meets (conj es) s s' h = collect_all-meets es s s' h
    collect_and_terms-meets (disj es) s s' h = cc

    collect_all-meets :
        (es : Exprs) (s s' : Collected)
        → collect_all es s ≡ (true, s')
        → meets_collected s' ≡ (meets_collected s && all_children make es text)
    collect_all-meets nil (p, x) (p', x') h = ground arith
    collect_all-meets (cons e es) s s' h =
        let (s₁, first, others) =
          after_child-eq-true (collect_and_terms e s) (λ t. collect_all es t) h in
        ground (arith, collect_and_terms-meets e s s₁ first, collect_all-meets es s₁ s' others)

  mutual
    unfolding legacy_or_group extend_group compile_boolean_node

    -- A group that is not empty has a term that matches exactly when the expression does.
    legacy_or_group-any :
        (e : BooleanExpression)
        → legacy_or_group e ≢ []
        → any (λ t. make t text) (legacy_or_group e) ≡ compile_boolean_node make e text
    legacy_or_group-any (term t) h = ground arith
    legacy_or_group-any (disj es) h = group_terms-any es [] h
    legacy_or_group-any (conj es) h = absurd (h refl)
    legacy_or_group-any (neg e) h = absurd (h refl)

    group_terms-any :
        (es : Exprs) (ts : List Text)
        → group_terms es ts ≢ []
        → any (λ t. make t text) (group_terms es ts)
          ≡ (any (λ t. make t text) ts || any_child make es text)
    group_terms-any nil ts h = ground arith
    group_terms-any (cons e es) ts h =
        let (some_terms, more) =
          extend_group-ne (legacy_or_group e) ts (λ us. group_terms es us) h in
        rw more (
          ground (
            arith,
            any-append ts (legacy_or_group e),
            legacy_or_group-any e some_terms,
            group_terms-any es (ts ++ legacy_or_group e) (rw more at h),
          ))

  -- If an expression has flat fields, they match the texts that the expression matches.
  pub legacy_boolean_fields-meets :
      (e : BooleanExpression)
      → legacy_boolean_fields (some e) ≢ ([], [], [])
      → meets (legacy_boolean_fields (some e)) ≡ compile_boolean_node make e text
  unfolding legacy_boolean_fields
  legacy_boolean_fields-meets e h = go (collect_and_terms e ([], [])) refl (legacy_or_group e) refl
    where
      go :
          (r : Bool × Collected)
          → collect_and_terms e ([], []) ≡ r
          → (g : List Text) → legacy_or_group e ≡ g
          → meets (legacy_boolean_fields (some e)) ≡ compile_boolean_node make e text
      go (true, (p, x)) c g eg = ground (arith, collect_and_terms-meets e ([], []) (p, x) c)
      go (false, (p, x)) c [] eg = absurd (h (simp (c, eg)))
      go (false, (p, x)) c (t ∷ g) eg =
          let any_of = legacy_or_group-any e (λ n. cc (n, eg)) in ground (arith, any_of)
