-- ===== src/Query/Boolean/Total.antt =====
-- The fuel that `parse_boolean_expression` hands out is enough for every token list.
use native.Mathlib.Nat.{le_refl}
use quick_find.Prelude.{
  ℕ, zero, suc, ◌+◌, ◌*◌, ◌≤◌, ◌≡◌, List, [], ◌∷◌, none, some, arith, length, ◌≢◌, subst,
}
use quick_find.Text.{Text}
use quick_find.Query.Boolean.View.{view, is_bar, is_bang, is_open, is_close, is_word}
use quick_find.Query.Boolean.{
  kind, Parse, ◌>>=◌, push, skip_close, parse_or, or_loop, parse_and, and_loop, parse_not,
  parse_primary, parse_boolean_expression, fuel_for, close_paren,
}

-- The parse has a result, which leaves at most `n` tokens.
abbrev Leaves : {A : Type 0} → ℕ → Parse A → Type 0
Leaves n none = ⊥
Leaves n (some (a, rest)) = length rest ≤ n

Leaves-weaken : {A : Type 0} (p : Parse A) (n m : ℕ) → Leaves n p → n ≤ m → Leaves m p
Leaves-weaken none n m h le = h
Leaves-weaken (some (a, rest)) n m h le = omega arith

Leaves-bind :
    {A B : Type 0} (p : Parse A) (k : A × List Text → Parse B) (n m : ℕ)
    → Leaves n p
    → ((a : A) (rest : List Text) → length rest ≤ n → Leaves m (k (a, rest)))
    → Leaves m (p >>= k)
Leaves-bind none k n m h after = absurd h
Leaves-bind (some (a, rest)) k n m h after = after a rest h

skip_close-le : (ts : List Text) → length (skip_close ts) ≤ length ts
unfolding skip_close
skip_close-le [] = omega arith
skip_close-le (t ∷ ts) = ground arith

-- What `_parse_not` leaves at most: it consumes a token unless that is ")".
room : List Text → ℕ
room [] = 0
room (t ∷ ts) = elim (kind t) [ close_paren ↦ suc (length ts) | _ ↦ length ts ]

room-le : (ts : List Text) → room ts ≤ length ts
unfolding room
room-le [] = omega arith
room-le (t ∷ ts) = ground arith

mutual
  unfolding parse_or room

  parse_or-Leaves :
      (f : ℕ) (ts : List Text) → 6 * length ts + 5 ≤ f → Leaves (length ts) (parse_or f ts)
  parse_or-Leaves zero ts h = absurd (omega arith)
  parse_or-Leaves (suc f) ts h =
      Leaves-bind (parse_and f ts) _ (length ts) (length ts) (parse_and-Leaves f ts (omega arith))
        λ node rest le.
          Leaves-bind (or_loop f rest) _ (length rest) (length ts)
            (or_loop-Leaves f rest (omega arith)) λ nodes rest' le'. omega arith

  or_loop-Leaves :
      (f : ℕ) (ts : List Text) → 6 * length ts + 1 ≤ f → Leaves (length ts) (or_loop f ts)
  or_loop-Leaves zero ts h = absurd (omega arith)
  or_loop-Leaves (suc f) [] h = omega arith
  or_loop-Leaves (suc f) (t ∷ ts) h = elim (view (kind t)) [
    | is_bar e ↦
        rw (e, or_loop)
          (Leaves-bind (parse_and f ts) _ (length ts) (suc (length ts))
            (parse_and-Leaves f ts (omega arith))
            λ node rest le.
              Leaves-bind (or_loop f rest) _ (length rest) (suc (length ts))
                (or_loop-Leaves f rest (omega arith)) λ nodes rest' le'. omega arith)
    | is_bang e ↦ rw (e, or_loop) (omega arith)
    | is_open e ↦ rw (e, or_loop) (omega arith)
    | is_close e ↦ rw (e, or_loop) (omega arith)
    | is_word e ↦ rw (e, or_loop) (omega arith)
  ]

  parse_and-Leaves :
      (f : ℕ) (ts : List Text) → 6 * length ts + 4 ≤ f → Leaves (length ts) (parse_and f ts)
  parse_and-Leaves zero ts h = absurd (omega arith)
  parse_and-Leaves (suc f) ts h =
      Leaves-bind (and_loop f ts) _ (length ts) (length ts) (and_loop-Leaves f ts (omega arith))
        λ nodes rest le. le

  and_loop-Leaves :
      (f : ℕ) (ts : List Text) → 6 * length ts + 3 ≤ f → Leaves (length ts) (and_loop f ts)
  and_loop-Leaves zero ts h = absurd (omega arith)
  and_loop-Leaves (suc f) [] h = omega arith
  and_loop-Leaves (suc f) (t ∷ ts) h =
      let step : room (t ∷ ts) ≡ length ts
          → Leaves (suc (length ts)) (
              parse_not f (t ∷ ts) >>= λ (node, rest).
              and_loop f rest >>= λ (nodes, rest'). some (push node nodes, rest')) =
        λ r.
          Leaves-bind (parse_not f (t ∷ ts)) _ (length ts) (suc (length ts))
            (rw r at (parse_not-Leaves f (t ∷ ts) (omega arith)))
            λ node rest le.
              Leaves-bind (and_loop f rest) _ (length rest) (suc (length ts))
                (and_loop-Leaves f rest (omega arith)) λ nodes rest' le'. omega arith in
      elim (view (kind t)) [
        | is_bar e ↦ rw (e, and_loop) (omega arith)
        | is_close e ↦ rw (e, and_loop) (omega arith)
        | is_bang e ↦ rw (e, and_loop) (step (rw (e, room)))
        | is_open e ↦ rw (e, and_loop) (step (rw (e, room)))
        | is_word e ↦ rw (e, and_loop) (step (rw (e, room)))
      ]

  parse_not-Leaves :
      (f : ℕ) (ts : List Text) → 6 * length ts + 2 ≤ f → Leaves (room ts) (parse_not f ts)
  parse_not-Leaves zero ts h = absurd (omega arith)
  parse_not-Leaves (suc f) [] h = parse_primary-Leaves f [] (omega arith)
  parse_not-Leaves (suc f) (t ∷ ts) h = elim (view (kind t)) [
    | is_bang e ↦
        rw (e, parse_not, room)
          (Leaves-bind (parse_not f ts) _ (room ts) (length ts)
            (parse_not-Leaves f ts (omega arith)) λ node rest le. omega (arith, room-le ts))
    | is_bar e ↦ rw (e, parse_not) (parse_primary-Leaves f (t ∷ ts) (omega arith))
    | is_open e ↦ rw (e, parse_not) (parse_primary-Leaves f (t ∷ ts) (omega arith))
    | is_close e ↦ rw (e, parse_not) (parse_primary-Leaves f (t ∷ ts) (omega arith))
    | is_word e ↦ rw (e, parse_not) (parse_primary-Leaves f (t ∷ ts) (omega arith))
  ]

  parse_primary-Leaves :
      (f : ℕ) (ts : List Text) → 6 * length ts + 1 ≤ f → Leaves (room ts) (parse_primary f ts)
  parse_primary-Leaves zero ts h = absurd (omega arith)
  parse_primary-Leaves (suc f) [] h = omega arith
  parse_primary-Leaves (suc f) (t ∷ ts) h = elim (view (kind t)) [
    | is_open e ↦
        rw (e, parse_primary, room)
          (Leaves-bind (parse_or f ts) _ (length ts) (length ts)
            (parse_or-Leaves f ts (omega arith)) λ node rest le. omega (arith, skip_close-le rest))
    | is_bar e ↦ rw (e, parse_primary, room) (omega arith)
    | is_bang e ↦ rw (e, parse_primary, room) (omega arith)
    | is_close e ↦ rw (e, parse_primary, room) (omega arith)
    | is_word e ↦ rw (e, parse_primary, room) (omega arith)
  ]

parse_or-ne-none : (f : ℕ) (ts : List Text) → 6 * length ts + 5 ≤ f → parse_or f ts ≢ none
parse_or-ne-none f ts h e = subst (λ p. Leaves (length ts) p) e (parse_or-Leaves f ts h)

-- The Boolean parser ends on every list of tokens: the fuel that `parse_boolean_expression` hands
-- out, six units for a token and five more, never runs out.
pub parse_boolean_expression-ne-none : (ts : List Text) → parse_boolean_expression ts ≢ none
unfolding parse_boolean_expression
parse_boolean_expression-ne-none ts e =
    ground (arith, parse_or-ne-none (fuel_for ts) ts (le_refl (fuel_for ts)))
