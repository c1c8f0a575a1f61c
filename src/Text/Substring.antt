-- ===== src/Text/Substring.antt =====
-- `t.startswith(p)` and `p in t`.
use quick_find.Prelude.{
  ℕ, ◌≡◌, refl, ◌↔◌, Bool, true, false, ◌&&◌, ◌||◌, List, [], ◌∷◌, ◌++◌, arith, ◌==◌, ==_iff, ap,
  Bool-cases, inl, inr, sym, subst,
}

-- The prefix comes first.
unfoldable pub starts_with : List ℕ → List ℕ → Bool
starts_with [] t = true
starts_with (c ∷ p) [] = false
starts_with (c ∷ p) (d ∷ t) = c == d && starts_with p t

unfoldable pub contains : List ℕ → List ℕ → Bool
unfolding starts_with
contains p [] = starts_with p []
contains p (d ∷ t) = starts_with p (d ∷ t) || contains p t

starts_with_sound : (p t : List ℕ) → starts_with p t ≡ true → (rest : List ℕ) × (t ≡ p ++ rest)
unfolding starts_with
starts_with_sound [] t h = (t, refl)
starts_with_sound (c ∷ p) [] h = ground arith
starts_with_sound (c ∷ p) (d ∷ t) h =
    let (rest, e) = starts_with_sound p t (ground arith) in (rest, ground (arith, ==_iff c d))

starts_with-append : (p rest : List ℕ) → starts_with p (p ++ rest) ≡ true
unfolding starts_with
starts_with-append [] rest = refl
starts_with-append (c ∷ p) rest = ground (arith, starts_with-append p rest)

pub starts_with_iff :
    (p t : List ℕ) → (starts_with p t ≡ true) ↔ ((rest : List ℕ) × (t ≡ p ++ rest))
starts_with_iff p t = (
  starts_with_sound p t,
  λ (rest, e). subst (λ u. starts_with p u ≡ true) (sym e) (starts_with-append p rest),
)

contains_sound :
    (p t : List ℕ)
    → contains p t ≡ true
    → (before : List ℕ) × (rest : List ℕ) × (t ≡ before ++ (p ++ rest))
unfolding contains
contains_sound p [] h = let (rest, e) = starts_with_sound p [] h in ([], rest, e)
contains_sound p (d ∷ t) h = elim (Bool-cases (starts_with p (d ∷ t))) [
  | inl at ↦ let (rest, e) = starts_with_sound p (d ∷ t) at in ([], rest, e)
  | inr not_at ↦
      let (before, rest, e) = contains_sound p t (ground arith) in
      (d ∷ before, rest, ap (λ u. d ∷ u) e)
]

contains-append : (before p rest : List ℕ) → contains p (before ++ (p ++ rest)) ≡ true
unfolding contains
contains-append [] [] [] = refl
contains-append [] [] (d ∷ rest) = refl
contains-append [] (c ∷ p) rest = ground (arith, starts_with-append p rest)
contains-append (d ∷ before) p rest = ground (arith, contains-append before p rest)

pub contains_iff :
    (p t : List ℕ)
    → (contains p t ≡ true) ↔ ((before : List ℕ) × (rest : List ℕ) × (t ≡ before ++ (p ++ rest)))
contains_iff p t = (
  contains_sound p t,
  λ (before, rest, e). subst (λ u. contains p u ≡ true) (sym e) (contains-append before p rest),
)
