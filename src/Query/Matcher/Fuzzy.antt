-- ===== src/Query/Matcher/Fuzzy.antt =====
-- Fuzzy matching decides whether the pattern is a subsequence of the text.
use quick_find.Prelude.{
  ℕ, ◌≡◌, ◌↔◌, inl, inr, refl, true, some, [], ◌∷◌, arith, ◌==◌, ==_iff, Bool-cases, Option-cases,
  sym, subst,
}
use quick_find.Text.{Text}
use quick_find.Query.Matcher.{advance, fuzzy_match}

pub data IsSubsequence : Text → Text → Type 0 where
  done : {t : Text} → IsSubsequence [] t
  skip : {p t : Text} (d : ℕ) → IsSubsequence p t → IsSubsequence p (d ∷ t)
  pick : {p t : Text} (c d : ℕ) → c ≡ d → IsSubsequence p t → IsSubsequence (c ∷ p) (d ∷ t)

drop_first : {c : ℕ} {p t : Text} → IsSubsequence (c ∷ p) t → IsSubsequence p t
drop_first (skip d s) = skip d (drop_first s)
drop_first (pick c d e s) = skip d s

-- What stands behind the first `c` is as good as what stands behind another.
advance-some :
    (c : ℕ) (p t rest : Text)
    → advance c t ≡ some rest
    → IsSubsequence p rest
    → IsSubsequence (c ∷ p) t
unfolding advance
advance-some c p [] rest h s = cc
advance-some c p (d ∷ t) rest h s = elim (Bool-cases (d == c)) [
  | inl here ↦
      let is : t ≡ rest = ground arith in
      pick c d (sym ((==_iff d c).0 here)) (subst (λ r. IsSubsequence p r) (sym is) s)
  | inr further ↦ skip d (advance-some c p t rest (ground arith) s)
]

advance-greedy :
    (c : ℕ) (p t : Text)
    → IsSubsequence (c ∷ p) t
    → (rest : Text) × (advance c t ≡ some rest) × IsSubsequence p rest
unfolding advance
advance-greedy c p [] h = elim h [ ]
advance-greedy c p (d ∷ t) (skip _ s) = elim (Bool-cases (d == c)) [
  | inl here ↦ (t, rw here, drop_first s)
  | inr further ↦
      let (rest, found, s') = advance-greedy c p t s in (rest, rw (further, advance) found, s')
]
advance-greedy c p (d ∷ t) (pick _ _ e s) = (t, rw ((==_iff d c).1 (sym e)), s)

fuzzy_match_sound : (t p : Text) → fuzzy_match t p ≡ true → IsSubsequence p t
unfolding fuzzy_match
fuzzy_match_sound t [] h = done
fuzzy_match_sound t (c ∷ p) h = elim (Option-cases (advance c t)) [
  | inl missing ↦ cc (rw (missing, fuzzy_match) at h)
  | inr (rest, found) ↦
      advance-some c p t rest found (fuzzy_match_sound rest p (rw (found, fuzzy_match) at h))
]

fuzzy_match_complete : (t p : Text) → IsSubsequence p t → fuzzy_match t p ≡ true
unfolding fuzzy_match
fuzzy_match_complete t [] s = refl
fuzzy_match_complete t (c ∷ p) s =
    let (rest, found, s') = advance-greedy c p t s in
    rw (found, fuzzy_match) (fuzzy_match_complete rest p s')

-- A text matches a pattern fuzzily exactly when the characters of the pattern stand in it in their
-- order, with any others between them: that the iterator takes the first place for each character
-- loses no match.
pub fuzzy_match_iff : (t p : Text) → (fuzzy_match t p ≡ true) ↔ IsSubsequence p t
fuzzy_match_iff t p = (fuzzy_match_sound t p, fuzzy_match_complete t p)
