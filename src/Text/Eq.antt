-- ===== src/Text/Eq.antt =====
-- `==` on texts.
use quick_find.Prelude.{
  ℕ, ◌≡◌, refl, ◌↔◌, Bool, true, false, ◌&&◌, List, [], ◌∷◌, arith, ◌==◌, ==_iff, subst,
}

unfoldable pub text_eq : List ℕ → List ℕ → Bool
text_eq [] [] = true
text_eq [] (d ∷ t) = false
text_eq (c ∷ s) [] = false
text_eq (c ∷ s) (d ∷ t) = c == d && text_eq s t

sound : (s t : List ℕ) → text_eq s t ≡ true → s ≡ t
unfolding text_eq
sound [] [] h = refl
sound [] (d ∷ t) h = ground arith
sound (c ∷ s) [] h = ground arith
sound (c ∷ s) (d ∷ t) h = ground (arith, sound s t, ==_iff c d)

pub text_eq_refl : (s : List ℕ) → text_eq s s ≡ true
unfolding text_eq
text_eq_refl [] = refl
text_eq_refl (c ∷ s) = ground (arith, text_eq_refl s)

pub text_eq_iff : (s t : List ℕ) → (text_eq s t ≡ true) ↔ (s ≡ t)
text_eq_iff s t = (sound s t, λ e. subst (λ u. text_eq s u ≡ true) e (text_eq_refl s))
