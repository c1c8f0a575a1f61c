-- ===== src/Text/Order.antt =====
-- `<=` on texts, the order of their code points.
use quick_find.Prelude.{
  ℕ, ◌≡◌, refl, ◌⊎◌, inl, inr, Bool, true, false, List, [], ◌∷◌, ltb, ◌==◌, if◌then◌else◌, arith,
}

unfoldable pub text_leb : List ℕ → List ℕ → Bool
text_leb [] t = true
text_leb (c ∷ s) [] = false
text_leb (c ∷ s) (d ∷ t) = if c == d then text_leb s t else ltb c d

pub text_leb-total : (s t : List ℕ) → (text_leb s t ≡ true) ⊎ (text_leb t s ≡ true)
unfolding text_leb
text_leb-total [] t = inl refl
text_leb-total (c ∷ s) [] = inr refl
text_leb-total (c ∷ s) (d ∷ t) = ground (arith, text_leb-total s t)

pub text_leb_trans :
    (r s t : List ℕ) → text_leb r s ≡ true → text_leb s t ≡ true → text_leb r t ≡ true
unfolding text_leb
text_leb_trans [] s t h k = refl
text_leb_trans (c ∷ r) [] t h k = ground arith
text_leb_trans (c ∷ r) (d ∷ s) [] h k = ground arith
text_leb_trans (c ∷ r) (d ∷ s) (e ∷ t) h k = ground (arith, text_leb_trans r s t)

pub text_leb_antisym : (s t : List ℕ) → text_leb s t ≡ true → text_leb t s ≡ true → s ≡ t
unfolding text_leb
text_leb_antisym [] [] h k = refl
text_leb_antisym [] (d ∷ t) h k = ground arith
text_leb_antisym (c ∷ s) [] h k = ground arith
text_leb_antisym (c ∷ s) (d ∷ t) h k = ground (arith, text_leb_antisym s t)
