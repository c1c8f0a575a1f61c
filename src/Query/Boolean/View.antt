-- ===== src/Query/Boolean/View.antt =====
-- A split on the kind of a token that keeps the equation.
use quick_find.Prelude.{◌≡◌, refl}
use quick_find.Query.Boolean.{Kind, bar, bang, open_paren, close_paren, word}

pub data View (k : Kind) : Type 0 where
  is_bar : k ≡ bar → View k
  is_bang : k ≡ bang → View k
  is_open : k ≡ open_paren → View k
  is_close : k ≡ close_paren → View k
  is_word : k ≡ word → View k

pub view : (k : Kind) → View k
view bar = is_bar refl
view bang = is_bang refl
view open_paren = is_open refl
view close_paren = is_close refl
view word = is_word refl
