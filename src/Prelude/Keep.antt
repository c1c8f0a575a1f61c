-- ===== src/Prelude/Keep.antt =====
-- What filtering does to a list that is filtered again, extended or counted.
use Prim.Native.Nat.{◌≤◌}
use mathlib.Core.Path.{◌≡◌, refl}
use mathlib.Core.Bool.{Bool, true, false}
use mathlib.Core.List.{List, [], ◌∷◌, ◌++◌}
use native.Mathlib.Omega.{arith}
use quick_find.Prelude.Lists.{length, any, keep}

module _ {ℓ} {A : Type ℓ} (p : A → Bool) where
  pub keep-append : (xs ys : List A) → keep p (xs ++ ys) ≡ keep p xs ++ keep p ys
  keep-append [] ys = refl
  keep-append (x ∷ xs) ys = ground (arith, keep-append xs ys)

  pub keep-any : (xs : List A) → any p xs ≡ false → keep p xs ≡ []
  keep-any [] h = refl
  keep-any (x ∷ xs) h = ground (arith, keep-any xs)

  module _ (q : A → Bool) (sub : (x : A) → q x ≡ true → p x ≡ true) where
    pub keep-keep : (xs : List A) → keep q (keep p xs) ≡ keep q xs
    keep-keep [] = refl
    keep-keep (x ∷ xs) = ground (arith, keep-keep xs, sub x)

    pub length-keep_mono : (xs : List A) → length (keep q xs) ≤ length (keep p xs)
    length-keep_mono [] = omega arith
    length-keep_mono (x ∷ xs) = ground (arith, length-keep_mono xs, sub x)
