-- ===== src/Prelude/Sort.antt =====
-- Stable sorting by insertion, and what it keeps.
use Prim.Native.Nat.{ℕ, ◌+◌}
use mathlib.Core.Path.{◌≡◌, refl, sym, ◌∙◌}
use mathlib.Core.Logic.{◌⊎◌, inl, inr}
use mathlib.Core.Bool.{Bool, true}
use mathlib.Core.List.{List, [], ◌∷◌}
use native.Mathlib.Omega.{arith}
use quick_find.Prelude.Tests.{if◌then◌else◌, Bool-cases}
use quick_find.Prelude.Lists.{length, keep, All}

-- `sorted(entries, key=…)`, which is stable.
module _ {A : Type 0} (le : A → A → Bool) where
  unfoldable pub insert : A → List A → List A
  insert x [] = x ∷ []
  insert x (y ∷ ys) = let rest = insert x ys in if le x y then x ∷ y ∷ ys else y ∷ rest

  unfoldable pub sorted : List A → List A
  unfolding insert
  sorted [] = []
  sorted (x ∷ xs) = insert x (sorted xs)

-- The sum of a weight over a list: a count, or a total.
abbrev pub weigh {ℓ} : {A : Type ℓ} → (A → ℕ) → List A → ℕ
weigh w [] = 0
weigh w (x ∷ xs) = w x + weigh w xs

module _ {A : Type 0} (le : A → A → Bool) where
  abbrev pub IsSorted : List A → Type 0
  IsSorted [] = Unit
  IsSorted (x ∷ xs) = All (λ y. le x y ≡ true) xs × IsSorted xs

  insert-All : (P : A → Type 0) (x : A) (ys : List A) → P x → All P ys → All P (insert le x ys)
  unfolding insert
  insert-All P x [] p h = (p, tt)
  insert-All P x (y ∷ ys) p (q, qs) = elim (Bool-cases (le x y)) [
    | inl e ↦ rw (e, insert) (p, (q, qs))
    | inr e ↦ rw (e, insert) (q, insert-All P x ys p qs)
  ]

  module _ (total : (x y : A) → (le x y ≡ true) ⊎ (le y x ≡ true))
      (trans : (x y z : A) → le x y ≡ true → le y z ≡ true → le x z ≡ true) where
    above :
        (x y : A) (ys : List A)
        → le x y ≡ true
        → All (λ z. le y z ≡ true) ys
        → All (λ z. le x z ≡ true) ys
    above x y [] h k = tt
    above x y (z ∷ zs) h (k, ks) = (trans x y z h k, above x y zs h ks)

    insert-IsSorted : (x : A) (ys : List A) → IsSorted ys → IsSorted (insert le x ys)
    unfolding insert
    insert-IsSorted x [] h = (tt, tt)
    insert-IsSorted x (y ∷ ys) (h, hs) = elim (Bool-cases (le x y)) [
      | inl e ↦ rw (e, insert) ((e, above x y ys e h), (h, hs))
      | inr e ↦
          rw (e, insert)
            (
              insert-All (λ z. le y z ≡ true) x ys (ground (arith, total x y)) h,
              insert-IsSorted x ys hs,
            )
    ]

    pub sorted-IsSorted : (xs : List A) → IsSorted (sorted le xs)
    unfolding sorted
    sorted-IsSorted [] = tt
    sorted-IsSorted (x ∷ xs) = insert-IsSorted x (sorted le xs) (sorted-IsSorted xs)

  weigh-insert : (w : A → ℕ) (x : A) (ys : List A) → weigh w (insert le x ys) ≡ w x + weigh w ys
  unfolding insert
  weigh-insert w x [] = refl
  weigh-insert w x (y ∷ ys) = elim (Bool-cases (le x y)) [
    | inl e ↦ rw (e, insert) refl
    | inr e ↦ rw (e, insert) (omega (arith, weigh-insert w x ys))
  ]

  pub weigh-sorted : (w : A → ℕ) (xs : List A) → weigh w (sorted le xs) ≡ weigh w xs
  unfolding sorted
  weigh-sorted w [] = refl
  weigh-sorted w (x ∷ xs) = omega (arith, weigh-insert w x (sorted le xs), weigh-sorted w xs)

abbrev pub indicator : Bool → ℕ
indicator b = if b then 1 else 0

pub keep-weigh :
    {A : Type 0} (p : A → Bool) (xs : List A) → length (keep p xs) ≡ weigh (λ x. indicator (p x)) xs
keep-weigh p [] = refl
keep-weigh p (x ∷ xs) = ground (arith, keep-weigh p xs)

-- Sorting keeps as many elements of each kind.
pub keep-sorted :
    {A : Type 0} (le : A → A → Bool) (p : A → Bool) (xs : List A)
    → length (keep p (sorted le xs)) ≡ length (keep p xs)
keep-sorted le p xs =
    keep-weigh p (sorted le xs) ∙ weigh-sorted le (λ x. indicator (p x)) xs ∙ sym (keep-weigh p xs)
