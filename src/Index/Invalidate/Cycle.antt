-- ===== src/Index/Invalidate/Cycle.antt =====
-- A directory that lies below itself: the loop has no set of the entries it has seen.
use quick_find.Prelude.{
  ℕ, zero, suc, ◌≡◌, ◌⊎◌, inl, inr, refl, none, some, List, [], ◌∷◌, Option-cases, subst, sym, ◌∙◌,
}
use quick_find.Dict.{get, put, nat_eq}
use quick_find.Index.{FileEntry, DriveEntries, invalidate_path}
use quick_find.Index.Invalidate.{children_of, extend, invalidate_loop, invalidate_subtree_paths}
use quick_find.Index.Invalidate.Covers.{
  In, In-extend, In-children_of, Under, self, down, IsEntry, IsEntry-extend, Touched, Touched-put,
  Touched-trans, Touched-none, children_of-IsEntry, extend-In,
}

-- The stack holds an entry above `x`, which lies below one of its own children.
module _ (d₀ : DriveEntries) (x c : ℕ) (e : FileEntry) (is : get d₀ c ≡ some e)
    (child : e.parent_frn ≡ x) (cycle : Under d₀ c x) where
  abbrev Above : List ℕ → Type 0
  Above stack = (z : ℕ) × In z stack × Under d₀ z x

  Above-round :
      (y : ℕ) (stack : List ℕ) → Above (y ∷ stack) → Above (extend (children_of d₀ y) stack)
  Above-round y stack (z, inr i, u) = (z, In-extend z (children_of d₀ y) stack (inr i), u)
  Above-round y stack (z, inl q, u) = pop x refl (subst (λ w. Under d₀ w x) (sym q) u)
    where
      pushed :
          (k : ℕ) (a : FileEntry)
          → get d₀ k ≡ some a
          → a.parent_frn ≡ y
          → Under d₀ k x
          → Above (extend (children_of d₀ y) stack)
      pushed k a g p below = (
        k,
        In-extend k (children_of d₀ y) stack
            (inl (subst (λ w. In k (children_of d₀ w)) p (In-children_of d₀ k a g))),
        below,
      )

      pop : (w : ℕ) → w ≡ x → Under d₀ y w → Above (extend (children_of d₀ y) stack)
      pop w same self = pushed c e is (child ∙ sym same) cycle
      pop w same (down {c = k} a g p below) = pushed k a g p (subst (λ v. Under d₀ k v) same below)

  loop-Above :
      (f : ℕ) (stack : List ℕ) (d : DriveEntries)
      → Touched d₀ d
      → ((y : ℕ) → In y stack → IsEntry d₀ y)
      → Above stack
      → invalidate_loop f (λ p. children_of d₀ p) stack d ≡ none
  unfolding invalidate_loop
  loop-Above zero stack d t known above = refl
  loop-Above (suc f) [] d t known above = absurd above.1
  loop-Above (suc f) (y ∷ stack) d t known above = elim (Option-cases (get d y)) [
    | inl missing ↦ let (a, g) = known y (inl refl) in absurd (Touched-none d₀ d y a t g missing)
    | inr (a, g) ↦
        rw (g, invalidate_loop)
          (loop-Above f (extend (children_of d₀ y) stack) (put d y (invalidate_path a))
            (Touched-trans d₀ d (put d y (invalidate_path a)) t (Touched-put d y a g))
            (IsEntry-extend d₀ y stack known) (Above-round y stack above))
  ]

  -- The loop never ends at a directory that has a child with that directory below it, itself
  -- included: no number of rounds empties the stack.
  pub invalidate_subtree_paths-cycle : (f : ℕ) → invalidate_subtree_paths f d₀ x ≡ none
  unfolding invalidate_subtree_paths
  invalidate_subtree_paths-cycle f =
      loop-Above f (extend (children_of d₀ x) []) d₀ (λ k. inl refl) known
        (
          c,
          In-extend c (children_of d₀ x) []
              (inl (subst (λ w. In c (children_of d₀ w)) child (In-children_of d₀ c e is))),
          cycle,
        )
    where
      known : (y : ℕ) → In y (extend (children_of d₀ x) []) → IsEntry d₀ y
      known y i = split (extend-In y (children_of d₀ x) [] i)
        where
          split : In y (children_of d₀ x) ⊎ In y [] → IsEntry d₀ y
          split (inl j) = children_of-IsEntry d₀ y x j
          split (inr j) = absurd j
