-- ===== src/Index/Invalidate/Total.antt =====
-- The loop ends where the parent links below the directory have no cycle, and never ends where the
-- directory lies below itself: unlike `resolve_path`, it keeps no set of the entries it has seen.
use quick_find.Prelude.{
  ℕ, zero, suc, ◌+◌, ◌<◌, ◌≡◌, ◌≢◌, inl, inr, refl, sym, ◌∙◌, some, List, [], ◌∷◌, ◌++◌, arith,
  ◌==◌, ==_iff, Bool-cases, Option-cases, All, subst, append_assoc, append-nil,
}
use quick_find.Dict.{get, put, nat_eq}
use quick_find.Index.{DriveEntries, ntfs_root_frn, invalidate_path}
use quick_find.Index.Invalidate.{children_of, extend, invalidate_loop, invalidate_subtree_paths}

-- Each entry lies lower than its parent, but for what lies in the root directory, the root too.
abbrev pub IsForest : (ℕ → ℕ) → DriveEntries → Type 0
IsForest height [] = Unit
IsForest height ((c, e) ∷ d) =
    (e.parent_frn ≢ ntfs_root_frn → (height c < height e.parent_frn) × (c ≢ ntfs_root_frn))
    × IsForest height d

abbrev Lower : (ℕ → ℕ) → ℕ → ℕ → Type 0
Lower height n x = (height x < n) × (x ≢ ntfs_root_frn)

children_of-Lower :
    (height : ℕ → ℕ) (d : DriveEntries) (p : ℕ)
    → IsForest height d
    → p ≢ ntfs_root_frn
    → All (λ x. Lower height (height p) x) (children_of d p)
unfolding children_of
children_of-Lower height [] p h not_root = tt
children_of-Lower height ((c, e) ∷ d) p h not_root = elim (Bool-cases (e.parent_frn == p)) [
  | inl child ↦
      let is : e.parent_frn ≡ p = (==_iff e.parent_frn p).0 child in
      let low = h.0 (λ q. not_root (sym is ∙ q)) in
      rw child (
        (subst (λ z. height c < height z) is low.0, low.1),
        children_of-Lower height d p h.1 not_root,
      )
  | inr other ↦ rw other (children_of-Lower height d p h.1 not_root)
]

extend-All : (P : ℕ → Type 0) (xs stack : List ℕ) → All P xs → All P stack → All P (extend xs stack)
unfolding extend
extend-All P [] stack hx hs = hs
extend-All P (x ∷ xs) stack hx hs = extend-All P xs (x ∷ stack) hx.1 (hx.0, hs)

extend-append : (xs ys zs : List ℕ) → extend xs ys ++ zs ≡ extend xs (ys ++ zs)
unfolding extend
extend-append [] ys zs = refl
extend-append (x ∷ xs) ys zs = extend-append xs (x ∷ ys) zs

module _ (children : ℕ → List ℕ) where
  -- Some rounds take these entries off the stack, whatever lies below them on it.
  abbrev Runs : List ℕ → DriveEntries → Type 0
  Runs xs d =
      (k : ℕ) × (d' : DriveEntries) × ((f : ℕ) (stack : List ℕ)
        → invalidate_loop (k + f) children (xs ++ stack) d ≡ invalidate_loop f children stack d')

  Runs-append :
      (xs ys : List ℕ) (d : DriveEntries)
      → Runs xs d
      → ((d' : DriveEntries) → Runs ys d')
      → Runs (xs ++ ys) d
  Runs-append xs ys d (k, d', r) next =
      let (j, d'', s) = next d' in
      (
        k + j,
        d'',
        λ f stack.
            let split : k + j + f ≡ k + (j + f) = omega arith in
            rw (split, append_assoc xs ys stack) (r (j + f) (ys ++ stack) ∙ s f stack),
      )

  Runs-All :
      (P : ℕ → Type 0) (xs : List ℕ)
      → All P xs
      → ((x : ℕ) (d : DriveEntries) → P x → Runs (x ∷ []) d)
      → (d : DriveEntries) → Runs xs d
  Runs-All P [] h one d = (0, d, λ f stack. let e : 0 + f ≡ f = omega arith in rw e)
  Runs-All P (x ∷ xs) h one d =
      Runs-append (x ∷ []) xs d (one x d h.0) (λ d'. Runs-All P xs h.1 one d')

  Runs-one :
      (x : ℕ) (d : DriveEntries)
      → ((d' : DriveEntries) → Runs (extend (children x) []) d')
      → Runs (x ∷ []) d
  unfolding invalidate_loop
  Runs-one x d below = elim (Option-cases (get d x)) [
    | inl missing ↦
        (1, d, λ f stack. let e : 1 + f ≡ suc f = omega arith in rw (e, missing, invalidate_loop))
    | inr (e, found) ↦
        let (k, d', r) = below (put d x (invalidate_path e)) in
        (
          suc k,
          d',
          λ f stack.
              let q : suc k + f ≡ suc (k + f) = omega arith in
              rw (q, found, invalidate_loop)
                (subst
                  (λ s.
                    invalidate_loop (k + f) children s (put d x (invalidate_path e))
                    ≡ invalidate_loop f children stack d')
                  (extend-append (children x) [] stack) (r f stack)),
        )
  ]

Runs-Lower :
    (height : ℕ → ℕ) (d₀ : DriveEntries)
    → IsForest height d₀
    → (n x : ℕ) (d : DriveEntries) → Lower height n x
    → Runs (λ p. children_of d₀ p) (x ∷ []) d
Runs-Lower height d₀ forest zero x d low = absurd (omega (arith, low.0))
Runs-Lower height d₀ forest (suc n) x d low =
    Runs-one (λ p. children_of d₀ p) x d
      λ d'.
        Runs-All (λ p. children_of d₀ p) (λ y. Lower height (height x) y)
          (extend (children_of d₀ x) [])
          (extend-All (λ y. Lower height (height x) y) (children_of d₀ x) []
            (children_of-Lower height d₀ x forest low.1) tt)
          (λ y a l. Runs-Lower height d₀ forest n y a (omega (arith, l.0, low.0), l.1)) d'

-- Where every entry lies lower than its parent (the entries of the root directory aside), the loop
-- below a directory that is not the root ends.
pub invalidate_subtree_paths-total :
    (height : ℕ → ℕ) (d : DriveEntries) (root : ℕ)
    → IsForest height d
    → root ≢ ntfs_root_frn
    → (f : ℕ) × (d' : DriveEntries) × (invalidate_subtree_paths f d root ≡ some d')
unfolding invalidate_subtree_paths invalidate_loop
invalidate_subtree_paths-total height d root forest not_root =
    let stack = extend (children_of d root) [] in
    let (k, d', r) =
      Runs-All (λ p. children_of d p) (λ y. Lower height (height root) y) stack
        (extend-All (λ y. Lower height (height root) y) (children_of d root) []
          (children_of-Lower height d root forest not_root) tt)
        (λ y a l. Runs-Lower height d forest (height root) y a l) d in
    (
      k + 1,
      d',
      subst (λ s. invalidate_loop (k + 1) (λ p. children_of d p) s d ≡ some d') (append-nil stack)
          (r 1 []),
    )
