-- ===== src/Index/Invalidate/Covers.antt =====
-- What the loop clears, and what it leaves as it was.
use quick_find.Prelude.{
  ℕ, zero, suc, ◌≡◌, ◌≢◌, ◌⊎◌, inl, inr, refl, sym, ◌∙◌, true, none, some, List, [], ◌∷◌, arith,
  ◌==◌, ==_iff, Bool-cases, Option-cases, Any, subst, ap,
}
use quick_find.Dict.{get, put, nat_eq, get-put_self, get-put_ne}
use quick_find.Index.{FileEntry, DriveEntries, invalidate_path}
use quick_find.Index.Invalidate.{children_of, extend, invalidate_loop, invalidate_subtree_paths}

abbrev pub In : ℕ → List ℕ → Type 0
In x xs = Any (λ y. y ≡ x) xs

pub In-extend : (x : ℕ) (xs stack : List ℕ) → In x xs ⊎ In x stack → In x (extend xs stack)
unfolding extend
In-extend x [] stack (inl i) = absurd i
In-extend x [] stack (inr i) = i
In-extend x (y ∷ xs) stack (inl (inl e)) = In-extend x xs (y ∷ stack) (inr (inl e))
In-extend x (y ∷ xs) stack (inl (inr i)) = In-extend x xs (y ∷ stack) (inl i)
In-extend x (y ∷ xs) stack (inr i) = In-extend x xs (y ∷ stack) (inr (inr i))

pub In-children_of :
    (d : DriveEntries) (c : ℕ) (e : FileEntry)
    → get d c ≡ some e
    → In c (children_of d e.parent_frn)
unfolding children_of get
In-children_of [] c e h = cc
In-children_of ((k, a) ∷ d) c e h = elim (Bool-cases (k == c)) [
  | inl same ↦
      let k-is : k ≡ c = (==_iff k c).0 same in
      let a-is : a ≡ e = ground arith in
      let p-is : (a.parent_frn == e.parent_frn) ≡ true =
        (==_iff _ _).1 (ap (λ (b : FileEntry). b.parent_frn) a-is) in
      rw p-is (inl k-is)
  | inr other ↦
      let ih = In-children_of d c e (ground arith) in
      elim (Bool-cases (a.parent_frn == e.parent_frn)) [
        | inl child ↦ rw child (inr ih)
        | inr not_child ↦ rw not_child ih
      ]
]

-- The entries below `x`, by their parents, and `x` itself.
pub data Under (d : DriveEntries) : ℕ → ℕ → Type 0 where
  self : {x : ℕ} → Under d x x
  down :
      {c x y : ℕ} (e : FileEntry) → get d c ≡ some e → e.parent_frn ≡ x → Under d c y → Under d x y

pub Under-snoc :
    {d : DriveEntries} {x m y : ℕ} (e : FileEntry)
    → Under d x m
    → get d y ≡ some e
    → e.parent_frn ≡ m
    → Under d x y
Under-snoc e self h p = down e h p self
Under-snoc e (down a g q u) h p = down a g q (Under-snoc e u h p)

abbrev pub Cleared : DriveEntries → ℕ → Type 0
Cleared d y = (e : FileEntry) → get d y ≡ some e → e.path ≡ none

-- `d'` has the entries of `d`, some of them with their cached path cleared.
abbrev pub Touched : DriveEntries → DriveEntries → Type 0
Touched d d' =
    (k : ℕ)
    → ((get d' k ≡ get d k)
        ⊎ ((e : FileEntry) × (get d k ≡ some e) × (get d' k ≡ some (invalidate_path e))))

pub Touched-put :
    (d : DriveEntries) (x : ℕ) (e : FileEntry)
    → get d x ≡ some e
    → Touched d (put d x (invalidate_path e))
Touched-put d x e h k = elim (Bool-cases (x == k)) [
  | inl same ↦
      let x-is : x ≡ k = (==_iff x k).0 same in
      inr (e, rw (← x-is) h, rw (← x-is) (get-put_self d x (invalidate_path e)))
  | inr other ↦ inl (get-put_ne d x k (invalidate_path e) (λ q. cc (other, (==_iff x k).1 q)))
]

pub Touched-trans : (a b c : DriveEntries) → Touched a b → Touched b c → Touched a c
unfolding invalidate_path
Touched-trans a b c f g k = both (f k) (g k)
  where
    both :
        (get b k ≡ get a k)
          ⊎ ((e : FileEntry) × (get a k ≡ some e) × (get b k ≡ some (invalidate_path e)))
        → (get c k ≡ get b k)
          ⊎ ((e : FileEntry) × (get b k ≡ some e) × (get c k ≡ some (invalidate_path e)))
        → (get c k ≡ get a k)
          ⊎ ((e : FileEntry) × (get a k ≡ some e) × (get c k ≡ some (invalidate_path e)))
    both (inl p) (inl q) = inl (q ∙ p)
    both (inl p) (inr (e, x, y)) = inr (e, sym p ∙ x, y)
    both (inr (e, x, y)) (inl q) = inr (e, x, q ∙ y)
    both (inr (e, x, y)) (inr (e', x', y')) = inr (e, x, cc)

Touched-Cleared : (d d' : DriveEntries) (y : ℕ) → Touched d d' → Cleared d y → Cleared d' y
unfolding invalidate_path
Touched-Cleared d d' y t c e h = split (t y)
  where
    split :
        (get d' y ≡ get d y)
          ⊎ ((a : FileEntry) × (get d y ≡ some a) × (get d' y ≡ some (invalidate_path a)))
        → e.path ≡ none
    split (inl p) = c e (sym p ∙ h)
    split (inr (a, x, z)) = cc

pub extend-In : (x : ℕ) (xs stack : List ℕ) → In x (extend xs stack) → In x xs ⊎ In x stack
unfolding extend
extend-In x [] stack i = inr i
extend-In x (y ∷ xs) stack i = split (extend-In x xs (y ∷ stack) i)
  where
    split : In x xs ⊎ (y ≡ x) ⊎ In x stack → ((y ≡ x) ⊎ In x xs) ⊎ In x stack
    split (inl j) = inl (inr j)
    split (inr (inl e)) = inl (inl e)
    split (inr (inr j)) = inr j

abbrev pub IsEntry : DriveEntries → ℕ → Type 0
IsEntry d x = (e : FileEntry) × (get d x ≡ some e)

IsEntry-cons :
    (k : ℕ) (a : FileEntry) (d : DriveEntries) (x : ℕ) → IsEntry d x → IsEntry ((k, a) ∷ d) x
unfolding get
IsEntry-cons k a d x (e, h) = elim (Bool-cases (k == x)) [
  | inl same ↦ (a, rw same)
  | inr other ↦ (e, rw other h)
]

pub children_of-IsEntry : (d : DriveEntries) (c p : ℕ) → In c (children_of d p) → IsEntry d c
unfolding children_of get
children_of-IsEntry [] c p i = absurd i
children_of-IsEntry ((k, a) ∷ d) c p i = elim (Bool-cases (a.parent_frn == p)) [
  | inl child ↦ first (rw child at i) (children_of-IsEntry d c p)
  | inr not_child ↦ IsEntry-cons k a d c (children_of-IsEntry d c p (rw not_child at i))
]
  where
    first :
        (k ≡ c) ⊎ In c (children_of d p)
        → (In c (children_of d p) → IsEntry d c)
        → IsEntry ((k, a) ∷ d) c
    first (inl e) later = (a, rw ((==_iff k c).1 e))
    first (inr j) later = IsEntry-cons k a d c (later j)

abbrev Covers : DriveEntries → List ℕ → DriveEntries → Type 0
Covers d stack d' = (x y : ℕ) → In x stack → Under d x y → Cleared d' y

-- One round: the entry on top is cleared, and its children are covered by the rest of the loop.
module _ (d₀ : DriveEntries) (stack : List ℕ) (d d' : DriveEntries) (x : ℕ) (e : FileEntry) where
  abbrev after : DriveEntries
  after = put d x (invalidate_path e)

  Cleared-after : Cleared after x
  unfolding invalidate_path
  Cleared-after a h =
      let same : some (invalidate_path e) ≡ some a =
        sym (get-put_self d x (invalidate_path e)) ∙ h in
      cc

  Covers-round :
      get d x ≡ some e
      → Covers d₀ (extend (children_of d₀ x) stack) d' × Touched after d'
      → Covers d₀ (x ∷ stack) d' × Touched d d'
  Covers-round g (covers, touched) =
      (λ z y i u. cover z y i u, Touched-trans d after d' (Touched-put d x e g) touched)
    where
      below : (y : ℕ) → Under d₀ x y → Cleared d' y
      below y self = Touched-Cleared after d' y touched Cleared-after
      below y (down {c = c} a q p u) =
          covers c y
            (In-extend c (children_of d₀ x) stack
              (inl (subst (λ z. In c (children_of d₀ z)) p (In-children_of d₀ c a q))))
            u

      cover : (z y : ℕ) → In z (x ∷ stack) → Under d₀ z y → Cleared d' y
      cover z y (inl q) u = below y (subst (λ w. Under d₀ w y) (sym q) u)
      cover z y (inr i) u = covers z y (In-extend z (children_of d₀ x) stack (inr i)) u

pub Touched-none :
    (d d' : DriveEntries) (x : ℕ) (e : FileEntry)
    → Touched d d'
    → get d x ≡ some e
    → get d' x ≢ none
Touched-none d d' x e t h n = split (t x)
  where
    split :
        (get d' x ≡ get d x)
          ⊎ ((a : FileEntry) × (get d x ≡ some a) × (get d' x ≡ some (invalidate_path a)))
        → ⊥
    split (inl p) = cc
    split (inr (a, y, z)) = cc

pub IsEntry-extend :
    (d : DriveEntries) (x : ℕ) (stack : List ℕ)
    → ((y : ℕ) → In y (x ∷ stack) → IsEntry d y)
    → (y : ℕ) → In y (extend (children_of d x) stack)
    → IsEntry d y
IsEntry-extend d x stack known y i = split (extend-In y (children_of d x) stack i)
  where
    split : In y (children_of d x) ⊎ In y stack → IsEntry d y
    split (inl j) = children_of-IsEntry d y x j
    split (inr j) = known y (inr j)

loop-Covers :
    (f : ℕ) (d₀ : DriveEntries) (stack : List ℕ) (d d' : DriveEntries)
    → invalidate_loop f (λ p. children_of d₀ p) stack d ≡ some d'
    → Touched d₀ d
    → ((x : ℕ) → In x stack → IsEntry d₀ x)
    → Covers d₀ stack d' × Touched d d'
unfolding invalidate_loop
loop-Covers zero d₀ stack d d' h t known = cc
loop-Covers (suc f) d₀ [] d d' h t known =
    let same : d ≡ d' = cc in
    (λ x y i u. absurd i, λ k. inl (ap (λ (a : DriveEntries). get a k) (sym same)))
loop-Covers (suc f) d₀ (x ∷ stack) d d' h t known = elim (Option-cases (get d x)) [
  | inl missing ↦ let (e, g) = known x (inl refl) in absurd (Touched-none d₀ d x e t g missing)
  | inr (e, g) ↦ Covers-round d₀ stack d d' x e g (
      loop-Covers f d₀ (extend (children_of d₀ x) stack) (put d x (invalidate_path e)) d'
        (rw (g, invalidate_loop) at h)
        (Touched-trans d₀ d (put d x (invalidate_path e)) t (Touched-put d x e g))
        (IsEntry-extend d₀ x stack known))
]

-- If the loop below a directory ends, every entry strictly below the directory has lost its cached
-- path, and every entry of the drive is as it was, or as it was but for a cleared path.
pub invalidate_subtree_paths-Covers :
    (f : ℕ) (d : DriveEntries) (root : ℕ) {d' : DriveEntries}
    → invalidate_subtree_paths f d root ≡ some d'
    → ((c y : ℕ) (e : FileEntry)
        → get d c ≡ some e
        → e.parent_frn ≡ root
        → Under d c y
        → Cleared d' y)
      × Touched d d'
unfolding invalidate_subtree_paths
invalidate_subtree_paths-Covers f d root {d'} h =
    let all = loop-Covers f d (extend (children_of d root) []) d d' h (λ k. inl refl) entries in
    (
      λ c y e g p u.
          all.0 c y
            (In-extend c (children_of d root) []
              (inl (subst (λ z. In c (children_of d z)) p (In-children_of d c e g))))
            u,
      all.1,
    )
  where
    entries : (y : ℕ) → In y (extend (children_of d root) []) → IsEntry d y
    entries y i = split (extend-In y (children_of d root) [] i)
      where
        split : In y (children_of d root) ⊎ In y [] → IsEntry d y
        split (inl j) = children_of-IsEntry d y root j
        split (inr j) = absurd j
