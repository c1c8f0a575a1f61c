-- ===== src/Index/Usn/Coherent.antt =====
-- After a rename no entry keeps a cached path that its parents no longer lead to.
use quick_find.Prelude.{
  ℕ, zero, suc, ◌≡◌, ◌≢◌, ◌⊎◌, inl, inr, refl, sym, ◌∙◌, false, none, some, List, [], ◌∷◌, arith,
  ◌==◌, ==_iff, Bool-cases, Option-cases, subst, ap, length,
}
use quick_find.Text.{Text}
use quick_find.Dict.{get, put, nat_eq, get-put_self, get-put_ne}
use quick_find.Index.{FileEntry, DriveEntries, invalidate_path, is_dir}
use quick_find.Index.Path.{walk, walk_fuel, path_parts, drive_path}
use quick_find.Index.Invalidate.{extend, invalidate_loop, invalidate_subtree_paths}
use quick_find.Index.Invalidate.Covers.{
  Under, self, down, Under-snoc, Cleared, Touched, invalidate_subtree_paths-Covers,
}
use quick_find.Index.Usn.{UsnRecord, renamed, rename_in}

-- Every cached path is the one that the walk would find.
abbrev pub IsCoherent : Text → DriveEntries → Type 0
IsCoherent key d =
    (k : ℕ) (e : FileEntry) (p : Text)
    → get d k ≡ some e
    → e.path ≡ some p
    → p ≡ drive_path key (path_parts d k)

-- The walk reads names and parents only.
walk-Touched :
    (d d' : DriveEntries)
    → Touched d d'
    → (f : ℕ) (visited : List ℕ) (k : ℕ) → walk f d' visited k ≡ walk f d visited k
unfolding walk invalidate_path
walk-Touched d d' t zero visited k = refl
walk-Touched d d' t (suc f) visited k = split (t k) (λ p. walk-Touched d d' t f (k ∷ visited) p)
  where
    split :
        (get d' k ≡ get d k)
          ⊎ ((e : FileEntry) × (get d k ≡ some e) × (get d' k ≡ some (invalidate_path e)))
        → ((p : ℕ) → walk f d' (k ∷ visited) p ≡ walk f d (k ∷ visited) p)
        → walk (suc f) d' visited k ≡ walk (suc f) d visited k
    split (inl same) ih = elim (Option-cases (get d k)) [
      | inl missing ↦ ground arith
      | inr (e, g) ↦ ground (arith, ih e.parent_frn)
    ]
    split (inr (e, g, g')) ih = ground (arith, ih e.parent_frn)

-- Where one entry `x` was given anew, a walk is the same or starts at or below `x`.
walk-or-Under :
    (d d' : DriveEntries) (x : ℕ)
    → ((j : ℕ) → x ≢ j → get d' j ≡ get d j)
    → (f : ℕ) (visited : List ℕ) (k : ℕ) → (walk f d' visited k ≡ walk f d visited k) ⊎ Under d' x k
unfolding walk
walk-or-Under d d' x same zero visited k = inl refl
walk-or-Under d d' x same (suc f) visited k = elim (Bool-cases (x == k)) [
  | inl at ↦ inr (subst (λ z. Under d' x z) ((==_iff x k).0 at) self)
  | inr off ↦
      let kept : get d' k ≡ get d k = same k (λ q. cc (off, (==_iff x k).1 q)) in
      elim (Option-cases (get d k)) [
        | inl missing ↦ inl (ground arith)
        | inr (e, g) ↦ elim (walk-or-Under d d' x same f (k ∷ visited) e.parent_frn) [
          | inl ih ↦ inl (ground arith)
          | inr u ↦ inr (Under-snoc e u (kept ∙ g) refl)
        ]
      ]
]

length-put :
    (d : DriveEntries) (k : ℕ) (e e' : FileEntry)
    → get d k ≡ some e
    → length (put d k e') ≡ length d
unfolding get put
length-put [] k e e' h = cc
length-put ((j, a) ∷ d) k e e' h = ground (arith, length-put d k e e')

length-loop :
    (f : ℕ) (children : ℕ → List ℕ) (stack : List ℕ) (d d' : DriveEntries)
    → invalidate_loop f children stack d ≡ some d'
    → length d' ≡ length d
unfolding invalidate_loop
length-loop zero children stack d d' h = cc
length-loop (suc f) children [] d d' h = ground arith
length-loop (suc f) children (x ∷ stack) d d' h = elim (Option-cases (get d x)) [
  | inl missing ↦ length-loop f children stack d d' (rw (missing, invalidate_loop) at h)
  | inr (e, g) ↦
      length-loop f children (extend (children x) stack) (put d x (invalidate_path e)) d'
        (rw (g, invalidate_loop) at h)
      ∙ length-put d x e (invalidate_path e) g
]

-- The entries after a rename: everything at or below the renamed entry has no cached path, the
-- rest differs from what was there in no name and no parent.
module _ (d d₁ d₂ : DriveEntries) (x : ℕ) (kept : (j : ℕ) → x ≢ j → get d₁ j ≡ get d j)
    (sizes : length d₁ ≡ length d) (sizes₂ : length d₂ ≡ length d₁) (touched : Touched d₁ d₂)
    (cleared : (y : ℕ) → Under d₁ x y → Cleared d₂ y) where
  path_parts-kept :
      (k : ℕ)
      → walk (walk_fuel d) d₁ [] k ≡ walk (walk_fuel d) d [] k
      → path_parts d₂ k ≡ path_parts d k
  unfolding path_parts
  path_parts-kept k same =
      let fuel : walk_fuel d₂ ≡ walk_fuel d = omega arith in
      rw (fuel, walk-Touched d₁ d₂ touched (walk_fuel d) [] k, same, path_parts)

  IsCoherent-kept : (key : Text) → IsCoherent key d → IsCoherent key d₂
  unfolding invalidate_path
  IsCoherent-kept key coherent k e p g path =
      cases (touched k) (walk-or-Under d d₁ x kept (walk_fuel d) [] k)
    where
      cases :
          (get d₂ k ≡ get d₁ k)
            ⊎ ((a : FileEntry) × (get d₁ k ≡ some a) × (get d₂ k ≡ some (invalidate_path a)))
          → (walk (walk_fuel d) d₁ [] k ≡ walk (walk_fuel d) d [] k) ⊎ Under d₁ x k
          → p ≡ drive_path key (path_parts d₂ k)
      cases t (inr u) = let none_left = cleared k u e g in cc
      cases (inr (a, h, h')) (inl same) = cc
      cases (inl t) (inl same) = elim (Bool-cases (x == k)) [
        | inl at ↦
            let none_left = cleared k (subst (λ z. Under d₁ x z) ((==_iff x k).0 at) self) e g in cc
        | inr off ↦
            let old : get d k ≡ some e =
              sym (kept k (λ q. cc (off, (==_iff x k).1 q))) ∙ (sym t ∙ g) in
            coherent k e p old path ∙ ap (λ ps. drive_path key ps) (sym (path_parts-kept k same))
      ]

-- Under a file there is nothing but the file.
Under-file :
    (d : DriveEntries) (x y : ℕ)
    → ((c : ℕ) (a : FileEntry) → get d c ≡ some a → a.parent_frn ≢ x)
    → Under d x y
    → x ≡ y
Under-file d x y leaf self = refl
Under-file d x y leaf (down {c = c} a g p u) = absurd (leaf c a g p)

module _ (d : DriveEntries) (r : UsnRecord) (e : FileEntry) (is : get d r.frn ≡ some e) where
  abbrev pub moved : DriveEntries
  moved = put d r.frn (renamed e r)

  moved-Cleared : Cleared moved r.frn
  unfolding renamed
  moved-Cleared a h =
      let q : some (renamed e r) ≡ some a = sym (get-put_self d r.frn (renamed e r)) ∙ h in cc

  moved-kept : (j : ℕ) → r.frn ≢ j → get moved j ≡ get d j
  moved-kept j ne = get-put_ne d r.frn j (renamed e r) ne

  Touched-Cleared_at :
      (d₂ : DriveEntries) (y : ℕ) → Touched moved d₂ → Cleared moved y → Cleared d₂ y
  unfolding invalidate_path
  Touched-Cleared_at d₂ y t c a h = split (t y)
    where
      split :
          (get d₂ y ≡ get moved y)
            ⊎ ((b : FileEntry) × (get moved y ≡ some b) × (get d₂ y ≡ some (invalidate_path b)))
          → a.path ≡ none
      split (inl p) = c a (sym p ∙ h)
      split (inr (b, p, q)) = cc

  -- If every cached path of a drive is the one that the parents lead to, this is so after a rename
  -- or a move that ends, of a directory or of a file that nothing lies below.
  pub rename_in-IsCoherent :
      (fuel : ℕ) (key : Text) (d₂ : DriveEntries)
      → (is_dir e ≡ false → (c : ℕ) (a : FileEntry) → get moved c ≡ some a → a.parent_frn ≢ r.frn)
      → IsCoherent key d
      → rename_in fuel d r e ≡ some d₂
      → IsCoherent key d₂
  unfolding rename_in
  rename_in-IsCoherent fuel key d₂ leaf coherent h = elim (Bool-cases (is_dir e)) [
    | inl directory ↦
        let loop : invalidate_subtree_paths fuel moved r.frn ≡ some d₂ = ground arith in
        let (below, touched) = invalidate_subtree_paths-Covers fuel moved r.frn loop in
        IsCoherent-kept d moved d₂ r.frn moved-kept (length-put d r.frn e (renamed e r) is)
          (unfold invalidate_subtree_paths in length-loop fuel _ _ moved d₂ loop) touched
          (λ y u. at_or_below d₂ touched below y u) key coherent
    | inr file ↦
        let same : moved ≡ d₂ = ground arith in
        subst (λ z. IsCoherent key z) same
          (IsCoherent-kept d moved moved r.frn moved-kept (length-put d r.frn e (renamed e r) is)
            refl (λ k. inl refl)
            (λ y u.
              subst (λ z. Cleared moved z) (Under-file moved r.frn y (leaf file) u) moved-Cleared)
            key coherent)
  ]
    where
      at_or_below :
          (d₃ : DriveEntries)
          → Touched moved d₃
          → ((c y : ℕ) (a : FileEntry)
              → get moved c ≡ some a
              → a.parent_frn ≡ r.frn
              → Under moved c y
              → Cleared d₃ y)
          → (y : ℕ) → Under moved r.frn y
          → Cleared d₃ y
      at_or_below d₃ t below y u = go y r.frn refl u
        where
          go : (z x : ℕ) → x ≡ r.frn → Under moved x z → Cleared d₃ z
          go z x q self =
              subst (λ w. Cleared d₃ w) (sym q) (Touched-Cleared_at d₃ r.frn t moved-Cleared)
          go z x q (down {c = c} a g p v) = below c z a g (p ∙ q) v
