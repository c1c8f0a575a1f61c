-- ===== src/Review/Preview.antt =====
-- Which entry of a group core/duplicate_review.py keeps.
use quick_find.Prelude.{
  ℕ, ◌+◌, ◌≡◌, refl, sym, ap, subst, ◌∙◌, ◌⊎◌, Bool, true, false, List, [], ◌∷◌, some, keep, length,
  All, arith, sorted, weigh, IsSorted, sorted-IsSorted, weigh-sorted, indicator, keep-weigh,
}
use quick_find.Text.{Text, Unicode, text_leb-total, text_leb_trans}
use quick_find.Index.{FileEntry}
use quick_find.Review.{
  KeepRule, RemediationPreview, SortKey, lex, key_leb, total_size, sort_key, entry_leb, preview_of,
  preview_remediation,
}

lex-total :
    (a b : ℕ) (p q : Bool) → (p ≡ true) ⊎ (q ≡ true) → (lex a b p ≡ true) ⊎ (lex b a q ≡ true)
lex-total a b p q h = ground arith

lex_trans :
    (a b c : ℕ) (p q r : Bool)
    → (p ≡ true → q ≡ true → r ≡ true)
    → lex a b p ≡ true
    → lex b c q ≡ true
    → lex a c r ≡ true
lex_trans a b c p q r f h k = ground arith

key_leb-total : (b : Bool) (k j : SortKey) → (key_leb b k j ≡ true) ⊎ (key_leb b j k ≡ true)
unfolding key_leb
key_leb-total true k j = lex-total k.outside j.outside _ _ (
    lex-total j.newest k.newest _ _
      (lex-total k.path_len j.path_len _ _ (text_leb-total k.lower_path j.lower_path)))
key_leb-total false k j = lex-total k.outside j.outside _ _ (
    lex-total j.newest k.newest _ _
      (lex-total j.path_len k.path_len _ _ (text_leb-total k.lower_path j.lower_path)))

lex_trans_down :
    (a b c : ℕ) (p q r : Bool)
    → (p ≡ true → q ≡ true → r ≡ true)
    → lex b a p ≡ true
    → lex c b q ≡ true
    → lex c a r ≡ true
lex_trans_down a b c p q r f h k = ground arith

key_leb_trans :
    (b : Bool) (i j k : SortKey)
    → key_leb b i j ≡ true
    → key_leb b j k ≡ true
    → key_leb b i k ≡ true
unfolding key_leb
key_leb_trans true i j k = lex_trans i.outside j.outside k.outside _ _ _ (
    lex_trans_down i.newest j.newest k.newest _ _ _ (
      lex_trans i.path_len j.path_len k.path_len _ _ _
        (text_leb_trans i.lower_path j.lower_path k.lower_path)))
key_leb_trans false i j k = lex_trans i.outside j.outside k.outside _ _ _ (
    lex_trans_down i.newest j.newest k.newest _ _ _ (
      lex_trans_down i.path_len j.path_len k.path_len _ _ _
        (text_leb_trans i.lower_path j.lower_path k.lower_path)))

total_size-weigh : (es : List FileEntry) → total_size es ≡ weigh (λ e. e.size) es
unfolding total_size
total_size-weigh [] = refl
total_size-weigh (e ∷ es) = ap (λ n. e.size + n) (total_size-weigh es)

-- For every group of at least one entry the preview is given. Its kept entry comes before or ties with every candidate for deletion in the order of the rule; kept entry and candidates are the entries of the group (as many of each kind `p`); and the bytes to recover are all those of the group but the kept entry's.
pub preview_remediation-keeps :
    (u : Unicode) (resolve : Text → ℕ → Text) (timestamp : ℕ → ℕ) (rule : KeepRule) (e : FileEntry)
    (es : List FileEntry) (p : FileEntry → Bool)
    → (v : RemediationPreview) × (preview_remediation u resolve timestamp rule (e ∷ es) ≡ some v)
      × All (λ c. entry_leb u resolve timestamp rule v.kept c ≡ true) v.delete_candidates
      × (length (keep p (v.kept ∷ v.delete_candidates)) ≡ length (keep p (e ∷ es)))
      × (v.recoverable_bytes + v.kept.size ≡ total_size (e ∷ es))
unfolding preview_remediation preview_of entry_leb
preview_remediation-keeps u resolve timestamp rule e es p = from (sorted le (e ∷ es)) refl
  where
    le : FileEntry → FileEntry → Bool
    le = entry_leb u resolve timestamp rule

    total : (x y : FileEntry) → (le x y ≡ true) ⊎ (le y x ≡ true)
    total x y =
        key_leb-total rule.prefer_shortest_path (sort_key u resolve timestamp rule x)
          (sort_key u resolve timestamp rule y)

    trans : (x y z : FileEntry) → le x y ≡ true → le y z ≡ true → le x z ≡ true
    trans x y z =
        key_leb_trans rule.prefer_shortest_path (sort_key u resolve timestamp rule x)
          (sort_key u resolve timestamp rule y) (sort_key u resolve timestamp rule z)

    from :
        (s : List FileEntry)
        → sorted le (e ∷ es) ≡ s
        → (v : RemediationPreview) × (preview_of (sorted le (e ∷ es)) ≡ some v)
          × All (λ c. le v.kept c ≡ true) v.delete_candidates
          × (length (keep p (v.kept ∷ v.delete_candidates)) ≡ length (keep p (e ∷ es)))
          × (v.recoverable_bytes + v.kept.size ≡ total_size (e ∷ es))
    from [] h = absurd (
        let never : ⊥ = omega (arith, ap (weigh (λ x. 1)) h, weigh-sorted le (λ x. 1) (e ∷ es)) in
        never)
    from (k ∷ cs) h = (
      record { kept = k; delete_candidates = cs; recoverable_bytes = total_size cs },
      ap preview_of h,
      (subst (λ s. IsSorted le s) h (sorted-IsSorted le total trans (e ∷ es))).0,
      keep-weigh p (k ∷ cs)
          ∙ ap (weigh (λ x. indicator (p x))) (sym h)
          ∙ weigh-sorted le (λ x. indicator (p x)) (e ∷ es)
          ∙ sym (keep-weigh p (e ∷ es)),
      omega (
        arith,
        total_size-weigh cs,
        total_size-weigh (e ∷ es),
        ap (weigh (λ x. x.size)) h,
        weigh-sorted le (λ x. x.size) (e ∷ es),
      ),
    )
