-- ===== src/Query/Order/Sorted.antt =====
-- core/search.py, `_sort_results`: the order of keys, and what sorting keeps.
use quick_find.Prelude.{
  ◌≡◌, refl, ap, ◌⊎◌, inl, inr, ◌↔◌, Bool, true, List, [], ◌∷◌, ==_iff, arith, sorted, IsSorted,
  sorted-IsSorted, subst,
}
use quick_find.Text.{text_eq_iff, text_leb-total, text_leb_trans, text_leb_antisym}
use quick_find.Index.{FileEntry}
use quick_find.Query.Options.{SortField}
use quick_find.Query.Order.{
  Part, number, word, part_eq, part_leb, parts_leb, Sorting, sort_key, entry_before,
}

part_eq_iff : (j k : Part) → (part_eq j k ≡ true) ↔ (j ≡ k)
unfolding part_eq
part_eq_iff (number m) (number n) = (
  λ e. ap number ((==_iff m n).0 e),
  λ e. subst (λ p. part_eq (number m) p ≡ true) e ((==_iff m m).1 refl),
)
part_eq_iff (word s) (word t) = (
  λ e. ap word ((text_eq_iff s t).0 e),
  λ e. subst (λ p. part_eq (word s) p ≡ true) e ((text_eq_iff s s).1 refl),
)
part_eq_iff (number m) (word t) = ground arith
part_eq_iff (word s) (number n) = ground arith

part_leb-total : (j k : Part) → (part_leb j k ≡ true) ⊎ (part_leb k j ≡ true)
unfolding part_leb
part_leb-total (number m) (number n) = ground arith
part_leb-total (word s) (word t) = text_leb-total s t
part_leb-total (number m) (word t) = inl refl
part_leb-total (word s) (number n) = inr refl

part_leb_trans : (i j k : Part) → part_leb i j ≡ true → part_leb j k ≡ true → part_leb i k ≡ true
unfolding part_leb
part_leb_trans (number l) (number m) (number n) h k = ground (arith, h, k)
part_leb_trans (word r) (word s) (word t) h k = text_leb_trans r s t h k
part_leb_trans (number l) (number m) (word t) h k = refl
part_leb_trans (number l) (word s) (word t) h k = refl
part_leb_trans (number l) (word s) (number n) h k = ground (arith, k)
part_leb_trans (word r) (number m) k h h' = ground (arith, h)
part_leb_trans (word r) (word s) (number n) h k = k

part_leb_antisym : (j k : Part) → part_leb j k ≡ true → part_leb k j ≡ true → part_eq j k ≡ true
unfolding part_leb part_eq
part_leb_antisym (number m) (number n) h k = ground arith
part_leb_antisym (word s) (word t) h k = (text_eq_iff s t).1 (text_leb_antisym s t h k)
part_leb_antisym (number m) (word t) h k = ground arith
part_leb_antisym (word s) (number n) h k = ground arith

parts_leb-total : (js ks : List Part) → (parts_leb js ks ≡ true) ⊎ (parts_leb ks js ≡ true)
unfolding parts_leb
parts_leb-total [] ks = inl refl
parts_leb-total (j ∷ js) [] = inr refl
parts_leb-total (j ∷ js) (k ∷ ks) =
    ground (arith, parts_leb-total js ks, part_leb-total j k, part_eq_iff j k, part_eq_iff k j)

parts_leb_trans :
    (is js ks : List Part)
    → parts_leb is js ≡ true
    → parts_leb js ks ≡ true
    → parts_leb is ks ≡ true
unfolding parts_leb
parts_leb_trans [] js ks h k = refl
parts_leb_trans (i ∷ is) [] ks h k = ground arith
parts_leb_trans (i ∷ is) (j ∷ js) [] h k = ground arith
parts_leb_trans (i ∷ is) (j ∷ js) (k ∷ ks) h l = ground (
  arith,
  h,
  l,
  parts_leb_trans is js ks,
  part_leb_trans i j k,
  part_eq_iff i j,
  part_eq_iff j k,
  part_eq_iff i k,
  part_leb_antisym i j,
  part_leb_antisym j k,
)

module _ (s : Sorting) (field : SortField) (reverse : Bool) where
  entry_before-total :
      (a b : FileEntry)
      → (entry_before s field reverse a b ≡ true) ⊎ (entry_before s field reverse b a ≡ true)
  unfolding entry_before
  entry_before-total a b = ground (arith, parts_leb-total (sort_key s field a) (sort_key s field b))

  entry_before_trans :
      (a b c : FileEntry)
      → entry_before s field reverse a b ≡ true
      → entry_before s field reverse b c ≡ true
      → entry_before s field reverse a c ≡ true
  unfolding entry_before
  entry_before_trans a b c = ground (
    arith,
    parts_leb_trans (sort_key s field a) (sort_key s field b) (sort_key s field c),
    parts_leb_trans (sort_key s field c) (sort_key s field b) (sort_key s field a),
  )

  pub sorted-entries :
      (es : List FileEntry)
      → IsSorted (entry_before s field reverse) (sorted (entry_before s field reverse) es)
  sorted-entries =
      sorted-IsSorted (entry_before s field reverse) entry_before-total entry_before_trans
