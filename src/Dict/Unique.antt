-- ===== src/Dict/Unique.antt =====
-- Dictionaries in which no key stands twice, and what a comprehension over one keeps.
use quick_find.Prelude.{
  ◌≡◌, refl, false, ◌||◌, Option, none, some, [], ◌∷◌, Bool-cases, Option-cases, inl, inr, arith,
}
use quick_find.Dict.Defs.{Eq, Dict, get, put, remove, has}

module _ {ℓ κ} {K : Type ℓ} {V : Type κ} ⦃e : Eq K⦄ where
  abbrev pub IsUnique : Dict K V → Type 0
  IsUnique [] = Unit
  IsUnique ((k, v) ∷ d) = (has d k ≡ false) × IsUnique d

  -- `{k: f(k, v) for k, v in d.items() if …}`: `f` gives none where the condition fails.
  unfoldable pub select : (K → V → Option V) → Dict K V → Dict K V
  select f [] = []
  select f ((k, v) ∷ d) =
      let rest = select f d in elim (f k v) [ none ↦ rest | some w ↦ (k, w) ∷ rest ]

  pub has-put : (d : Dict K V) (k j : K) (v : V) → has (put d k v) j ≡ (e.beq k j || has d j)
  unfolding has put
  has-put [] k j v = ground arith
  has-put ((i, w) ∷ d) k j v =
      ground (arith, has-put d k j v, e.beq_iff i k, e.beq_iff k j, e.beq_iff i j)

  pub has-eq-false : (d : Dict K V) (k : K) → has d k ≡ false → get d k ≡ none
  unfolding has get
  has-eq-false [] k h = refl
  has-eq-false ((i, w) ∷ d) k h = ground (arith, has-eq-false d k)

  pub put-IsUnique : (d : Dict K V) (k : K) (v : V) → IsUnique d → IsUnique (put d k v)
  unfolding has put
  put-IsUnique [] k v h = (refl, tt)
  put-IsUnique ((i, w) ∷ d) k v (new, h) = elim (Bool-cases (e.beq i k)) [
    | inl q ↦ rw (q, put) (new, h)
    | inr q ↦
        rw (q, put)
          (
            ground (arith, has-put d k i v, q, new, e.beq_iff i k, e.beq_iff k i),
            put-IsUnique d k v h,
          )
  ]

  pub has-remove : (d : Dict K V) (k j : K) → has d j ≡ false → has (remove d k) j ≡ false
  unfolding has remove
  has-remove [] k j h = refl
  has-remove ((i, w) ∷ d) k j h = ground (arith, has-remove d k j)

  pub remove-IsUnique : (d : Dict K V) (k : K) → IsUnique d → IsUnique (remove d k)
  unfolding remove
  remove-IsUnique [] k h = tt
  remove-IsUnique ((i, w) ∷ d) k (new, h) = elim (Bool-cases (e.beq i k)) [
    | inl q ↦ rw (q, remove) (remove-IsUnique d k h)
    | inr q ↦ rw (q, remove) (has-remove d k i new, remove-IsUnique d k h)
  ]

  module _ (f : K → V → Option V) where
    has-select : (d : Dict K V) (j : K) → has d j ≡ false → has (select f d) j ≡ false
    unfolding has select
    has-select [] j h = refl
    has-select ((i, w) ∷ d) j h = ground (arith, has-select d j)

    pub select-IsUnique : (d : Dict K V) → IsUnique d → IsUnique (select f d)
    unfolding select
    select-IsUnique [] h = tt
    select-IsUnique ((i, w) ∷ d) (new, h) = elim (Option-cases (f i w)) [
      | inl q ↦ rw (q, IsUnique, select) (select-IsUnique d h)
      | inr (v, q) ↦ rw (q, IsUnique, select) (has-select d i new, select-IsUnique d h)
    ]

    -- A key is kept with what `f` gives for it.
    pub get-select :
        (d : Dict K V) (j : K)
        → IsUnique d
        → get (select f d) j ≡ elim (get d j) [ none ↦ none | some v ↦ f j v ]
    unfolding get select
    get-select [] j h = refl
    get-select ((i, w) ∷ d) j (new, h) = ground (
      arith,
      get-select d j h,
      has-eq-false d i new,
      has-eq-false d j,
      e.beq_iff i j,
      Option-cases (f i w),
    )
