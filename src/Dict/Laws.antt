-- ===== src/Dict/Laws.antt =====
-- What a lookup gives after a write.
use quick_find.Prelude.{◌≡◌, refl, true, false, [], ◌∷◌, none, some, arith, if◌then◌else◌, ◌≢◌}
use quick_find.Dict.Defs.{Eq, Dict, get, put, remove, has}

module _ {ℓ} {K : Type ℓ} ⦃e : Eq K⦄ where
  pub beq-false : (k j : K) → k ≢ j → e.beq k j ≡ false
  beq-false k j h = ground (arith, e.beq_iff k j)

  pub beq-true : (k : K) → e.beq k k ≡ true
  beq-true k = (e.beq_iff k k).1 refl

module _ {ℓ κ} {K : Type ℓ} {V : Type κ} ⦃e : Eq K⦄ where
  pub get-put :
      (d : Dict K V) (k j : K) (v : V) → get (put d k v) j ≡ (if e.beq k j then some v else get d j)
  unfolding get put
  get-put [] k j v = refl
  get-put ((i, w) ∷ d) k j v =
      ground (arith, get-put d k j v, e.beq_iff i k, e.beq_iff i j, e.beq_iff k j)

  pub get-remove :
      (d : Dict K V) (k j : K) → get (remove d k) j ≡ (if e.beq k j then none else get d j)
  unfolding get remove
  get-remove [] k j = ground arith
  get-remove ((i, w) ∷ d) k j =
      ground (arith, get-remove d k j, e.beq_iff i k, e.beq_iff i j, e.beq_iff k j)

  pub get-put_self : (d : Dict K V) (k : K) (v : V) → get (put d k v) k ≡ some v
  get-put_self d k v = ground (arith, get-put d k k v, beq-true k)

  pub get-put_ne : (d : Dict K V) (k j : K) (v : V) → k ≢ j → get (put d k v) j ≡ get d j
  get-put_ne d k j v h = ground (arith, get-put d k j v, beq-false k j h)

  pub has-eq-true : (d : Dict K V) (k : K) → has d k ≡ true → (v : V) × (get d k ≡ some v)
  unfolding get has
  has-eq-true [] k h = ground arith
  has-eq-true ((j, v) ∷ d) k h =
      elim (e.beq j k)
          as (λ b.
            (if b then true else has d k) ≡ true
            → (w : V) × ((if b then some v else get d k) ≡ some w)) [
              | true ↦ λ _. (v, refl)
              | false ↦ λ h'. has-eq-true d k h'
            ]
        h

  -- A write that gives every item back leaves the dictionary as it was.
  pub put-get : (d : Dict K V) (k : K) (v : V) → get d k ≡ some v → put d k v ≡ d
  unfolding get put
  put-get [] k v h = ground arith
  put-get ((j, w) ∷ d) k v h = ground (arith, put-get d k v)
