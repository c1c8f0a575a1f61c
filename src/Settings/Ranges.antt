-- ===== src/Settings/Ranges.antt =====
-- gui/settings_validation.py: the numbers of a sanitized profile lie in their ranges.
use quick_find.Prelude.{
  ◌≡◌, refl, sym, ap, ◌∙◌, subst, Bool, true, false, ◌&&◌, List, [], ◌∷◌, Option, none, some,
  if◌then◌else◌, any, all, arith,
}
use quick_find.Text.{Text, codes, text_eq, text_eq_iff}
use quick_find.Dict.{get, put, text_key, get-put, get-put_self}
use quick_find.Settings.{
  Converted, number, refused, overflow, Value, null, integer, Settings, Range, int_ranges, truth_of,
}
use quick_find.Settings.Keeps.{
  after_bind, default_bind, check_files-Keeps, check_bind-Keeps, check_lists-Keeps,
}
use quick_find.Settings.Sanitize.{
  Checked, Checks, ◌>>=◌, set_to, to_int, value_or, within, coerced_int, coerce_int, coerce_ints,
  check_bind, check_lists, check_files, take_known, sanitize_settings_data,
}

module _ (ck : Checks) (defaults : Settings) where
  abbrev pub is_within : Range → Option Value → Bool
  is_within r (some (integer z)) = within ck defaults r z
  is_within r _ = false

  abbrev pub in_range : Settings → Range → Bool
  in_range d r = is_within r (get d r.name)

  abbrev pub in_ranges : Settings → Bool
  in_ranges d = all (in_range d) int_ranges

  -- No range has this name.
  abbrev names : Text → List Range → Bool
  names key rs = any (λ r. text_eq key r.name) rs

  coerced_int-get :
      (r : Range) (default : Value) (converted : Converted) (c c' : Checked) (key : Text)
      → coerced_int ck defaults r default converted c ≡ some c'
      → text_eq r.name key ≡ false
      → get c'.0 key ≡ get c.0 key
  unfolding coerced_int set_to
  coerced_int-get r default (number z) c c' key e other =
      ground (arith, e, get-put c.0 r.name key (integer z), get-put c.0 r.name key default, other)
  coerced_int-get r default refused c c' key e other =
      ground (arith, e, get-put c.0 r.name key default, other)
  coerced_int-get r default overflow c c' key e other = ground (arith, e)

  coerced_int-in_range :
      (r : Range) (default : Value) (converted : Converted) (c c' : Checked)
      → coerced_int ck defaults r default converted c ≡ some c'
      → is_within r (some default) ≡ true
      → in_range c'.0 r ≡ true
  unfolding coerced_int set_to
  coerced_int-in_range r default (number z) c c' e ok =
      ground (arith, e, ok, get-put_self c.0 r.name (integer z), get-put_self c.0 r.name default)
  coerced_int-in_range r default refused c c' e ok =
      ground (arith, e, ok, get-put_self c.0 r.name default)
  coerced_int-in_range r default overflow c c' e ok = ground (arith, e)

  coerce_int-get :
      (r : Range) (c c' : Checked) (key : Text)
      → coerce_int ck defaults r c ≡ some c'
      → text_eq r.name key ≡ false
      → get c'.0 key ≡ get c.0 key
  unfolding coerce_int
  coerce_int-get r c c' key e other = from (get defaults r.name) e
    where
      from :
          (o : Option Value)
          → elim o as (λ _. Option Checked) [
            | none ↦ none
            | some default ↦
                coerced_int ck defaults r default (to_int ck defaults (value_or c.0 r.name null)) c
          ]
            ≡ some c'
          → get c'.0 key ≡ get c.0 key
      from none e' = ground (arith, e')
      from (some default) e' = coerced_int-get r default _ c c' key e' other

  coerce_int-in_range :
      (r : Range) (c c' : Checked)
      → coerce_int ck defaults r c ≡ some c'
      → in_range defaults r ≡ true
      → in_range c'.0 r ≡ true
  unfolding coerce_int
  coerce_int-in_range r c c' e ok = from (get defaults r.name) e ok
    where
      from :
          (o : Option Value)
          → elim o as (λ _. Option Checked) [
            | none ↦ none
            | some default ↦
                coerced_int ck defaults r default (to_int ck defaults (value_or c.0 r.name null)) c
          ]
            ≡ some c'
          → is_within r o ≡ true
          → in_range c'.0 r ≡ true
      from none e' h = ground (arith, e')
      from (some default) e' h = coerced_int-in_range r default _ c c' e' h

  coerce_ints-get :
      (rs : List Range) (c c' : Checked) (key : Text)
      → coerce_ints ck defaults rs c ≡ some c'
      → any (λ r. text_eq r.name key) rs ≡ false
      → get c'.0 key ≡ get c.0 key
  unfolding coerce_ints
  coerce_ints-get [] c c' key e other = ground (arith, e)
  coerce_ints-get (r ∷ rs) c c' key e other =
      from (coerce_int ck defaults r c)
        (λ c1 e'. coerce_ints-get rs c1 c' key e' (ground (arith, other))) refl e
    where
      from :
          (o : Option Checked)
          → ((c1 : Checked) → coerce_ints ck defaults rs c1 ≡ some c' → get c'.0 key ≡ get c1.0 key)
          → coerce_int ck defaults r c ≡ o
          → (o >>= coerce_ints ck defaults rs) ≡ some c'
          → get c'.0 key ≡ get c.0 key
      from none rest q e' = ground (arith, e')
      from (some c1) rest q e' = rest c1 e' ∙ coerce_int-get r c c1 key q (ground (arith, other))

  -- No two ranges have the same name.
  abbrev pub Distinct : List Range → Type 0
  Distinct [] = Unit
  Distinct (r ∷ rs) = (any (λ s. text_eq s.name r.name) rs ≡ false) × Distinct rs

  coerce_ints-in_range :
      (rs : List Range) (c c' : Checked)
      → Distinct rs
      → all (in_range defaults) rs ≡ true
      → coerce_ints ck defaults rs c ≡ some c'
      → all (in_range c'.0) rs ≡ true
  unfolding coerce_ints
  coerce_ints-in_range [] c c' d ok e = refl
  coerce_ints-in_range (r ∷ rs) c c' (new, d) ok e =
      from (coerce_int ck defaults r c)
        (λ c1 e'. coerce_ints-in_range rs c1 c' d (ground (arith, ok)) e') refl e
    where
      from :
          (o : Option Checked)
          → ((c1 : Checked)
              → coerce_ints ck defaults rs c1 ≡ some c'
              → all (in_range c'.0) rs ≡ true)
          → coerce_int ck defaults r c ≡ o
          → (o >>= coerce_ints ck defaults rs) ≡ some c'
          → all (in_range c'.0) (r ∷ rs) ≡ true
      from none rest q e' = ground (arith, e')
      from (some c1) rest q e' = ground (
        arith,
        rest c1 e',
        ap (is_within r) (coerce_ints-get rs c1 c' r.name e' new),
        coerce_int-in_range r c c1 q (ground (arith, ok)),
      )

  put-in_ranges :
      (rs : List Range) (d : Settings) (key : Text) (v : Value)
      → names key rs ≡ false
      → all (in_range (put d key v)) rs ≡ all (in_range d) rs
  put-in_ranges [] d key v free = refl
  put-in_ranges (r ∷ rs) d key v free = ground (
    arith,
    put-in_ranges rs d key v (ground (arith, free)),
    ap (is_within r) (get-put d key r.name v),
    free,
  )

  pub int_ranges-Distinct : Distinct int_ranges
  unfolding text_eq
  int_ranges-Distinct =
      (refl, (refl, (refl, (refl, (refl, (refl, (refl, (refl, (refl, (refl, (refl, tt)))))))))))

  abbrev touched : Text → Bool
  touched key = names key int_ranges

  pub in_ranges_of :
      (given : Settings) (c : Checked)
      → in_ranges defaults ≡ true
      → sanitize_settings_data ck defaults given ≡ some c
      → in_ranges c.0 ≡ true
  unfolding sanitize_settings_data text_eq
  in_ranges_of given c ok e =
      let (c3, third, last) = after_bind ck defaults _ (check_files ck defaults) c e in
      let (c2, second, bound) = after_bind ck defaults _ (check_bind ck defaults) c3 third in
      let (c1, first, listed) =
        after_bind ck defaults
          (coerce_ints ck defaults int_ranges (take_known ck defaults given defaults defaults, []))
          (check_lists ck defaults) c2 second in
      (check_files-Keeps ck defaults in_ranges touched (put-in_ranges int_ranges)
        (refl, (refl, (refl, (refl, (refl, (refl, tt)))))) c3 c last).same
      ∙ (check_bind-Keeps ck defaults in_ranges touched (put-in_ranges int_ranges) refl c2 c3
          bound).same
      ∙ (check_lists-Keeps ck defaults in_ranges touched (put-in_ranges int_ranges) refl refl
          (refl, (refl, (refl, (refl, (refl, tt))))) c1 c2 listed).same
      ∙ coerce_ints-in_range int_ranges (take_known ck defaults given defaults defaults, []) c1
          int_ranges-Distinct ok first

  -- `int` does not raise an `OverflowError` on the value.
  abbrev pub is_finite : Settings → Range → Bool
  is_finite d r = elim (to_int ck defaults (value_or d r.name null)) [
    | number z ↦ true
    | refused ↦ true
    | overflow ↦ false
  ]

  coerced_int-total :
      (r : Range) (default : Value) (converted : Converted) (c : Checked)
      → elim converted as (λ _. Bool) [ number z ↦ true | refused ↦ true | overflow ↦ false ] ≡ true
      → (c' : Checked) × (coerced_int ck defaults r default converted c ≡ some c')
  unfolding coerced_int
  coerced_int-total r default (number z) c h = (_, refl)
  coerced_int-total r default refused c h = (_, refl)
  coerced_int-total r default overflow c h = ground (arith, h)

  coerce_int-total :
      (r : Range) (c : Checked)
      → in_range defaults r ≡ true
      → is_finite c.0 r ≡ true
      → (c' : Checked) × (coerce_int ck defaults r c ≡ some c')
  unfolding coerce_int
  coerce_int-total r c ok h = from (get defaults r.name) ok
    where
      from :
          (o : Option Value)
          → is_within r o ≡ true
          → (c' : Checked) × (elim o as (λ _. Option Checked) [
            | none ↦ none
            | some default ↦
                coerced_int ck defaults r default (to_int ck defaults (value_or c.0 r.name null)) c
          ]
              ≡ some c')
      from none e = ground (arith, e)
      from (some default) e = coerced_int-total r default _ c h

  finite_after :
      (rs : List Range) (r : Range) (c c' : Checked)
      → coerce_int ck defaults r c ≡ some c'
      → any (λ s. text_eq s.name r.name) rs ≡ false
      → all (is_finite c.0) rs ≡ true
      → all (is_finite c'.0) rs ≡ true
  unfolding value_or
  finite_after [] r c c' e new h = refl
  finite_after (s ∷ rs) r c c' e new h =
      both (is_finite c'.0 s) (all (is_finite c'.0) rs)
        (subst (λ o. finite_value o ≡ true)
          (sym (coerce_int-get r c c' s.name e (differ s.name r.name (ground (arith, new)))))
          (ground (arith, h)))
        (finite_after rs r c c' e (ground (arith, new)) (ground (arith, h)))
    where
      finite_value : Option Value → Bool
      finite_value o = elim (to_int ck defaults (elim o [ some v ↦ v | none ↦ null ])) [
        | number z ↦ true
        | refused ↦ true
        | overflow ↦ false
      ]

      differ : (s t : Text) → text_eq s t ≡ false → text_eq t s ≡ false
      differ s t h = ground (arith, h, text_eq_iff s t, text_eq_iff t s)

      both : (a b : Bool) → a ≡ true → b ≡ true → (a && b) ≡ true
      both a b p q = ground arith

  pub coerce_ints-total :
      (rs : List Range) (c : Checked)
      → Distinct rs
      → all (in_range defaults) rs ≡ true
      → all (is_finite c.0) rs ≡ true
      → (c' : Checked) × (coerce_ints ck defaults rs c ≡ some c')
  unfolding coerce_ints
  coerce_ints-total [] c d ok h = (c, refl)
  coerce_ints-total (r ∷ rs) c (new, d) ok h =
      let (c1, e) = coerce_int-total r c (ground (arith, ok)) (ground (arith, h)) in
      let (c', e') =
        coerce_ints-total rs c1 d (ground (arith, ok))
          (finite_after rs r c c1 e new (ground (arith, h))) in
      (c', ap (λ o. o >>= coerce_ints ck defaults rs) e ∙ e')

  pub check_bind-total :
      (c : Checked) (default : Value)
      → get defaults (codes "http_bind") ≡ some default
      → (c' : Checked) × (check_bind ck defaults c ≡ some c')
  unfolding check_bind
  check_bind-total c default e = from (truth_of (value_or c.0 (codes "http_bind") null))
    where
      from :
          (test : Bool)
          → (c' : Checked) × ((if test
                then some c
                else default_bind ck defaults c (get defaults (codes "http_bind")))
              ≡ some c')
      from true = (c, refl)
      from false = (_, ap (default_bind ck defaults c) e)
