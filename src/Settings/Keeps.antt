-- ===== src/Settings/Keeps.antt =====
-- gui/settings_validation.py: which settings the steps of the validation leave as they are.
use quick_find.Prelude.{
  ◌≡◌, refl, ap, ◌∙◌, subst, Bool, true, false, List, [], ◌∷◌, Option, none, some, if◌then◌else◌,
  any, All, arith,
}
use quick_find.Text.{Text, codes}
use quick_find.Dict.{get, put, text_key}
use quick_find.Settings.{
  Value, null, Settings, index_case_modes, theme_names, language_codes, string_fields,
  string_list_fields, Warning, reset, truth_of,
}
use quick_find.Settings.Sanitize.{
  Checked, Checks, ◌>>=◌, empty, file_of, warn, set_to, value_or, strip_fields, set_kept,
  set_tested, clear_file, check_regexes, check_choices, coerce_lists, check_choice, check_bind,
  check_file, check_https, check_paths, check_extensions, check_lists, check_files,
}

module _ (ck : Checks) (defaults : Settings) where
  abbrev pub default_bind : Checked → Option Value → Option Checked
  default_bind c none = none
  default_bind c (some default) =
      some (warn (reset (codes "http_bind")) (set_to (codes "http_bind") default c))

  pub after_bind :
      (o : Option Checked) (step : Checked → Option Checked) (c : Checked)
      → (o >>= step) ≡ some c
      → (x : Checked) × (o ≡ some x) × (step x ≡ some c)
  after_bind none step c e = ground (arith, e)
  after_bind (some x) step c e = (x, refl, e)

  abbrev pub choices_keys : List Text
  choices_keys =
      codes "network_share_roots"
      ∷ codes "index_case_mode"
      ∷ codes "theme_name"
      ∷ codes "language"
      ∷ []

  abbrev pub files_keys : List Text
  files_keys =
      codes "https_cert_file"
      ∷ codes "https_key_file"
      ∷ codes "http_use_https"
      ∷ codes "efu_files"
      ∷ codes "content_index_roots"
      ∷ codes "content_index_extensions"
      ∷ []

  -- What is observed of the settings does not depend on the keys that are not touched.
  module _ {X : Type 0} (obs : Settings → X) (touches : Text → Bool)
      (blind : (d : Settings) (key : Text) (v : Value)
        → touches key ≡ false
        → obs (put d key v) ≡ obs d) where
    abbrev pub Free : Text → Type 0
    Free key = touches key ≡ false

    -- A step keeps what is observed.
    pub record Keeps (c c' : Checked) : Type 0 where
      pub same : obs c'.0 ≡ obs c.0

    pub nothing-Keeps : (c : Checked) → Keeps c c
    nothing-Keeps c = record { same = refl }

    infixr 20 ◌then◌
    ◌then◌ : {a b c : Checked} → Keeps b c → Keeps a b → Keeps a c
    q then p = record { same = q.same ∙ p.same }

    pub put-Keeps :
        (key : Text) (v : Value) (c : Checked) (warnings : List Warning)
        → touches key ≡ false
        → Keeps c (put c.0 key v, warnings)
    put-Keeps key v c warnings free = record { same = blind c.0 key v free }

    if-Keeps :
        (c : Checked) (test : Bool) (one other : Checked)
        → Keeps c one
        → Keeps c other
        → Keeps c (if test then one else other)
    if-Keeps c true one other a b = a
    if-Keeps c false one other a b = b

    strip_fields-Keeps :
        (keys : List Text) (c : Checked)
        → any (λ key. touches key) keys ≡ false
        → Keeps c (strip_fields ck defaults keys c)
    unfolding strip_fields set_to
    strip_fields-Keeps [] c free = nothing-Keeps c
    strip_fields-Keeps (key ∷ keys) c free =
        strip_fields-Keeps keys _ (ground (arith, free))
        then put-Keeps key _ c _ (ground (arith, free))

    set_kept-Keeps :
        (key : Text) (k : List Text × List Warning) (c : Checked)
        → touches key ≡ false
        → Keeps c (set_kept ck defaults key k c)
    unfolding set_kept set_to
    set_kept-Keeps key k c free = put-Keeps key _ c _ free

    coerce_lists-Keeps :
        (keys : List Text) (c : Checked)
        → any (λ key. touches key) keys ≡ false
        → Keeps c (coerce_lists ck defaults keys c)
    unfolding coerce_lists set_to
    coerce_lists-Keeps [] c free = nothing-Keeps c
    coerce_lists-Keeps (key ∷ keys) c free =
        coerce_lists-Keeps keys _ (ground (arith, free))
        then set_kept-Keeps key _ c (ground (arith, free))

    check_choice-Keeps :
        (key : Text) (choices : List Text) (fallback : Text) (c : Checked)
        → touches key ≡ false
        → Keeps c (check_choice ck defaults key choices fallback c)
    unfolding check_choice set_to
    check_choice-Keeps key choices fallback c free =
        if-Keeps c _ c _ (nothing-Keeps c) (put-Keeps key _ c _ free)

    pub check_https-Keeps :
        (c : Checked) → Free (codes "http_use_https") → Keeps c (check_https ck defaults c)
    unfolding check_https set_to
    check_https-Keeps c free =
        if-Keeps c _ _ _ (put-Keeps (codes "http_use_https") _ c _ free) (nothing-Keeps c)

    unwrap : Checked → Option Checked → Checked
    unwrap d none = d
    unwrap d (some c) = c

    pub some-Keeps : (c x c' : Checked) → Keeps c x → some x ≡ some c' → Keeps c c'
    unfolding unwrap
    some-Keeps c x c' k e = subst (λ y. Keeps c y) (ap (unwrap x) e) k

    if_some-Keeps :
        (c c' : Checked) (test : Bool) (o : Option Checked)
        → (o ≡ some c' → Keeps c c')
        → (if test then some c else o) ≡ some c'
        → Keeps c c'
    if_some-Keeps c c' true o k e = some-Keeps c c c' (nothing-Keeps c) e
    if_some-Keeps c c' false o k e = k e

    -- A step that may raise keeps what is observed.
    abbrev pub StepKeeps : (Checked → Option Checked) → Type 0
    StepKeeps step = (c c' : Checked) → step c ≡ some c' → Keeps c c'

    bind-Keeps :
        (c c' : Checked) (o : Option Checked) (step : Checked → Option Checked)
        → ((x : Checked) → o ≡ some x → Keeps c x)
        → StepKeeps step
        → (o >>= step) ≡ some c'
        → Keeps c c'
    bind-Keeps c c' o step k l e =
        let (x, first, rest) = after_bind o step c' e in l x c' rest then k x first

    set_tested-Keeps :
        (key : Text) (o : Option (List Text × List Warning))
        → touches key ≡ false
        → StepKeeps (set_tested ck defaults key o)
    unfolding set_tested
    set_tested-Keeps key none free c c' e = ground (arith, e)
    set_tested-Keeps key (some k) free c c' e = some-Keeps c _ c' (set_kept-Keeps key k c free) e

    pub check_paths-Keeps :
        (key : Text) → touches key ≡ false → StepKeeps (check_paths ck defaults key)
    unfolding check_paths
    check_paths-Keeps key free c c' e = set_tested-Keeps key _ free c c' e

    clear_file-Keeps :
        (key : Text) (c c' : Checked) (o : Option Bool)
        → touches key ≡ false
        → clear_file ck defaults key c o ≡ some c'
        → Keeps c c'
    unfolding clear_file set_to
    clear_file-Keeps key c c' none free e = ground (arith, e)
    clear_file-Keeps key c c' (some true) free e = some-Keeps c c c' (nothing-Keeps c) e
    clear_file-Keeps key c c' (some false) free e = some-Keeps c _ c' (put-Keeps key _ c _ free) e

    pub check_file-Keeps :
        (key : Text) → touches key ≡ false → StepKeeps (check_file ck defaults key)
    unfolding check_file
    check_file-Keeps key free c c' e =
        if_some-Keeps c c' (empty (file_of ck defaults key c))
          (clear_file ck defaults key c (ck.path_exists (file_of ck defaults key c)))
          (λ e'. clear_file-Keeps key c c' (ck.path_exists (file_of ck defaults key c)) free e') e

    check_choices-Keeps :
        (c : Checked) → All Free choices_keys → Keeps c (check_choices ck defaults c)
    unfolding check_choices
    check_choices-Keeps c (f₁, (f₂, (f₃, (f₄, _)))) =
        check_choice-Keeps (codes "language") language_codes (codes "en") _ f₄
        then check_choice-Keeps (codes "theme_name") theme_names (codes "mocha") _ f₃
        then check_choice-Keeps (codes "index_case_mode") index_case_modes (codes "smart") _ f₂
        then set_kept-Keeps (codes "network_share_roots") _ c f₁

    check_regexes-Keeps : Free (codes "exclude_regexes") → StepKeeps (check_regexes ck defaults)
    unfolding check_regexes
    check_regexes-Keeps free c c' e = set_tested-Keeps (codes "exclude_regexes") _ free c c' e

    -- The steps from the regular expressions to the choices.
    pub listed-Keeps :
        (c c' : Checked)
        → All Free (codes "exclude_regexes" ∷ choices_keys)
        → (check_regexes ck defaults c >>= λ x. some (check_choices ck defaults x)) ≡ some c'
        → Keeps c c'
    listed-Keeps c c' (f, fs) e =
        bind-Keeps c c' _ _ (λ x first. check_regexes-Keeps f c x first)
          (λ x y done. some-Keeps x _ y (check_choices-Keeps x fs) done) e

    default_bind-Keeps :
        (c c' : Checked) (o : Option Value)
        → Free (codes "http_bind")
        → default_bind c o ≡ some c'
        → Keeps c c'
    unfolding set_to
    default_bind-Keeps c c' none free e = ground (arith, e)
    default_bind-Keeps c c' (some default) free e =
        some-Keeps c _ c' (put-Keeps (codes "http_bind") default c _ free) e

    pub check_bind-Keeps : Free (codes "http_bind") → StepKeeps (check_bind ck defaults)
    unfolding check_bind
    check_bind-Keeps free c c' e =
        if_some-Keeps c c' (truth_of (value_or c.0 (codes "http_bind") null))
          (default_bind c (get defaults (codes "http_bind")))
          (default_bind-Keeps c c' (get defaults (codes "http_bind")) free) e

    pub check_lists-Keeps :
        any touches string_list_fields ≡ false
        → any touches string_fields ≡ false
        → All Free (codes "exclude_regexes" ∷ choices_keys)
        → StepKeeps (check_lists ck defaults)
    unfolding check_lists
    check_lists-Keeps f g fs c c' e =
        listed-Keeps _ c' fs e
        then coerce_lists-Keeps string_list_fields _ f
        then strip_fields-Keeps string_fields c g

    pub check_files-Keeps : All Free files_keys → StepKeeps (check_files ck defaults)
    unfolding check_files check_extensions
    check_files-Keeps (f₁, (f₂, (f₃, (f₄, (f₅, (f₆, _)))))) c c' e =
        bind-Keeps c c' _ _
          (λ x5 e5.
            bind-Keeps c x5 _ _
              (λ x4 e4.
                bind-Keeps c x4 _ _
                  (λ x3 e3.
                    bind-Keeps c x3 _ _
                      (λ x2 e2.
                        bind-Keeps c x2 _ _ (check_file-Keeps (codes "https_cert_file") f₁ c)
                          (check_file-Keeps (codes "https_key_file") f₂) e2)
                      (λ x y done. some-Keeps x _ y (check_https-Keeps x f₃) done) e3)
                  (check_paths-Keeps (codes "efu_files") f₄) e4)
              (check_paths-Keeps (codes "content_index_roots") f₅) e5)
          (λ x y done.
            some-Keeps x _ y (set_kept-Keeps (codes "content_index_extensions") _ x f₆) done)
          e
