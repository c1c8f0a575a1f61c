-- ===== src/Settings/Answered.antt =====
-- gui/settings_validation.py: where the validation gives settings, for the texts of a profile.
use quick_find.Prelude.{
  ◌≡◌, refl, ap, ◌∙◌, subst, Bool, true, false, ◌&&◌, ◌||◌, List, [], ◌∷◌, Option, none, some,
  if◌then◌else◌, all, arith,
}
use quick_find.Text.{Text, codes, strip, text_eq}
use quick_find.Dict.{get, put, text_key, get-put}
use quick_find.Settings.{
  Value, Values, nil, cons, null, array, Settings, int_ranges, string_fields, string_list_fields,
  Warning, items_of, text_of,
}
use quick_find.Settings.Keeps.{
  listed-Keeps, check_bind-Keeps, check_file-Keeps, check_https-Keeps, check_paths-Keeps,
}
use quick_find.Settings.Ranges.{
  in_ranges, is_finite, coerce_ints-total, check_bind-total, int_ranges-Distinct, in_ranges_of,
}
use quick_find.Settings.Sanitize.{
  Checked, Checks, ◌>>=◌, empty, file_of, texts_of, value_or, strip_fields, set_tested,
  tested_entry, valid_regexes, existing_paths, paths_of, clear_file, check_regexes, check_choices,
  coerce_ints, coerce_lists, check_bind, check_file, check_https, check_paths, check_extensions,
  check_lists, check_files, take_known, sanitize_settings_data,
}

abbrev pub answered : Option Bool → Bool
answered none = false
answered (some b) = true

module _ (ck : Checks) (defaults : Settings) where
  -- The calls on the texts of a value answer.
  abbrev pub patterns_answered : List Text → Bool
  patterns_answered patterns = all (λ p. answered (ck.compiles p)) patterns

  abbrev pub path_answered : Text → Bool
  path_answered path = empty path || answered (ck.path_exists path)

  abbrev pub items_answered : Values → Bool
  items_answered nil = true
  items_answered (cons item items) =
      path_answered (elim (text_of item) [ some s ↦ strip s | none ↦ [] ]) && items_answered items

  abbrev pub paths_answered : Option Values → Bool
  paths_answered none = true
  paths_answered (some items) = items_answered items

  abbrev pub file_at : Option Value → Bool
  file_at v =
      path_answered
        (elim (text_of (elim v [ some v ↦ v | none ↦ null ])) [ some s ↦ s | none ↦ [] ])

  abbrev pub paths_at : Option Value → Bool
  paths_at v = paths_answered (items_of (elim v [ some v ↦ v | none ↦ array nil ]))

  abbrev pub patterns_at : Option Value → Bool
  patterns_at v = patterns_answered (texts_of ck defaults (elim v [ some v ↦ v | none ↦ null ]))

  -- The calls on the regular expressions and the paths of some settings answer.
  pub record Answers (d : Settings) : Type 0 where
    pub patterns : patterns_at (get d (codes "exclude_regexes")) ≡ true
    pub cert : file_at (get d (codes "https_cert_file")) ≡ true
    pub key : file_at (get d (codes "https_key_file")) ≡ true
    pub files : paths_at (get d (codes "efu_files")) ≡ true
    pub roots : paths_at (get d (codes "content_index_roots")) ≡ true

  abbrev Gives : Option (List Text × List Warning) → Type 0
  Gives o = (k : List Text × List Warning) × (o ≡ some k)

  abbrev Steps : Option Checked → Type 0
  Steps o = (c : Checked) × (o ≡ some c)

  tested_entry-Gives :
      (name entry : Text) (o : Option Bool) (rest : Option (List Text × List Warning))
      → answered o ≡ true
      → Gives rest
      → Gives (tested_entry ck defaults name entry o rest)
  unfolding tested_entry
  tested_entry-Gives name entry none rest e h = ground (arith, e)
  tested_entry-Gives name entry (some ok) none h (k, e) = ground (arith, e)
  tested_entry-Gives name entry (some ok) (some k) h h' = (_, refl)

  valid_regexes-Gives :
      (ps : List Text) → patterns_answered ps ≡ true → Gives (valid_regexes ck defaults ps)
  unfolding valid_regexes
  valid_regexes-Gives [] h = (_, refl)
  valid_regexes-Gives (p ∷ ps) h =
      tested_entry-Gives _ p (ck.compiles p) _ (ground (arith, h))
        (valid_regexes-Gives ps (ground (arith, h)))

  existing_paths-Gives :
      (name : Text) (items : Values)
      → items_answered items ≡ true
      → Gives (existing_paths ck defaults name items)
  unfolding existing_paths
  existing_paths-Gives name nil h = (_, refl)
  existing_paths-Gives name (cons item items) h =
      let path : Text = elim (text_of item) [ some s ↦ strip s | none ↦ [] ] in
      tested_entry-Gives name path (if empty path then some false else ck.path_exists path) _
        (ground (arith, h)) (existing_paths-Gives name items (ground (arith, h)))

  paths_of-Gives :
      (name : Text) (o : Option Values)
      → paths_answered o ≡ true
      → Gives (paths_of ck defaults name o)
  unfolding paths_of
  paths_of-Gives name none h = (_, refl)
  paths_of-Gives name (some items) h = existing_paths-Gives name items h

  set_tested-Steps :
      (name : Text) (o : Option (List Text × List Warning)) (c : Checked)
      → Gives o
      → Steps (set_tested ck defaults name o c)
  unfolding set_tested
  set_tested-Steps name none c (k, e) = ground (arith, e)
  set_tested-Steps name (some k) c h = (_, refl)

  check_regexes-Steps :
      (c : Checked)
      → patterns_at (get c.0 (codes "exclude_regexes")) ≡ true
      → Steps (check_regexes ck defaults c)
  unfolding check_regexes value_or
  check_regexes-Steps c h = set_tested-Steps _ _ c (valid_regexes-Gives _ h)

  check_paths-Steps :
      (name : Text) (c : Checked)
      → paths_at (get c.0 name) ≡ true
      → Steps (check_paths ck defaults name c)
  unfolding check_paths value_or
  check_paths-Steps name c h =
      let listed = items_of (value_or c.0 name (array nil)) in
      set_tested-Steps name (paths_of ck defaults name listed) c (paths_of-Gives name listed h)

  clear_file-Steps :
      (name : Text) (c : Checked) (o : Option Bool)
      → answered o ≡ true
      → Steps (clear_file ck defaults name c o)
  unfolding clear_file
  clear_file-Steps name c none e = ground (arith, e)
  clear_file-Steps name c (some true) h = (_, refl)
  clear_file-Steps name c (some false) h = (_, refl)

  check_file-Steps :
      (name : Text) (c : Checked)
      → file_at (get c.0 name) ≡ true
      → Steps (check_file ck defaults name c)
  unfolding check_file value_or
  check_file-Steps name c h =
      unless_empty (empty (file_of ck defaults name c))
        (ck.path_exists (file_of ck defaults name c)) h
    where
      unless_empty :
          (b : Bool) (o : Option Bool)
          → (b || answered o) ≡ true
          → Steps (if b then some c else clear_file ck defaults name c o)
      unless_empty true o h = (c, refl)
      unless_empty false o h = clear_file-Steps name c o h

  bind-Steps :
      (o : Option Checked) (step : Checked → Option Checked)
      → ((x : Checked) × (o ≡ some x) × Steps (step x))
      → Steps (o >>= step)
  bind-Steps o step (x, e, (y, e')) = (y, ap (λ o. o >>= step) e ∙ e')

  -- The value of a key is not touched by a change of another.
  blind :
      (k : Text) (d : Settings) (key : Text) (v : Value)
      → text_eq key k ≡ false
      → get (put d key v) k ≡ get d k
  blind k d key v free = ground (arith, get-put d key k v, free)

  chain :
      {o : Option Checked} {x y : Checked} (step : Checked → Option Checked)
      → o ≡ some x
      → step x ≡ some y
      → (o >>= step) ≡ some y
  chain step e e' = ap (λ o. o >>= step) e ∙ e'

  -- The steps leave the value of a key that they do not write.
  module _ (j : Text) where
    abbrev Held : Checked → Checked → Type 0
    Held c c' = get c'.0 j ≡ get c.0 j

    file-Held :
        (name : Text) (c c' : Checked)
        → text_eq name j ≡ false
        → check_file ck defaults name c ≡ some c'
        → Held c c'
    file-Held name c c' free e =
        (check_file-Keeps ck defaults (λ d. get d j) (λ key. text_eq key j) (blind j) name free c c'
          e).same

    paths-Held :
        (name : Text) (c c' : Checked)
        → text_eq name j ≡ false
        → check_paths ck defaults name c ≡ some c'
        → Held c c'
    paths-Held name c c' free e =
        (check_paths-Keeps ck defaults (λ d. get d j) (λ key. text_eq key j) (blind j) name free c
          c' e).same

    https-Held :
        (c : Checked)
        → text_eq (codes "http_use_https") j ≡ false
        → Held c (check_https ck defaults c)
    https-Held c free =
        (check_https-Keeps ck defaults (λ d. get d j) (λ key. text_eq key j) (blind j) c free).same

    bind-Held :
        (c c' : Checked)
        → text_eq (codes "http_bind") j ≡ false
        → check_bind ck defaults c ≡ some c'
        → Held c c'
    bind-Held c c' free e =
        (check_bind-Keeps ck defaults (λ d. get d j) (λ key. text_eq key j) (blind j) free c c'
          e).same

    -- The five lists and choices that the steps after the cleaning write.
    listed-Held :
        (c c' : Checked)
        → (text_eq (codes "exclude_regexes") j ≡ false)
          × (text_eq (codes "network_share_roots") j ≡ false)
          × (text_eq (codes "index_case_mode") j ≡ false)
          × (text_eq (codes "theme_name") j ≡ false)
          × (text_eq (codes "language") j ≡ false)
        → (check_regexes ck defaults c >>= λ x. some (check_choices ck defaults x)) ≡ some c'
        → Held c c'
    listed-Held c c' (f₁, f₂, f₃, f₄, f₅) e =
        (listed-Keeps ck defaults (λ d. get d j) (λ key. text_eq key j) (blind j) c c'
          (f₁, (f₂, (f₃, (f₄, (f₅, tt))))) e).same

  -- The calls on the files and the paths answer.
  record PathsAnswer (d : Settings) : Type 0 where
    cert : file_at (get d (codes "https_cert_file")) ≡ true
    key : file_at (get d (codes "https_key_file")) ≡ true
    files : paths_at (get d (codes "efu_files")) ≡ true
    roots : paths_at (get d (codes "content_index_roots")) ≡ true

  check_files-Steps : (c : Checked) → PathsAnswer c.0 → Steps (check_files ck defaults c)
  unfolding check_files text_eq
  check_files-Steps c h =
      let cert = codes "https_cert_file" in
      let key = codes "https_key_file" in
      let files = codes "efu_files" in
      let roots = codes "content_index_roots" in
      let (d₁, e₁) = check_file-Steps cert c h.cert in
      let (d₂, e₂) =
        check_file-Steps key d₁ (ap file_at (file-Held key cert c d₁ refl e₁) ∙ h.key) in
      let d₃ = check_https ck defaults d₂ in
      let held : (j : Text)
          → text_eq cert j ≡ false
          → text_eq key j ≡ false
          → text_eq (codes "http_use_https") j ≡ false
          → get d₃.0 j ≡ get c.0 j =
        λ j f₁ f₂ f₃.
          https-Held j d₂ f₃ ∙ file-Held j key d₁ d₂ f₂ e₂ ∙ file-Held j cert c d₁ f₁ e₁ in
      let (d₄, e₄) =
        check_paths-Steps files d₃ (ap paths_at (held files refl refl refl) ∙ h.files) in
      let (d₅, e₅) = check_paths-Steps roots d₄ (
        ap paths_at (paths-Held roots files d₃ d₄ refl e₄ ∙ held roots refl refl refl) ∙ h.roots) in
      (
        _,
        chain (λ c'. some (check_extensions ck defaults (codes "content_index_extensions") c'))
            (chain (check_paths ck defaults roots)
              (chain (check_paths ck defaults files)
                (chain (λ c'. some (check_https ck defaults c'))
                  (chain (check_file ck defaults key) e₁ e₂) refl)
                e₄)
              e₅)
            refl,
      )

  -- The settings once the numbers are checked, texts stripped and lists cleaned.
  abbrev pub cleaned : Checked → Checked
  cleaned c = coerce_lists ck defaults string_list_fields (strip_fields ck defaults string_fields c)

  abbrev pub numbered : Settings → Checked
  numbered given =
      elim (coerce_ints ck defaults int_ranges
        (take_known ck defaults given defaults defaults, [])) [
          | some c ↦ c
          | none ↦ (take_known ck defaults given defaults defaults, [])
        ]

  check_lists-Steps :
      (c : Checked)
      → Answers (cleaned c).0
      → (c' : Checked) × (check_lists ck defaults c ≡ some c') × PathsAnswer c'.0
  unfolding check_lists text_eq
  check_lists-Steps c h =
      let c₀ = cleaned c in
      let (x, e) = check_regexes-Steps c₀ h.patterns in
      let c' = check_choices ck defaults x in
      let done : (check_regexes ck defaults c₀ >>= λ x. some (check_choices ck defaults x))
          ≡ some c' =
        chain (λ x. some (check_choices ck defaults x)) e refl in
      (
        c',
        done,
        record {
          cert =
              ap file_at
                (listed-Held (codes "https_cert_file") c₀ c' (refl, refl, refl, refl, refl) done)
              ∙ h.cert;
          key =
              ap file_at
                (listed-Held (codes "https_key_file") c₀ c' (refl, refl, refl, refl, refl) done)
              ∙ h.key;
          files =
              ap paths_at
                (listed-Held (codes "efu_files") c₀ c' (refl, refl, refl, refl, refl) done)
              ∙ h.files;
          roots =
              ap paths_at (
                listed-Held (codes "content_index_roots") c₀ c' (refl, refl, refl, refl, refl) done)
              ∙ h.roots;
        },
      )

  bind-PathsAnswer :
      (c c' : Checked) → check_bind ck defaults c ≡ some c' → PathsAnswer c.0 → PathsAnswer c'.0
  unfolding text_eq
  bind-PathsAnswer c c' e h = record {
    cert = ap file_at (bind-Held (codes "https_cert_file") c c' refl e) ∙ h.cert;
    key = ap file_at (bind-Held (codes "https_key_file") c c' refl e) ∙ h.key;
    files = ap paths_at (bind-Held (codes "efu_files") c c' refl e) ∙ h.files;
    roots = ap paths_at (bind-Held (codes "content_index_roots") c c' refl e) ∙ h.roots;
  }

  -- If the defaults have `http_bind` and numbers that lie in their ranges, `int` overflows on no
  -- number of the profile, `re.compile` raises nothing but `re.error` on its regular expressions and
  -- the test of a path raises nothing on its paths, once these are stripped, then the validation
  -- gives settings, with a whole number in the range of each of those names, whatever else the
  -- profile holds.
  pub sanitize_settings_data-in_ranges :
      (given : Settings) (default : Value)
      → in_ranges ck defaults defaults ≡ true
      → get defaults (codes "http_bind") ≡ some default
      → all (is_finite ck defaults (take_known ck defaults given defaults defaults)) int_ranges
        ≡ true
      → Answers (cleaned (numbered given)).0
      → (c : Checked) × (sanitize_settings_data ck defaults given ≡ some c)
        × (in_ranges ck defaults c.0 ≡ true)
  unfolding sanitize_settings_data
  sanitize_settings_data-in_ranges given default ok bind finite answers =
      let (c₁, e₁) =
        coerce_ints-total ck defaults int_ranges
          (take_known ck defaults given defaults defaults, []) (int_ranges-Distinct ck defaults) ok
          finite in
      let (c₂, e₂, paths) =
        check_lists-Steps c₁ (subst (λ c. Answers (cleaned c).0) (ap number_of e₁) answers) in
      let (c₃, e₃) = check_bind-total ck defaults c₂ default bind in
      let (c₄, e₄) = check_files-Steps c₃ (bind-PathsAnswer c₂ c₃ e₃ paths) in
      let done : sanitize_settings_data ck defaults given ≡ some c₄ =
        chain (check_files ck defaults)
          (chain (check_bind ck defaults) (chain (check_lists ck defaults) e₁ e₂) e₃) e₄ in
      (c₄, done, in_ranges_of ck defaults given c₄ ok done)
    where
      number_of : Option Checked → Checked
      number_of o = elim o [
        | some c ↦ c
        | none ↦ (take_known ck defaults given defaults defaults, [])
      ]
