-- ===== src/Settings/Sanitize.antt =====
-- gui/settings_validation.py, `sanitize_settings_data` and `migrate_settings_data`. An exception is
-- none; a step takes the settings with the warnings so far.
use quick_find.Prelude.{
  ℕ, ℤ, pos, negsuc, Bool, true, false, not, ◌&&◌, ◌||◌, List, [], ◌∷◌, ◌++◌, Option, none, some,
  if◌then◌else◌, any, leb, sorted, ◌==◌,
}
use quick_find.Text.{Text, Unicode, codes, strip, text_eq, text_leb}
use quick_find.Dict.{get, put, text_key}
use quick_find.Settings.{
  Converted, number, refused, overflow, Value, null, boolean, integer, floating, text, array,
  object, Values, nil, cons, Settings, Range, int_ranges, string_fields, index_case_modes,
  theme_names, language_codes, string_list_fields, Warning, reset, ignored, migrated, truth_of,
  items_of, text_of,
}

abbrev pub Checked : Type 0
Checked = Settings × List Warning

infixl 5 ◌>>=◌
abbrev pub ◌>>=◌ : Option Checked → (Checked → Option Checked) → Option Checked
none >>= step = none
some c >>= step = step c

abbrev pub empty : Text → Bool
empty [] = true
empty (c ∷ s) = false

-- `sanitized[key] = value`.
unfoldable pub set_to : Text → Value → Checked → Checked
unfolding put
set_to key value c = (put c.0 key value, c.1)

abbrev pub warn : Warning → Checked → Checked
warn w c = (c.0, c.1 ++ (w ∷ []))

-- `sanitized.get(key, default)`.
unfoldable pub value_or : Settings → Text → Value → Value
unfolding get
value_or d key default = elim (get d key) [ some v ↦ v | none ↦ default ]

abbrev pub texts : List Text → Values
texts [] = nil
texts (s ∷ ss) = cons (text s) (texts ss)

-- `s.lstrip('.')`.
unfoldable pub strip_dots : Text → Text
strip_dots [] = []
strip_dots (c ∷ s) = let rest = strip_dots s in if c == b'.' then rest else c ∷ s

-- `set(…)`, of which only the sorted list is used.
unfoldable pub distinct : List Text → List Text
unfolding text_eq
distinct [] = []
distinct (s ∷ ss) = let rest = distinct ss in if any (λ t. text_eq s t) rest then rest else s ∷ rest

-- A list of texts: the texts that are kept with the warnings on the items.
abbrev pub Kept : Type 0
Kept = List Text × List Warning

abbrev pub keep_text : Text → Kept → Kept
keep_text s k = (s ∷ k.0, k.1)

abbrev pub leave_out : Text → Kept → Kept
leave_out name k = (k.0, ignored name ∷ k.1)

-- What the validation takes from elsewhere: `lower`; `int` of a text; whether `re.compile` raises no
-- `re.error`, none where it raises something else, as the `OverflowError` of `a{99999999999}`;
-- whether `Path(p).expanduser().exists()`, none where it raises; and `normalize_network_root`, none
-- for a `ValueError`.
pub record Checks : Type 0 where
  pub unicode : Unicode
  pub parse_int : Text → Option ℤ
  pub compiles : Text → Option Bool
  pub path_exists : Text → Option Bool
  pub normalize_network_root : Text → Option Text

module _ (ck : Checks) (defaults : Settings) where
  unfoldable pub to_int : Value → Converted
  to_int null = refused
  to_int (boolean b) = number (pos (if b then 1 else 0))
  to_int (integer z) = number z
  to_int (floating truth converted) = converted
  to_int (text s) = elim (ck.parse_int s) [ some z ↦ number z | none ↦ refused ]
  to_int (array items) = refused
  to_int (object empty) = refused

  abbrev pub within : Range → ℤ → Bool
  within r (pos n) = leb r.minimum n && leb n r.maximum
  within r (negsuc n) = false

  -- `_coerce_int`, with the assignment of its result.
  unfoldable pub coerced_int : Range → Value → Converted → Checked → Option Checked
  unfolding set_to
  coerced_int r default (number z) c = some (
      if within r z
      then set_to r.name (integer z) c
      else warn (reset r.name) (set_to r.name default c))
  coerced_int r default refused c = some (warn (reset r.name) (set_to r.name default c))
  coerced_int r default overflow c = none

  unfoldable pub coerce_int : Range → Checked → Option Checked
  unfolding coerced_int to_int value_or get
  coerce_int r c = elim (get defaults r.name) [
    | none ↦ none
    | some default ↦ coerced_int r default (to_int (value_or c.0 r.name null)) c
  ]

  unfoldable pub coerce_ints : List Range → Checked → Option Checked
  unfolding coerce_int
  coerce_ints [] c = some c
  coerce_ints (r ∷ rs) c = coerce_int r c >>= coerce_ints rs

  -- `for key in defaults: if key in data: sanitized[key] = data[key]`.
  unfoldable pub take_known : Settings → Settings → Settings → Settings
  unfolding get put
  take_known given [] d = d
  take_known given ((key, default) ∷ rest) d =
      take_known given rest (elim (get given key) [ some v ↦ put d key v | none ↦ d ])

  unfoldable pub strip_fields : List Text → Checked → Checked
  unfolding set_to value_or strip
  strip_fields [] c = c
  strip_fields (name ∷ names) c = strip_fields names (
      set_to name
        (text (elim (text_of (value_or c.0 name (text []))) [ some s ↦ strip s | none ↦ [] ])) c)

  -- `_coerce_string_list`.
  unfoldable pub clean_items : Text → Values → Kept
  unfolding strip
  clean_items name nil = ([], [])
  clean_items name (cons item items) =
      let rest = clean_items name items in
      elim (text_of item) [
        | none ↦ leave_out name rest
        | some s ↦ if empty (strip s) then rest else keep_text (strip s) rest
      ]

  unfoldable pub coerce_string_list : Text → Value → Kept
  unfolding clean_items
  coerce_string_list name value = elim (items_of value) [
    | some items ↦ clean_items name items
    | none ↦ ([], reset name ∷ [])
  ]

  unfoldable pub set_kept : Text → Kept → Checked → Checked
  unfolding set_to
  set_kept name k c = let c' = set_to name (array (texts k.0)) c in (c'.0, c'.1 ++ k.1)

  unfoldable pub coerce_lists : List Text → Checked → Checked
  unfolding coerce_string_list set_kept value_or
  coerce_lists [] c = c
  coerce_lists (name ∷ names) c =
      coerce_lists names (set_kept name (coerce_string_list name (value_or c.0 name (array nil))) c)

  -- The lists that `coerce_lists` has left have texts only.
  abbrev pub texts_of : Value → List Text
  texts_of (array items) = collected items
    where
      collected : Values → List Text
      collected nil = []
      collected (cons (text s) rest) = s ∷ collected rest
      collected (cons _ rest) = collected rest
  texts_of _ = []

  -- One entry of a list, tested by a call, and the rest; none where either raises.
  unfoldable pub tested_entry : Text → Text → Option Bool → Option Kept → Option Kept
  tested_entry name entry none rest = none
  tested_entry name entry (some ok) none = none
  tested_entry name entry (some ok) (some rest) =
      some (if ok then keep_text entry rest else leave_out name rest)

  unfoldable pub valid_regexes : List Text → Option Kept
  unfolding tested_entry
  valid_regexes [] = some ([], [])
  valid_regexes (pattern ∷ patterns) =
      tested_entry (codes "exclude_regexes") pattern (ck.compiles pattern) (valid_regexes patterns)

  unfoldable pub valid_network_roots : List Text → Kept
  valid_network_roots [] = ([], [])
  valid_network_roots (root ∷ roots) =
      let rest = valid_network_roots roots in
      elim (ck.normalize_network_root root) [
        | some normal ↦ keep_text normal rest
        | none ↦ leave_out (codes "network_share_roots") rest
      ]

  -- A setting that is one of some words, or else the default.
  unfoldable pub check_choice : Text → List Text → Text → Checked → Checked
  unfolding value_or set_to text_eq
  check_choice name choices fallback c =
      let default = value_or defaults name (text fallback) in
      let known : Bool = elim (text_of (value_or c.0 name default)) [
        | some s ↦ any (λ t. text_eq s t) choices
        | none ↦ false
      ] in
      if known then c else warn (reset name) (set_to name default c)

  unfoldable pub check_bind : Checked → Option Checked
  unfolding value_or set_to get
  check_bind c =
      if truth_of (value_or c.0 (codes "http_bind") null)
      then some c
      else elim (get defaults (codes "http_bind")) [
        | some default ↦
            some (warn (reset (codes "http_bind")) (set_to (codes "http_bind") default c))
        | none ↦ none
      ]

  -- With what the test of the path says.
  unfoldable pub clear_file : Text → Checked → Option Bool → Option Checked
  unfolding set_to
  clear_file name c none = none
  clear_file name c (some true) = some c
  clear_file name c (some false) = some (warn (reset name) (set_to name (text []) c))

  abbrev pub file_of : Text → Checked → Text
  file_of name c = elim (text_of (value_or c.0 name null)) [ some s ↦ s | none ↦ [] ]

  unfoldable pub check_file : Text → Checked → Option Checked
  unfolding value_or clear_file
  check_file name c =
      if empty (file_of name c) then some c else clear_file name c (ck.path_exists (file_of name c))

  unfoldable pub check_https : Checked → Checked
  unfolding value_or set_to
  check_https c =
      let lacks : Text → Bool = λ name. not (truth_of (value_or c.0 name null)) in
      if truth_of (value_or c.0 (codes "http_use_https") null)
        && (lacks (codes "https_cert_file") || lacks (codes "https_key_file"))
      then warn (reset (codes "http_use_https")) (set_to (codes "http_use_https") (boolean false) c)
      else c

  unfoldable pub existing_paths : Text → Values → Option Kept
  unfolding strip tested_entry
  existing_paths name nil = some ([], [])
  existing_paths name (cons item items) =
      let rest = existing_paths name items in
      let path : Text = elim (text_of item) [ some s ↦ strip s | none ↦ [] ] in
      tested_entry name path (if empty path then some false else ck.path_exists path) rest

  unfoldable pub set_tested : Text → Option Kept → Checked → Option Checked
  unfolding set_kept
  set_tested name none c = none
  set_tested name (some k) c = some (set_kept name k c)

  unfoldable pub paths_of : Text → Option Values → Option Kept
  unfolding existing_paths
  paths_of name none = some ([], reset name ∷ [])
  paths_of name (some items) = existing_paths name items

  -- The lists of files and of roots that exist.
  unfoldable pub check_paths : Text → Checked → Option Checked
  unfolding paths_of value_or set_tested
  check_paths name c = set_tested name (paths_of name (items_of (value_or c.0 name (array nil)))) c

  unfoldable pub clean_extensions : Text → Values → Kept
  unfolding strip strip_dots
  clean_extensions name nil = ([], [])
  clean_extensions name (cons item items) =
      let rest = clean_extensions name items in
      elim (text_of item) [
        | none ↦ leave_out name rest
        | some s ↦
            let cleaned = strip_dots (ck.unicode.lower (strip s)) in
            if empty cleaned then rest else keep_text cleaned rest
      ]

  unfoldable pub check_extensions : Text → Checked → Checked
  unfolding clean_extensions value_or set_kept distinct sorted text_leb
  check_extensions name c =
      let (found, warnings) : Kept = elim (items_of (value_or c.0 name (array nil))) [
        | some items ↦ clean_extensions name items
        | none ↦ ([], reset name ∷ [])
      ] in
      set_kept name (sorted text_leb (distinct found), warnings) c

  unfoldable pub check_regexes : Checked → Option Checked
  unfolding valid_regexes value_or set_tested
  check_regexes c =
      set_tested (codes "exclude_regexes")
        (valid_regexes (texts_of (value_or c.0 (codes "exclude_regexes") null))) c

  -- The steps from the regular expressions to the choices.
  unfoldable pub check_choices : Checked → Checked
  unfolding set_kept valid_network_roots check_choice value_or
  check_choices c =
      let rooted =
        set_kept (codes "network_share_roots")
          (valid_network_roots (texts_of (value_or c.0 (codes "network_share_roots") null))) c in
      check_choice (codes "language") language_codes (codes "en") (
        check_choice (codes "theme_name") theme_names (codes "mocha")
          (check_choice (codes "index_case_mode") index_case_modes (codes "smart") rooted))

  -- The steps on texts and lists, in their order.
  unfoldable pub check_lists : Checked → Option Checked
  unfolding strip_fields coerce_lists check_regexes check_choices
  check_lists c =
      check_regexes (coerce_lists string_list_fields (strip_fields string_fields c)) >>= λ c'.
      some (check_choices c')

  unfoldable pub check_files : Checked → Option Checked
  unfolding check_file check_https check_paths check_extensions
  check_files c =
      check_file (codes "https_cert_file") c
      >>= check_file (codes "https_key_file")
      >>= (λ c'. some (check_https c'))
      >>= check_paths (codes "efu_files")
      >>= check_paths (codes "content_index_roots")
      >>= (λ c'. some (check_extensions (codes "content_index_extensions") c'))

  unfoldable pub sanitize_settings_data : Settings → Option Checked
  unfolding take_known coerce_ints check_lists check_bind check_files
  sanitize_settings_data given =
      coerce_ints int_ranges (take_known given defaults defaults, [])
      >>= check_lists
      >>= check_bind
      >>= check_files

  unfoldable pub version_of : Converted → Option ℕ
  version_of (number z) = elim z [ pos n ↦ some n | negsuc n ↦ none ]
  version_of refused = none
  version_of overflow = none

  -- `_settings_schema_version`, none where it raises.
  unfoldable pub settings_schema_version : Value → Option ℕ
  unfolding to_int version_of
  settings_schema_version null = some 0
  settings_schema_version (text []) = some 0
  settings_schema_version value = version_of (to_int value)

  abbrev pub schema_version_key : Text
  schema_version_key = codes "schema_version"

  -- From version 0 there is one step; a newer version than 1 is refused.
  unfoldable pub migrate_from : ℕ → Settings → Option Checked
  unfolding put
  migrate_from version given =
      if version == 0
      then some (put given schema_version_key (integer (pos 1)), migrated 1 ∷ [])
      else if version == 1
      then some (given, [])
      else none

  abbrev finished : List Warning → Checked → Checked
  finished warnings c = (put c.0 schema_version_key (integer (pos 1)), warnings ++ c.1)

  -- `given` is a mapping.
  unfoldable pub migrate_settings_data : Settings → Option Checked
  unfolding settings_schema_version migrate_from sanitize_settings_data value_or put
  migrate_settings_data given =
      elim (settings_schema_version (value_or given schema_version_key (integer (pos 0)))) [
        | none ↦ none
        | some version ↦ migrate_from version given >>= λ m.
            sanitize_settings_data m.0 >>= λ c. some (finished m.1 c)
      ]
