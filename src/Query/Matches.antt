-- ===== src/Query/Matches.antt =====
-- core/search.py, `SearchEngine._matches`: whether an entry is a result of a query, with the path
-- and the file's size and dates that are cached in the entry on the way. Each test of the source,
-- with its early return, is a check; a check that fails ends the row.
pub mod Meaning
pub mod Criteria
use quick_find.Prelude.{
  ℕ, Bool, true, false, not, ◌&&◌, ◌||◌, Option, none, some, List, [], ◌∷◌, any, all, truthy, ltb,
  is_set, below, above, bit_and, if◌then◌else◌, length,
}
use quick_find.Text.{Text, Unicode, codes, text_eq, contains}
use quick_find.Dict.{Dict}
use quick_find.Index.{FileEntry, is_dir}
use quick_find.Index.Flat.{get_path}
use quick_find.Index.Stat.{extension, Stat, ensure_stat}
use quick_find.Query.Options.{SearchOptions, ParsedQuery}

-- What the search takes from elsewhere. A plugin knows an entry by its drive and FRN; its `match`
-- is none where the plugin has none (or is not registered), and gives none where it raises.
pub record Engine : Type 0 where
  pub unicode : Unicode
  pub resolve : Text → ℕ → Text
  pub stat : Text → Option Stat
  pub exists : Text → Bool
  pub lexists : Text → Bool
  pub islink : Text → Bool
  pub readlink : Text → Option Text
  pub isabs : Text → Bool
  pub join : Text → Text → Text
  pub dirname : Text → Text
  pub expandvars : Text → Text
  pub shortcut_target_path : Text → Text
  pub is_in_dirty_git_repo : Text → Bool
  pub plugin_match : Text → Option (Text → ℕ → Text → Option Bool)
  pub content_search : Text → Text → Bool → Bool

abbrev pub is_empty {ℓ} : {A : Type ℓ} → List A → Bool
is_empty [] = true
is_empty (x ∷ xs) = false

abbrev pub Check : Type 0
Check = FileEntry → Bool × FileEntry

infixr 20 ◌>>◌
abbrev pub ◌>>◌ : Check → Check → Check
◌>>◌ c k e = let (passed, e') = c e in if passed then k e' else (false, e')

abbrev pub check : (FileEntry → Bool) → Check
check p e = (p e, e)

-- The matchers that `_compile_…` gave.
pub record Matchers : Type 0 where
  pub terms : List (Text → Bool)
  pub excludes : List (Text → Bool)
  pub or_groups : List (List (Text → Bool))
  pub boolean : Option (Text → Bool)

abbrev file_attribute_reparse_point : ℕ
file_attribute_reparse_point = 0x400

-- A date that is missing, or on the wrong side of the limit, fails.
abbrev pub no_earlier : Option ℕ → Option ℕ → Bool
no_earlier none date = true
no_earlier (some limit) none = false
no_earlier (some limit) (some d) = not (ltb d limit)

abbrev pub no_later : Option ℕ → Option ℕ → Bool
no_later none date = true
no_later (some limit) none = false
no_later (some limit) (some d) = not (ltb limit d)

-- The names, values and sizes of an entry that need no file.
unfoldable pub kind_passes : ParsedQuery → FileEntry → Bool
unfolding is_dir
kind_passes p e =
    not (p.options.files_only && is_dir e) && not (p.options.folders_only && not (is_dir e))

unfoldable pub ext_passes : Unicode → ParsedQuery → FileEntry → Bool
unfolding is_dir extension text_eq
ext_passes u p e =
    is_empty p.ext_filter || (not (is_dir e) && any (λ x. text_eq (extension u e) x) p.ext_filter)

unfoldable pub size_passes : ParsedQuery → FileEntry → Bool
size_passes p e =
    not (is_set p.size_min && below e.size p.size_min)
    && not (is_set p.size_max && above e.size p.size_max)

unfoldable pub fields_pass : ParsedQuery → FileEntry → Bool
fields_pass p e =
    (not (truthy p.attrib_include) || truthy (bit_and e.attributes p.attrib_include))
    && not (is_set p.name_len_min && below (length e.name) p.name_len_min)
    && not (is_set p.name_len_max && above (length e.name) p.name_len_max)
    && no_earlier p.date_mod_after e.date_modified
    && no_later p.date_mod_before e.date_modified
    && no_earlier p.date_create_after e.date_created
    && no_later p.date_create_before e.date_created

-- The Boolean expression alone, or the exclusions, the groups and the terms.
unfoldable pub text_passes : Matchers → Text → Bool
text_passes m target = elim m.boolean [
  | some matches ↦ matches target
  | none ↦
      not (any (λ f. f target) m.excludes)
      && all (λ g. any (λ f. f target) g) m.or_groups
      && all (λ f. f target) m.terms
]

module _ (en : Engine) where
  -- A test of the entry's path, if the query asks for it.
  unfoldable pub path_check : Bool → (Text → Bool) → Check
  unfolding get_path
  path_check asked test e =
      if asked then (let (path, e') = get_path en.resolve e in (test path, e')) else (true, e)

  unfoldable pub broken_target : Text → Bool
  broken_target path = elim (en.readlink path) [
    | none ↦ false
    | some target ↦
        not (en.exists (if en.isabs target then target else en.join (en.dirname path) target))
  ]

  unfoldable pub is_broken_link : FileEntry → Text → Bool
  unfolding broken_target
  is_broken_link e path =
      if not (truthy (bit_and e.attributes file_attribute_reparse_point)) && not (en.islink path)
      then false
      else if en.lexists path && not (en.exists path)
      then true
      else en.islink path && broken_target path

  -- `_is_broken_shortcut`, for an entry that is a `.lnk` file.
  unfoldable pub is_broken_shortcut : Text → Bool
  is_broken_shortcut path =
      let target = en.shortcut_target_path path in
      not (is_empty target) && not (en.exists (en.expandvars target))

  abbrev pub is_shortcut : FileEntry → Bool
  is_shortcut e = not (is_dir e) && text_eq (extension en.unicode e) (codes "lnk")

  unfoldable pub custom_passes : Dict Text (List Text) → FileEntry → Bool
  custom_passes [] e = true
  custom_passes ((name, values) ∷ rest) e =
      elim (en.plugin_match name) [
        | none ↦ true
        | some match ↦ all (λ v. elim (match e.drive e.frn v) [ some b ↦ b | none ↦ false ]) values
      ]
      && custom_passes rest e

  -- `if parsed.size_min or parsed.size_max: entry.ensure_stat(...)`.
  unfoldable pub size_check : ParsedQuery → Check
  unfolding size_passes ensure_stat
  size_check p e =
      if is_set p.size_min || is_set p.size_max
      then (let e' = ensure_stat en.resolve en.stat e in (size_passes p e', e'))
      else (true, e)

  -- `target`, the path or the name, and the tests that read it.
  unfoldable pub target_check : ParsedQuery → (Text → Bool) → Check
  unfolding path_check
  target_check p test =
      if p.options.match_path || not (is_empty p.path_includes)
      then path_check true test
      else check (λ e. test e.name)

  unfoldable pub includes_pass : ParsedQuery → Text → Bool
  unfolding contains
  includes_pass p target =
      all (λ i. contains (en.unicode.lower i) (en.unicode.lower target)) p.path_includes

  -- The path tests that `is_broken_link` and the like make of an entry.
  unfoldable pub broken_link_check : Check
  unfolding is_broken_link get_path
  broken_link_check e = let (path, e') = get_path en.resolve e in (is_broken_link e path, e')

  unfoldable pub before_size : ParsedQuery → List Text → Check
  unfolding path_check kind_passes ext_passes contains
  before_size p filter_exclude_paths =
      path_check (not (is_empty filter_exclude_paths))
        (λ path. not (any (λ x. contains x (en.unicode.lower path)) filter_exclude_paths))
      >> check (kind_passes p)
      >> check (ext_passes en.unicode p)

  unfoldable pub after_size : ParsedQuery → Matchers → Check
  unfolding fields_pass target_check includes_pass path_check broken_link_check is_broken_shortcut
      custom_passes text_passes
  after_size p m =
      check (fields_pass p)
      >> target_check p (includes_pass p)
      >> path_check (not (is_empty p.parent_filter))
          (λ path. contains (en.unicode.lower p.parent_filter) (en.unicode.lower (en.dirname path)))
      >> (if p.broken_link_mode then broken_link_check else check (λ e. true))
      >> (λ e.
          if p.broken_shortcut_mode
          then if is_shortcut e then path_check true is_broken_shortcut e else (false, e)
          else (true, e))
      >> path_check p.git_dirty_mode en.is_in_dirty_git_repo
      >> check (custom_passes p.custom_modifiers)
      >> target_check p (text_passes m)
      >> (λ e.
          path_check (not (is_empty p.content_search) && not (is_dir e))
            (λ path. en.content_search path p.content_search p.options.match_case) e)

  unfoldable pub matches : ParsedQuery → Matchers → List Text → Check
  unfolding before_size size_check after_size
  matches p m filter_exclude_paths =
      before_size p filter_exclude_paths >> size_check p >> after_size p m
