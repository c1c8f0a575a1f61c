-- ===== src/Index/Flat.antt =====
-- core/index.py, the exclude rules and the flat list of entries that a search goes over
-- (`_should_exclude`, `_rebuild_flat_list`). The list holds references to the entries of the
-- drives: a drive's key with an FRN.
use quick_find.Prelude.{
  ℕ, Bool, true, false, ◌&&◌, ◌||◌, none, some, List, [], ◌∷◌, ◌++◌, any, bit_and, truthy, ◌==◌,
  if◌then◌else◌,
}
use quick_find.Text.{Text, Unicode}
use quick_find.Dict.{Dict}
use quick_find.Index.{FileEntry, DriveEntries, ntfs_root_frn}

abbrev pub Ref : Type 0
Ref = Text × ℕ

abbrev file_attribute_hidden : ℕ
file_attribute_hidden = 0x2

abbrev file_attribute_system : ℕ
file_attribute_system = 0x4

-- A compiled regular expression is its `search`.
pub record Rules : Type 0 where
  pub exclude_hidden : Bool
  pub exclude_system : Bool
  pub exclude_attribute_mask : ℕ
  pub exclude_globs : List Text
  pub exclude_regexes : List (Text → Bool)

abbrev is_empty {ℓ} : {A : Type ℓ} → List A → Bool
is_empty [] = true
is_empty (x ∷ xs) = false

-- `FileEntry.get_path`, with `FileIndex.resolve_path`: the cached path, or the resolved one, which is then cached.
unfoldable pub get_path : (Text → ℕ → Text) → FileEntry → Text × FileEntry
get_path resolve e = elim e.path [
  | some p ↦ (p, e)
  | none ↦ let p = resolve e.drive e.frn in (p, record e { path = some p })
]

-- `resolve` is `FileIndex.resolve_path`, and `fnmatch name pattern` the function of that name.
module _ (u : Unicode) (fnmatch : Text → Text → Bool) (resolve : Text → ℕ → Text) where
  unfoldable pub glob_excludes : Text → Text → Text → Bool
  glob_excludes name path pattern =
      fnmatch name pattern
      || fnmatch path pattern
      || fnmatch (u.lower name) (u.lower pattern)
      || fnmatch (u.lower path) (u.lower pattern)

  -- The test, and the entry with the path that it may have cached.
  unfoldable pub should_exclude : Rules → FileEntry → Bool × FileEntry
  unfolding get_path glob_excludes
  should_exclude r e =
      if (r.exclude_hidden && truthy (bit_and e.attributes file_attribute_hidden))
        || (r.exclude_system && truthy (bit_and e.attributes file_attribute_system))
        || (truthy r.exclude_attribute_mask
            && truthy (bit_and e.attributes r.exclude_attribute_mask))
      then (true, e)
      else if is_empty r.exclude_globs && is_empty r.exclude_regexes
      then (false, e)
      else let (path, e') = get_path resolve e in
        (
          any (λ p. glob_excludes e.name path p) r.exclude_globs
              || any (λ s. s e.name || s path) r.exclude_regexes,
          e',
        )

  -- One drive: the references that are listed, and the entries with the paths cached on the way.
  unfoldable pub flat_drive : Rules → Text → DriveEntries → List Ref × DriveEntries
  unfolding should_exclude
  flat_drive r drive [] = ([], [])
  flat_drive r drive ((frn, e) ∷ d) =
      let (refs, d') = flat_drive r drive d in
      if frn == ntfs_root_frn || is_empty e.name
      then (refs, (frn, e) ∷ d')
      else let (excluded, e') = should_exclude r e in
        (if excluded then refs else (drive, frn) ∷ refs, (frn, e') ∷ d')

  unfoldable pub rebuild_flat_list :
      Rules → Dict Text DriveEntries → List Ref × Dict Text DriveEntries
  unfolding flat_drive
  rebuild_flat_list r [] = ([], [])
  rebuild_flat_list r ((drive, d) ∷ index) =
      let (refs, d') = flat_drive r drive d in
      let (rest, index') = rebuild_flat_list r index in (refs ++ rest, (drive, d') ∷ index')
