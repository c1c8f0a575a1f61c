-- ===== src/Index/Path.antt =====
-- core/index.py, `FileIndex.resolve_path`: the full path of an entry, by its chain of parents.
pub mod Chain
use quick_find.Prelude.{
  ℕ, zero, suc, ◌+◌, Bool, true, false, not, ◌&&◌, ◌||◌, Option, none, some, List, [], ◌∷◌, ◌++◌,
  leb, truthy, ◌==◌, if◌then◌else◌, length,
}
use mathlib.Core.List.{reverse}
use quick_find.Text.{Text, codes, Unicode, starts_with, text_eq}
use quick_find.Dict.{Dict, get, nat_eq, text_key}
use quick_find.Index.{FileEntry, DriveEntries, ntfs_root_frn, SourceRoots}

-- `x in visited`.
unfoldable pub seen : ℕ → List ℕ → Bool
seen x [] = false
seen x (y ∷ ys) = x == y || seen x ys

-- A step up: an entry that is not in the index ends the walk, and another one's name goes first.
unfoldable pub step_up : Option FileEntry → (ℕ → Option (List Text)) → Option (List Text)
step_up none go_on = some []
step_up (some e) go_on = elim (go_on e.parent_frn) [
  | none ↦ none
  | some parts ↦ some (e.name ∷ parts)
]

-- `while current_frn and current_frn not in visited`: the names from the entry upwards. `none`
-- means that the fuel ran out.
unfoldable pub walk : ℕ → DriveEntries → List ℕ → ℕ → Option (List Text)
unfolding seen get step_up
walk zero entries visited current = none
walk (suc f) entries visited current =
    let rest = step_up (get entries current) (λ p. walk f entries (current ∷ visited) p) in
    if truthy current && not (seen current visited)
    then if current == ntfs_root_frn then some [] else rest
    else some []

-- `"\\".join(parts)`.
unfoldable pub join_backslash : List Text → Text
join_backslash [] = []
join_backslash (p ∷ []) = p
join_backslash (p ∷ q ∷ ps) = p ++ b'\\' ∷ join_backslash (q ∷ ps)

-- The key of `_entries` that a drive letter or a source key stands for.
unfoldable pub entries_key : Unicode → Text → Text
unfolding starts_with
entries_key u drive =
    if leb (length drive) 3 && not (starts_with (codes "POSIX:") drive)
    then u.upper drive
    else drive

-- `f"{drive}:\\" + "\\".join(parts) if parts else f"{drive}:\\"`.
unfoldable pub drive_path : Text → List Text → Text
unfolding join_backslash
drive_path drive [] = drive ++ codes ":\\"
drive_path drive (p ∷ ps) = (drive ++ codes ":\\") ++ join_backslash (p ∷ ps)

-- `os.path.join(source_root, *parts)` is the parameter `join`.
unfoldable pub source_path : (Text → List Text → Text) → Text → List Text → Text
source_path join root [] = root
source_path join root (p ∷ ps) = join root (p ∷ ps)

-- The walk needs a round for each entry of the drive, and one to see that it is over.
abbrev pub walk_fuel : DriveEntries → ℕ
walk_fuel entries = length entries + 1

-- The parts of the path, from the root down. The walk never runs out of fuel (`Path/Chain`).
unfoldable pub path_parts : DriveEntries → ℕ → List Text
unfolding walk
path_parts entries frn = elim (walk (walk_fuel entries) entries [] frn) [
  | none ↦ []
  | some parts ↦ reverse parts
]

-- `self._entries.get(drive, {})`.
unfoldable pub entries_of : Dict Text DriveEntries → Text → DriveEntries
entries_of index drive = elim (get index drive) [ none ↦ [] | some entries ↦ entries ]

unfoldable pub cached_path : Option FileEntry → Option Text
cached_path none = none
cached_path (some e) = elim e.path [
  | none ↦ none
  | some p ↦ elim p [ [] ↦ none | c ∷ cs ↦ some (c ∷ cs) ]
]

module _ (u : Unicode) (join : Text → List Text → Text) where
  -- The two ends of `resolve_path`: under the root of a source, and on a drive.
  unfoldable pub resolve_source : Text → DriveEntries → ℕ → Text
  unfolding cached_path path_parts source_path
  resolve_source root entries frn = elim (cached_path (get entries frn)) [
    | some p ↦ p
    | none ↦ if frn == ntfs_root_frn then root else source_path join root (path_parts entries frn)
  ]

  unfoldable pub resolve_path : SourceRoots → Dict Text DriveEntries → Text → ℕ → Text
  unfolding resolve_source path_parts entries_key drive_path entries_of
  resolve_path roots index drive frn =
      let key = entries_key u drive in
      let entries = entries_of index key in
      elim (roots drive) [
        | some root ↦ resolve_source root entries frn
        | none ↦ drive_path key (path_parts entries frn)
      ]
