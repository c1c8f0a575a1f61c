-- ===== src/Index.antt =====
-- core/index.py, `FileEntry` and the part of `FileIndex` that is read and written while the index
-- is in use. An entry is known by its drive and its file reference number (FRN).
pub mod Path
pub mod Invalidate
pub mod Flat
pub mod Stat
pub mod Usn
pub mod Apply
pub mod Watch
use quick_find.Prelude.{
  ℕ, Bool, true, false, not, ◌&&◌, Option, none, some, List, [], ◌∷◌, truthy, ltb, ◌==◌, bit_and,
  if◌then◌else◌,
}
use quick_find.Text.{Text, codes, Unicode}
use quick_find.Dict.{Dict}

-- A date is its number of microseconds since `datetime.min`; the rank stands for a float, of which
-- the program only asks the order.
pub record FileEntry : Type 0 where
  pub frn : ℕ
  pub parent_frn : ℕ
  pub name : Text
  pub drive : Text
  pub attributes : ℕ
  pub size : ℕ
  pub date_modified : Option ℕ
  pub date_created : Option ℕ
  pub reparse_tag : ℕ
  pub has_extended_attributes : Bool
  pub content_snippet : Text
  pub content_rank : ℕ
  pub path : Option Text
  pub stat_loaded : Bool

abbrev pub file_attribute_directory : ℕ
file_attribute_directory = 0x10

abbrev pub ntfs_root_frn : ℕ
ntfs_root_frn = 5

unfoldable pub is_dir : FileEntry → Bool
is_dir e = truthy (bit_and e.attributes file_attribute_directory)

-- Drive -> FRN -> entry, for one drive.
abbrev pub DriveEntries : Type 0
DriveEntries = Dict ℕ FileEntry

unfoldable pub invalidate_path : FileEntry → FileEntry
invalidate_path e = record e { path = none }

-- What `resolve_path` reads of the index beside the entries: the root path of a network or POSIX
-- source, by its key.
abbrev pub SourceRoots : Type 0
SourceRoots = Text → Option Text
