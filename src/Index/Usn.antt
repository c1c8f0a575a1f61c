-- ===== src/Index/Usn.antt =====
-- core/index.py, `_apply_usn_changes`: a batch of USN journal records applied to the index, the
-- rows that it has the cache write, and the journal checkpoints stored after it; core/ntfs.py,
-- `UsnRecord`.
pub mod Coherent
use mathlib.Core.Option
use quick_find.Prelude.{
  ℕ, zero, suc, ◌+◌, Bool, true, false, not, ◌&&◌, ◌||◌, Option, none, some, List, [], ◌∷◌, ◌++◌,
  truthy, bit_and, bit_or, ◌==◌, if◌then◌else◌,
}
use quick_find.Text.{Text, Unicode}
use quick_find.Dict.{Dict, get, put, remove, has, nat_eq, text_key}
use quick_find.Index.{FileEntry, DriveEntries, SourceRoots, is_dir}
use quick_find.Index.Path.{entries_of, resolve_path}
use quick_find.Index.Invalidate.{invalidate_subtree_paths}
use quick_find.Index.Flat.{Ref, get_path}

pub record UsnRecord : Type 0 where
  pub usn : ℕ
  pub frn : ℕ
  pub parent_frn : ℕ
  pub timestamp : Option ℕ
  pub reason : ℕ
  pub attributes : ℕ
  pub name : Text

-- `bool(self.reason & mask)`.
abbrev pub has_reason : ℕ → UsnRecord → Bool
has_reason mask r = truthy (bit_and r.reason mask)

unfoldable pub is_create : UsnRecord → Bool
is_create = has_reason 0x100

unfoldable pub is_delete : UsnRecord → Bool
is_delete = has_reason 0x200

unfoldable pub is_rename : UsnRecord → Bool
is_rename = has_reason (bit_or 0x1000 0x2000)

unfoldable pub is_new_name : UsnRecord → Bool
is_new_name = has_reason 0x2000

unfoldable pub is_close : UsnRecord → Bool
is_close = has_reason 0x80000000

-- DATA_OVERWRITE, DATA_EXTEND and DATA_TRUNCATION.
unfoldable pub is_data : UsnRecord → Bool
is_data = has_reason (bit_or 0x1 (bit_or 0x2 0x4))

unfoldable pub is_modify : UsnRecord → Bool
is_modify = has_reason (bit_or 0x1 (bit_or 0x2 (bit_or 0x4 0x8000)))

abbrev file_attribute_ea : ℕ
file_attribute_ea = 0x40000

-- The variables of the loop. A row for the cache names its entry by drive and FRN, and gives the
-- path that goes with it.
pub record Batch : Type 0 where
  pub index : Dict Text DriveEntries
  pub added : ℕ
  pub removed : ℕ
  pub modified : ℕ
  pub db_inserts : List (Ref × Text)
  pub db_deletes : List Ref
  pub db_updates : List (Ref × Text)

-- What a write to `drive_entries` leaves: for a drive that is not indexed that is a fresh
-- dictionary, which is dropped.
unfoldable pub store : Dict Text DriveEntries → Text → DriveEntries → Dict Text DriveEntries
unfolding has put
store index drive d = if has index drive then put index drive d else index

unfoldable pub new_entry : Text → UsnRecord → Option ℕ → FileEntry
new_entry drive r created = record {
  frn = r.frn;
  parent_frn = r.parent_frn;
  name = r.name;
  drive = drive;
  attributes = r.attributes;
  size = 0;
  date_modified = r.timestamp;
  date_created = created;
  reparse_tag = 0;
  has_extended_attributes = truthy (bit_and r.attributes file_attribute_ea);
  content_snippet = [];
  content_rank = 0;
  path = none;
  stat_loaded = false;
}

unfoldable pub renamed : FileEntry → UsnRecord → FileEntry
renamed e r = record e { name = r.name; parent_frn = r.parent_frn; path = none }

unfoldable pub modified_entry : FileEntry → UsnRecord → FileEntry
modified_entry e r = record e {
  date_modified = r.timestamp;
  attributes = r.attributes;
  has_extended_attributes = truthy (bit_and r.attributes file_attribute_ea);
  stat_loaded = if is_data r then false else e.stat_loaded;
}

unfoldable pub apply_delete : Batch → Text → UsnRecord → Batch
apply_delete b drive r =
    let d = entries_of b.index drive in
    if has d r.frn
    then record b {
      index = store b.index drive (remove d r.frn);
      removed = b.removed + 1;
      db_deletes = b.db_deletes ++ (drive, r.frn) ∷ [];
    }
    else b

-- The entry under its new name and parent, and the paths below it cleared if it is a directory.
unfoldable pub rename_in : ℕ → DriveEntries → UsnRecord → FileEntry → Option DriveEntries
rename_in fuel d r e =
    let d' = put d r.frn (renamed e r) in
    if is_dir e then invalidate_subtree_paths fuel d' r.frn else some d'

unfoldable pub apply_modify : Batch → Text → UsnRecord → Batch
apply_modify b drive r = elim (get (entries_of b.index drive) r.frn) [
  | none ↦ b
  | some e ↦ record b {
    index = store b.index drive (put (entries_of b.index drive) r.frn (modified_entry e r));
    modified = b.modified + 1;
    db_updates = b.db_updates ++ ((drive, r.frn), []) ∷ [];
  }
]

module _ (u : Unicode) (join : Text → List Text → Text) (roots : SourceRoots) where
  -- `entry.get_path(self)` for the entry that stands under an FRN.
  unfoldable pub path_and_cache :
      Dict Text DriveEntries → Text → ℕ → FileEntry → Text × Dict Text DriveEntries
  path_and_cache index drive frn e =
      let (path, e') = get_path (resolve_path u join roots index) e in
      (path, store index drive (put (entries_of index drive) frn e'))

  -- A new entry, for a file that was created, or renamed without being known.
  unfoldable pub add_entry : Batch → Text → UsnRecord → Option ℕ → Batch
  add_entry b drive r created =
      let e = new_entry drive r created in
      let index = store b.index drive (put (entries_of b.index drive) r.frn e) in
      let (path, index') = path_and_cache index drive r.frn e in
      record b {
        index = index';
        added = b.added + 1;
        db_inserts = b.db_inserts ++ ((drive, r.frn), path) ∷ [];
      }

  unfoldable pub update_renamed : Batch → Text → UsnRecord → FileEntry → DriveEntries → Batch
  update_renamed b drive r e d =
      let (path, index) = path_and_cache (store b.index drive d) drive r.frn (renamed e r) in
      record b {
        index = index;
        modified = b.modified + 1;
        db_updates = b.db_updates ++ ((drive, r.frn), path) ∷ [];
      }

  unfoldable pub apply_rename : ℕ → Batch → Text → UsnRecord → Option Batch
  apply_rename fuel b drive r = elim (get (entries_of b.index drive) r.frn) [
    | none ↦ some (add_entry b drive r none)
    | some e ↦
        Option.map (λ d. update_renamed b drive r e d)
          (rename_in fuel (entries_of b.index drive) r e)
  ]

  -- The fuel is for the loop below a renamed directory.
  unfoldable pub apply_change : ℕ → Batch → Text → UsnRecord → Option Batch
  apply_change fuel b drive r =
      if is_delete r && is_close r
      then some (apply_delete b drive r)
      else if is_create r && is_close r
      then some (add_entry b drive r r.timestamp)
      else if is_rename r && is_new_name r && is_close r
      then apply_rename fuel b drive r
      else if is_modify r && is_close r
      then some (apply_modify b drive r)
      else some b

  unfoldable pub apply_changes : ℕ → Batch → List (Text × UsnRecord) → Option Batch
  apply_changes fuel b [] = some b
  apply_changes fuel b ((drive, r) ∷ changes) = elim (apply_change fuel b drive r) [
    | none ↦ none
    | some b' ↦ apply_changes fuel b' changes
  ]
