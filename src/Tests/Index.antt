-- ===== src/Tests/Index.antt =====
-- Runs of core/index.py on a small drive: `docs` in the root of C:, a file in it, and a drive whose
-- parent links form a cycle.
use quick_find.Prelude.{
  ℕ, ◌<◌, ◌≤◌, ◌≡◌, ◌≢◌, refl, sym, subst, ◌∙◌, ◌⊎◌, inl, inr, ◌↔◌, Bool, true, false, ◌||◌, Option,
  none, some, List, [], ◌∷◌, ◌==◌, ==_iff, Bool-cases, if◌then◌else◌, All, arith,
}
use mathlib.Core.List.{reverse}
use quick_find.Text.{Text, codes, ascii, text_eq}
use quick_find.Dict.{get, put, has, nat_eq, text_key}
use quick_find.Index.{FileEntry, DriveEntries, SourceRoots, is_dir}
use quick_find.Index.Path.{
  walk, walk_fuel, path_parts, entries_of, entries_key, resolve_path, drive_path,
}
use quick_find.Index.Path.Chain.{walk-ne-none, IsChain, resolve_path-IsChain}
use quick_find.Index.Invalidate.{invalidate_subtree_paths}
use quick_find.Index.Invalidate.Covers.{
  Under, self, Cleared, Touched, invalidate_subtree_paths-Covers,
}
use quick_find.Index.Invalidate.Total.{IsForest, invalidate_subtree_paths-total}
use quick_find.Index.Invalidate.Cycle.{invalidate_subtree_paths-cycle}
use quick_find.Index.Flat.{Ref, Rules}
use quick_find.Index.Usn
use quick_find.Index.Apply
use quick_find.Index.Flat
use quick_find.Index.Usn.{UsnRecord, Batch, renamed, rename_in, apply_changes}
use quick_find.Index.Usn.Coherent.{IsCoherent, rename_in-IsCoherent}
use quick_find.Index.Apply.{
  Volume, FileIndex, Checkpoint, start, nothing_written, apply_usn_changes, usn_resume_decision,
  catchup,
}
use quick_find.Index.Apply.Checkpoints.{
  usn_resume_decision_iff, IsCurrent, apply_usn_changes-IsCurrent,
}

abbrev entry : ℕ → ℕ → Text → ℕ → Option Text → FileEntry
entry frn parent name attributes path = record {
  frn = frn;
  parent_frn = parent;
  name = name;
  drive = codes "C";
  attributes = attributes;
  size = 7;
  date_modified = none;
  date_created = none;
  reparse_tag = 0;
  has_extended_attributes = false;
  content_snippet = [];
  content_rank = 0;
  path = path;
  stat_loaded = false;
}

abbrev docs : FileEntry
docs = entry 10 5 (codes "docs") 0x10 none

abbrev note : FileEntry
note = entry 11 10 (codes "a.txt") 0x20 (some (codes "C:\\docs\\a.txt"))

abbrev drive : DriveEntries
drive = (10, docs) ∷ (11, note) ∷ []

abbrev knot : FileEntry
knot = entry 12 12 (codes "knot") 0x10 none

abbrev knotted : DriveEntries
knotted = (12, knot) ∷ []

abbrev roots : SourceRoots
roots key = none

abbrev join : Text → List Text → Text
join root parts = root

walk-ne-none_example : walk (walk_fuel knotted) knotted [] 12 ≢ none
walk-ne-none_example = walk-ne-none knotted 12

chain :
    IsChain
      (entries_of ((codes "C", drive) ∷ []) (entries_key ascii (codes "c")))
      11
      (codes "a.txt" ∷ codes "docs" ∷ [])
unfolding entries_of entries_key get text_eq
chain =
    (note, refl, omega arith, omega arith, refl, (docs, refl, omega arith, omega arith, refl, refl))

resolve_path-IsChain_example :
    resolve_path ascii join roots ((codes "C", drive) ∷ []) (codes "c") 11
    ≡ drive_path (entries_key ascii (codes "c")) (reverse (codes "a.txt" ∷ codes "docs" ∷ []))
resolve_path-IsChain_example =
    resolve_path-IsChain ascii join roots ((codes "C", drive) ∷ []) (codes "c") 11
      (codes "a.txt" ∷ codes "docs" ∷ []) refl chain

abbrev cleared_drive : DriveEntries
cleared_drive = (10, docs) ∷ (11, entry 11 10 (codes "a.txt") 0x20 none) ∷ []

clears : invalidate_subtree_paths 3 drive 10 ≡ some cleared_drive
unfolding invalidate_subtree_paths
clears = refl

invalidate_subtree_paths-Covers_example :
    ((c y : ℕ) (e : FileEntry)
      → get drive c ≡ some e
      → e.parent_frn ≡ 10
      → Under drive c y
      → Cleared cleared_drive y)
    × Touched drive cleared_drive
invalidate_subtree_paths-Covers_example = invalidate_subtree_paths-Covers 3 drive 10 clears

abbrev height : ℕ → ℕ
height x = if x == 10 then 1 else 0

forest : IsForest height drive
forest = ((λ h. absurd (h refl)), ((λ h. (omega arith, omega arith)), tt))

invalidate_subtree_paths-total_example :
    (f : ℕ) × (d' : DriveEntries) × (invalidate_subtree_paths f drive 10 ≡ some d')
invalidate_subtree_paths-total_example =
    invalidate_subtree_paths-total height drive 10 forest (omega arith)

found_knot : get knotted 12 ≡ some knot
unfolding get
found_knot = refl

invalidate_subtree_paths-cycle_example : invalidate_subtree_paths 100 knotted 12 ≡ none
invalidate_subtree_paths-cycle_example =
    invalidate_subtree_paths-cycle knotted 12 12 knot found_knot refl self 100

abbrev rename_record : UsnRecord
rename_record = record {
  usn = 90;
  frn = 10;
  parent_frn = 5;
  timestamp = none;
  reason = 0x80002000;
  attributes = 0x10;
  name = codes "papers";
}

abbrev renamed_drive : DriveEntries
renamed_drive =
    (10, entry 10 5 (codes "papers") 0x10 none) ∷ (11, entry 11 10 (codes "a.txt") 0x20 none) ∷ []

found_docs : get drive 10 ≡ some docs
unfolding get
found_docs = refl

renames : rename_in 3 drive rename_record docs ≡ some renamed_drive
unfolding rename_in is_dir invalidate_subtree_paths renamed
renames = refl

directory : is_dir docs ≡ true
unfolding is_dir
directory = refl

path_of_note : codes "C:\\docs\\a.txt" ≡ drive_path (codes "C") (path_parts drive 11)
unfolding drive_path path_parts
path_of_note = refl

coherent : IsCoherent (codes "C") drive
unfolding get
coherent k e p g path = elim (Bool-cases (10 == k)) [
  | inl here ↦ ground arith
  | inr other ↦ elim (Bool-cases (11 == k)) [
    | inl here ↦
        let cached : codes "C:\\docs\\a.txt" ≡ p = ground arith in
        subst (λ z. p ≡ drive_path (codes "C") (path_parts drive z)) ((==_iff 11 k).0 here)
          (sym cached ∙ path_of_note)
    | inr none_left ↦ ground arith
  ]
]

rename_in-IsCoherent_example : IsCoherent (codes "C") renamed_drive
rename_in-IsCoherent_example =
    rename_in-IsCoherent drive rename_record docs found_docs 3 (codes "C") renamed_drive
      (λ file. absurd (ground (arith, directory))) coherent renames

abbrev journal_id : ℕ
journal_id = 1

abbrev saved_usn : ℕ
saved_usn = 50

abbrev first_usn : ℕ
first_usn = 40

usn_resume_decision_iff_example :
    (usn_resume_decision journal_id saved_usn journal_id first_usn ≡ catchup)
    ↔ ((journal_id ≡ journal_id) × (0 < saved_usn) × ((first_usn ≡ 0) ⊎ (first_usn ≤ saved_usn)))
usn_resume_decision_iff_example = usn_resume_decision_iff journal_id saved_usn journal_id first_usn

abbrev state : FileIndex
state = record {
  index = (codes "C", drive) ∷ [];
  volumes = (codes "C", record { journal_id = 1; current_usn = 100 }) ∷ [];
  rules = record {
    exclude_hidden = false;
    exclude_system = false;
    exclude_attribute_mask = 0;
    exclude_globs = [];
    exclude_regexes = [];
  };
  all_entries = [];
}

abbrev fnmatch : Text → Text → Bool
fnmatch name pattern = false

abbrev db_batch_apply : List (Ref × Text) → List Ref → List (Ref × Text) → Bool
db_batch_apply inserts deletes updates = true

abbrev changes : List (Text × UsnRecord)
changes = (codes "C", rename_record) ∷ []

abbrev checkpoint : Checkpoint
checkpoint = record { drive = codes "C"; journal_id = 1; next_usn = 100 }

abbrev renamed_state : FileIndex
renamed_state = record state {
  index =
      (
        codes "C",
        (10, entry 10 5 (codes "papers") 0x10 (some (codes "C:\\papers")))
            ∷ (11, entry 11 10 (codes "a.txt") 0x20 none)
            ∷ [],
      )
      ∷ [];
}

applies :
    apply_usn_changes ascii join roots fnmatch db_batch_apply 3 state changes
    ≡ some (renamed_state, checkpoint ∷ [])
unfolding apply_usn_changes apply_changes Usn.apply_change Usn.is_delete Usn.is_create Usn.is_rename
    Usn.is_new_name Usn.is_close Usn.apply_rename Usn.update_renamed Usn.path_and_cache get put has
    entries_of entries_key text_eq rename_in is_dir invalidate_subtree_paths renamed Apply.finish
    Apply.refresh Apply.persist_usn_checkpoints Apply.touched_drives resolve_path Usn.store
    Flat.get_path
applies = refl

apply_usn_changes-IsCurrent_example :
    All (λ c. IsCurrent state changes c) (checkpoint ∷ [])
    × ((checkpoint ∷ [] ≡ [])
        ⊎ ((b : Batch) × (apply_changes ascii join roots 3 (start state) changes ≡ some b)
            × ((nothing_written b || db_batch_apply b.db_inserts b.db_deletes b.db_updates)
                ≡ true)))
apply_usn_changes-IsCurrent_example =
    apply_usn_changes-IsCurrent ascii join roots fnmatch db_batch_apply 3 state renamed_state
      changes (checkpoint ∷ []) applies
