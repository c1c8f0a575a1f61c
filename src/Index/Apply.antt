-- ===== src/Index/Apply.antt =====
-- core/index.py, the whole of `_apply_usn_changes` around its loop, `_persist_usn_checkpoints`, and
-- `_usn_resume_decision`, which reads the checkpoints back.
pub mod Checkpoints
use quick_find.Prelude.{
  ℕ, ◌+◌, Bool, true, false, not, ◌&&◌, ◌||◌, Option, none, some, List, [], ◌∷◌, ◌++◌, truthy, ltb,
  leb, ◌==◌, if◌then◌else◌,
}
use quick_find.Text.{Text, Unicode, text_eq}
use quick_find.Dict.{Dict, get, text_key}
use quick_find.Index.{DriveEntries, SourceRoots}
use quick_find.Index.Path.{resolve_path}
use quick_find.Index.Flat.{Ref, Rules, rebuild_flat_list}
use quick_find.Index.Usn.{UsnRecord, Batch, apply_changes}

-- A volume handle: its journal's id, and the USN after the last record read.
pub record Volume : Type 0 where
  pub journal_id : ℕ
  pub current_usn : ℕ

pub record FileIndex : Type 0 where
  pub index : Dict Text DriveEntries
  pub volumes : Dict Text Volume
  pub rules : Rules
  pub all_entries : List Ref

pub record Checkpoint : Type 0 where
  pub drive : Text
  pub journal_id : ℕ
  pub next_usn : ℕ

-- `touched_drives`, a set; `sorted` then gives its drives in the order of the code points.
unfoldable pub text_lt : Text → Text → Bool
text_lt [] [] = false
text_lt [] (d ∷ t) = true
text_lt (c ∷ s) [] = false
text_lt (c ∷ s) (d ∷ t) = ltb c d || (c == d && text_lt s t)

unfoldable pub insert_sorted : Text → List Text → List Text
unfolding text_lt text_eq
insert_sorted t [] = t ∷ []
insert_sorted t (s ∷ ts) =
    let rest = insert_sorted t ts in
    if text_eq t s then s ∷ ts else if text_lt t s then t ∷ s ∷ ts else s ∷ rest

unfoldable pub touched_drives : List (Text × UsnRecord) → List Text
unfolding insert_sorted
touched_drives [] = []
touched_drives ((drive, r) ∷ changes) = insert_sorted drive (touched_drives changes)

unfoldable pub checkpoint_of : Text → Option Volume → List Checkpoint
checkpoint_of drive none = []
checkpoint_of drive (some v) =
    if truthy v.journal_id && truthy v.current_usn
    then record { drive = drive; journal_id = v.journal_id; next_usn = v.current_usn } ∷ []
    else []

unfoldable pub persist_usn_checkpoints : Dict Text Volume → List Text → List Checkpoint
unfolding checkpoint_of get
persist_usn_checkpoints volumes [] = []
persist_usn_checkpoints volumes (drive ∷ drives) =
    checkpoint_of drive (get volumes drive) ++ persist_usn_checkpoints volumes drives

abbrev pub nothing_written : Batch → Bool
nothing_written b = elim b.db_inserts [
  | x ∷ xs ↦ false
  | [] ↦ elim b.db_deletes [
    | x ∷ xs ↦ false
    | [] ↦ elim b.db_updates [ x ∷ xs ↦ false | [] ↦ true ]
  ]
]

abbrev pub start : FileIndex → Batch
start s = record {
  index = s.index;
  added = 0;
  removed = 0;
  modified = 0;
  db_inserts = [];
  db_deletes = [];
  db_updates = [];
}

-- `db_batch_apply` is given the rows of the batch, and says whether they are in the cache.
module _ (u : Unicode) (join : Text → List Text → Text) (roots : SourceRoots)
    (fnmatch : Text → Text → Bool)
    (db_batch_apply : List (Ref × Text) → List Ref → List (Ref × Text) → Bool) where
  -- `if added or removed`: the flat list is rebuilt.
  unfoldable pub refresh : FileIndex → Batch → FileIndex
  refresh s b =
      if truthy b.added || truthy b.removed
      then (let (refs, index) =
            rebuild_flat_list u fnmatch (resolve_path u join roots b.index) s.rules b.index in
          record s { index = index; all_entries = refs })
      else record s { index = b.index }

  unfoldable pub finish : FileIndex → List (Text × UsnRecord) → Batch → FileIndex × List Checkpoint
  finish s changes b =
      let stored = nothing_written b || db_batch_apply b.db_inserts b.db_deletes b.db_updates in
      (
        refresh s b,
        if stored then persist_usn_checkpoints s.volumes (touched_drives changes) else [],
      )

  -- The index after the batch, and the checkpoints written. `none` only if the fuel for a renamed
  -- directory ran out.
  unfoldable pub apply_usn_changes :
      ℕ → FileIndex → List (Text × UsnRecord) → Option (FileIndex × List Checkpoint)
  apply_usn_changes fuel s [] = some (s, [])
  apply_usn_changes fuel s (c ∷ changes) =
      elim (apply_changes u join roots fuel (start s) (c ∷ changes)) [
        | none ↦ none
        | some b ↦ some (finish s (c ∷ changes) b)
      ]

pub data Decision : Type 0 where
  catchup reindex : Decision

unfoldable pub usn_resume_decision : ℕ → ℕ → ℕ → ℕ → Decision
usn_resume_decision saved_journal_id saved_next_usn vol_journal_id vol_first_usn =
    if not (saved_journal_id == vol_journal_id) || leb saved_next_usn 0
    then reindex
    else if truthy vol_first_usn && ltb saved_next_usn vol_first_usn
    then reindex
    else catchup
