-- ===== src/Tests/Review.antt =====
-- Runs of core/duplicate_review.py on two copies of a file.
use quick_find.Prelude.{
  ℕ, ◌+◌, ◌≡◌, Bool, true, false, none, some, List, [], ◌∷◌, length, keep, All,
}
use quick_find.Text.{Text, codes, ascii, text_eq}
use quick_find.Index.{FileEntry}
use quick_find.Review.{
  KeepRule, RemediationPreview, Recycled, done, raised, entry_leb, preview_remediation, total_size,
}
use quick_find.Review.Preview.{preview_remediation-keeps}
use quick_find.Review.Recycle.{Dealt, safe_recycle, safe_recycle-Dealt}

abbrev copy : ℕ → Text → FileEntry
copy frn path = record {
  frn = frn;
  parent_frn = 5;
  name = codes "a.txt";
  drive = codes "C";
  attributes = 0x20;
  size = 9;
  date_modified = some frn;
  date_created = none;
  reparse_tag = 0;
  has_extended_attributes = false;
  content_snippet = [];
  content_rank = 0;
  path = some path;
  stat_loaded = false;
}

abbrev first : FileEntry
first = copy 20 (codes "C:\\old\\a.txt")

abbrev second : FileEntry
second = copy 21 (codes "C:\\a.txt")

abbrev rule : KeepRule
rule = record { prefer_shortest_path = true; prefer_newest = false; prefer_root = [] }

abbrev resolve : Text → ℕ → Text
resolve drive frn = []

abbrev timestamp : ℕ → ℕ
timestamp date = date

abbrev is_first : FileEntry → Bool
is_first e = elim e.path [ none ↦ false | some p ↦ text_eq p (codes "C:\\old\\a.txt") ]

preview_remediation-keeps_example :
    (v : RemediationPreview) × (preview_remediation ascii resolve timestamp rule
        (first ∷ second ∷ [])
      ≡ some v)
    × All (λ c. entry_leb ascii resolve timestamp rule v.kept c ≡ true) v.delete_candidates
    × (length (keep is_first (v.kept ∷ v.delete_candidates))
        ≡ length (keep is_first (first ∷ second ∷ [])))
    × (v.recoverable_bytes + v.kept.size ≡ total_size (first ∷ second ∷ []))
preview_remediation-keeps_example =
    preview_remediation-keeps ascii resolve timestamp rule first (second ∷ []) is_first

-- The world is the list of the paths that exist; of these `b` cannot be recycled.
abbrev exists : Text → List Text → Bool
exists path [] = false
exists path (p ∷ ps) = elim (text_eq path p) [ true ↦ true | false ↦ exists path ps ]

abbrev recycler : Text → List Text → List Text × Recycled
recycler path w = elim (text_eq path (codes "b")) [
  | true ↦ (w, raised (codes "in use"))
  | false ↦ (codes "b" ∷ [], done)
]

abbrev paths : List Text
paths = codes "a" ∷ codes "a" ∷ codes "b" ∷ []

abbrev before : List Text
before = codes "a" ∷ codes "b" ∷ []

safe_recycle-Dealt_example :
    let (w', r) = safe_recycle exists recycler paths before in
    Dealt exists recycler before paths w' r.recycled r.failed r.skipped
safe_recycle-Dealt_example = safe_recycle-Dealt exists recycler paths before
