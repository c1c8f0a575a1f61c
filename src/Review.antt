-- ===== src/Review.antt =====
-- core/duplicate_review.py: which copy of a group of duplicates is kept, and the recycling of the
-- others. `resolve` is `FileIndex.resolve_path`, `timestamp` gives the seconds of a date.
pub mod Preview
pub mod Recycle
use quick_find.Prelude.{
  ℕ, ◌+◌, Bool, true, false, ◌&&◌, List, [], ◌∷◌, ltb, leb, ◌==◌, if◌then◌else◌, Option, none, some,
  length, insert, sorted,
}
use quick_find.Text.{Text, Unicode, starts_with, text_leb}
use quick_find.Index.{FileEntry}
use quick_find.Index.Flat.{get_path}

pub record KeepRule : Type 0 where
  pub prefer_shortest_path : Bool
  pub prefer_newest : Bool
  pub prefer_root : Text

pub record RemediationPreview : Type 0 where
  pub kept : FileEntry
  pub delete_candidates : List FileEntry
  pub recoverable_bytes : ℕ

-- `(root_match, date_val, path_len, path.lower())`, without the signs: `outside` is `root_match + 1`,
-- `newest` is `-date_val` and `path_len` the length itself, and `key_leb` turns the order of the
-- last two where the source negates them.
pub record SortKey : Type 0 where
  pub outside : ℕ
  pub newest : ℕ
  pub path_len : ℕ
  pub lower_path : Text

-- The order of pairs, from the first components and the answer on what follows them.
abbrev pub lex : ℕ → ℕ → Bool → Bool
lex a b rest = if a == b then rest else ltb a b

unfoldable pub key_leb : Bool → SortKey → SortKey → Bool
unfolding text_leb
key_leb shortest k j = lex k.outside j.outside (
    lex j.newest k.newest (
      if shortest
      then lex k.path_len j.path_len (text_leb k.lower_path j.lower_path)
      else lex j.path_len k.path_len (text_leb k.lower_path j.lower_path)))

unfoldable pub no_root : Text → Bool
no_root [] = true
no_root (c ∷ s) = false

unfoldable pub total_size : List FileEntry → ℕ
total_size [] = 0
total_size (e ∷ es) = e.size + total_size es

unfoldable pub preview_of : List FileEntry → Option RemediationPreview
unfolding total_size
preview_of [] = none
preview_of (e ∷ es) =
    some (record { kept = e; delete_candidates = es; recoverable_bytes = total_size es })

module _ (u : Unicode) (resolve : Text → ℕ → Text) (timestamp : ℕ → ℕ) where
  unfoldable pub date_val : KeepRule → Option ℕ → ℕ
  date_val rule none = 0
  date_val rule (some date) = if rule.prefer_newest then timestamp date else 0

  unfoldable pub sort_key : KeepRule → FileEntry → SortKey
  unfolding get_path date_val no_root starts_with
  sort_key rule e =
      let (path, _) = get_path resolve e in
      record {
        outside =
            if no_root rule.prefer_root
            then 1
            else (if starts_with (u.lower rule.prefer_root) (u.lower path) then 0 else 1);
        newest = date_val rule e.date_modified;
        path_len = length path;
        lower_path = u.lower path;
      }

  unfoldable pub entry_leb : KeepRule → FileEntry → FileEntry → Bool
  unfolding key_leb sort_key
  entry_leb rule a b = key_leb rule.prefer_shortest_path (sort_key rule a) (sort_key rule b)

  -- The `ValueError` of an empty group is none.
  unfoldable pub preview_remediation : KeepRule → List FileEntry → Option RemediationPreview
  unfolding preview_of sorted entry_leb
  preview_remediation rule entries = preview_of (sorted (entry_leb rule) entries)

pub record RemediationResult : Type 0 where
  pub recycled : List Text
  pub failed : List (Text × Text)
  pub skipped : List Text

-- What the recycler does with a path: it returns true or false, or raises with a message.
pub data Recycled : Type 0 where
  done refused : Recycled
  raised : (message : Text) → Recycled
