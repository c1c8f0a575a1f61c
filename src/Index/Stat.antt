-- ===== src/Index/Stat.antt =====
-- core/index.py, `FileEntry.extension` and `FileEntry.ensure_stat`.
use quick_find.Prelude.{ℕ, true, Option, none, some, [], ◌∷◌, ◌==◌, if◌then◌else◌}
use quick_find.Text.{Text, Unicode}
use quick_find.Index.{FileEntry, is_dir}
use quick_find.Index.Flat.{get_path}

-- `name.rfind('.')`, as what stands before the last dot and behind it.
unfoldable pub split_last_dot : Text → Option (Text × Text)
split_last_dot [] = none
split_last_dot (c ∷ s) = elim (split_last_dot s) [
  | some (before, after) ↦ some (c ∷ before, after)
  | none ↦ if c == b'.' then some ([], s) else none
]

unfoldable pub extension_of : Option (Text × Text) → Text
extension_of none = []
extension_of (some ([], after)) = []
extension_of (some (c ∷ before, after)) = after

unfoldable pub extension : Unicode → FileEntry → Text
unfolding is_dir extension_of split_last_dot
extension u e = if is_dir e then [] else u.lower (extension_of (split_last_dot e.name))

-- What `os.stat` gives. A time that `datetime.fromtimestamp` refuses is none.
pub record Stat : Type 0 where
  pub st_size : ℕ
  pub st_mtime : Option ℕ
  pub st_ctime : Option ℕ

-- The assignments of `ensure_stat`, up to the first that raises.
unfoldable pub with_stat : FileEntry → Option Stat → FileEntry
with_stat e none = e
with_stat e (some st) = elim st.st_mtime [
  | none ↦ record e { size = st.st_size }
  | some m ↦ elim st.st_ctime [
    | none ↦ record e { size = st.st_size; date_modified = some m }
    | some c ↦ record e { size = st.st_size; date_modified = some m; date_created = some c }
  ]
]

-- `stat` is `os.stat`, none where it raises.
unfoldable pub ensure_stat : (Text → ℕ → Text) → (Text → Option Stat) → FileEntry → FileEntry
unfolding get_path with_stat
ensure_stat resolve stat e =
    if e.stat_loaded
    then e
    else let (path, e') = get_path resolve (record e { stat_loaded = true }) in
      with_stat e' (stat path)
