-- ===== src/Query/Duplicates.antt =====
-- core/search.py, `SearchEngine.find_duplicates`: the files of the same name, whatever its case.
pub mod Groups
use quick_find.Prelude.{
  ℕ, Bool, true, false, not, ◌&&◌, Option, none, some, List, [], ◌∷◌, ◌++◌, ltb, if◌then◌else◌,
  length,
}
use quick_find.Text.{Text, Unicode}
use quick_find.Dict.{Dict, get, put, text_key}
use quick_find.Index.{FileEntry, is_dir}

-- The files under a name, none if there is no such key.
unfoldable pub members : Dict Text (List FileEntry) → Text → List FileEntry
unfolding get
members m key = elim (get m key) [ none ↦ [] | some files ↦ files ]

-- `if key not in name_map: name_map[key] = []` and `name_map[key].append(entry)`.
unfoldable pub add_file :
    Unicode → Dict Text (List FileEntry) → FileEntry → Dict Text (List FileEntry)
unfolding put members is_dir
add_file u m e =
    if is_dir e then m else put m (u.lower e.name) (members m (u.lower e.name) ++ e ∷ [])

unfoldable pub add_files :
    Unicode → Dict Text (List FileEntry) → List FileEntry → Dict Text (List FileEntry)
unfolding add_file
add_files u m [] = m
add_files u m (e ∷ es) = add_files u (add_file u m e) es

-- `{k: v for k, v in name_map.items() if len(v) > 1}`.
unfoldable pub several : Dict Text (List FileEntry) → Dict Text (List FileEntry)
several [] = []
several ((key, files) ∷ m) =
    let rest = several m in if ltb 1 (length files) then (key, files) ∷ rest else rest

unfoldable pub find_duplicates : Unicode → List FileEntry → Dict Text (List FileEntry)
unfolding add_files several
find_duplicates u entries = several (add_files u [] entries)
