-- ===== src/Hidden.antt =====
-- core/hidden_paths.py: the paths that each filter hides, in memory and in the file. `disk_takes`
-- says whether writing the file succeeds; a failure is logged and passed over.
pub mod Kept
use quick_find.Prelude.{
  ℕ, Bool, true, false, not, Option, none, some, List, [], ◌∷◌, ◌++◌, map, any, ◌==◌, if◌then◌else◌,
}
use quick_find.Text.{Text, text_eq}
use quick_find.Dict.{Dict, get, put, remove, has, text_key}

pub record HiddenPathsManager : Type 0 where
  pub data_paths : Dict Text (List Text)
  pub file : Dict Text (List Text)

-- `path.replace('/', '\\')`.
unfoldable pub normalize : Text → Text
normalize path = map (λ c. if c == b'/' then b'\\' else c) path

-- `self._data.get(filter_name, [])`.
unfoldable pub paths_of : Dict Text (List Text) → Text → List Text
unfolding get
paths_of d name = elim (get d name) [ none ↦ [] | some paths ↦ paths ]

-- `paths.remove(path)`, which leaves the list as it is where the path is not in it.
unfoldable pub remove_first : Text → List Text → List Text
unfolding text_eq
remove_first path [] = []
remove_first path (p ∷ ps) =
    let rest = remove_first path ps in if text_eq p path then ps else p ∷ rest

-- `if not self._data[filter_name]: del self._data[filter_name]`.
unfoldable pub put_or_drop : Dict Text (List Text) → Text → List Text → Dict Text (List Text)
unfolding put remove
put_or_drop d name [] = remove d name
put_or_drop d name (p ∷ ps) = put d name (p ∷ ps)

module _ (disk_takes : Dict Text (List Text) → Bool) where
  unfoldable pub save : HiddenPathsManager → HiddenPathsManager
  save m = if disk_takes m.data_paths then record m { file = m.data_paths } else m

  unfoldable pub get_paths : HiddenPathsManager → Text → List Text
  unfolding paths_of
  get_paths m name = paths_of m.data_paths name

  unfoldable pub add_path : HiddenPathsManager → Text → Text → HiddenPathsManager
  unfolding save paths_of normalize put text_eq
  add_path m name path =
      if any (λ p. text_eq p (normalize path)) (paths_of m.data_paths name)
      then m
      else save (record m {
        data_paths = put m.data_paths name (paths_of m.data_paths name ++ normalize path ∷ []);
      })

  unfoldable pub remove_path : HiddenPathsManager → Text → Text → HiddenPathsManager
  unfolding save paths_of normalize put_or_drop remove_first has
  remove_path m name path =
      if has m.data_paths name
      then save (record m {
        data_paths =
            put_or_drop m.data_paths name
              (remove_first (normalize path) (paths_of m.data_paths name));
      })
      else m

  unfoldable pub set_paths : HiddenPathsManager → Text → List Text → HiddenPathsManager
  unfolding save put_or_drop normalize
  set_paths m name paths =
      save (record m { data_paths = put_or_drop m.data_paths name (map normalize paths) })

  unfoldable pub clear_filter : HiddenPathsManager → Text → HiddenPathsManager
  unfolding save remove has
  clear_filter m name =
      if has m.data_paths name then save (record m { data_paths = remove m.data_paths name }) else m
