-- ===== src/Hidden/Kept.antt =====
-- The hidden paths over a run of the methods of core/hidden_paths.py.
use quick_find.Prelude.{
  ◌≡◌, ◌≢◌, refl, Bool, true, some, List, [], ◌∷◌, ◌++◌, map, any, Bool-cases, inl, inr, arith,
}
use quick_find.Text.{Text, text_eq}
use quick_find.Dict.{Dict, get, put, remove, has, text_key, get-put, get-remove}
use quick_find.Hidden.{
  HiddenPathsManager, normalize, paths_of, remove_first, put_or_drop, save, add_path, remove_path,
  set_paths, clear_filter,
}

pub data Call : Type 0 where
  adds removes : (name path : Text) → Call
  sets : (name : Text) (paths : List Text) → Call
  clears : (name : Text) → Call

-- The disk that takes every write.
abbrev pub always : Dict Text (List Text) → Bool
always d = true

unfoldable pub perform : Call → HiddenPathsManager → HiddenPathsManager
unfolding add_path remove_path set_paths clear_filter
perform (adds name path) m = add_path always m name path
perform (removes name path) m = remove_path always m name path
perform (sets name paths) m = set_paths always m name paths
perform (clears name) m = clear_filter always m name

unfoldable pub perform_all : List Call → HiddenPathsManager → HiddenPathsManager
unfolding perform
perform_all [] m = m
perform_all (c ∷ cs) m = perform_all cs (perform c m)

-- No filter has an empty list.
abbrev pub NoneEmpty : Dict Text (List Text) → Type 0
NoneEmpty d = (name : Text) (paths : List Text) → get d name ≡ some paths → paths ≢ []

put-NoneEmpty :
    (d : Dict Text (List Text)) (name : Text) (paths : List Text)
    → paths ≢ []
    → NoneEmpty d
    → NoneEmpty (put d name paths)
put-NoneEmpty d name paths full h other ps g =
    let q = get-put d name other paths in
    elim (Bool-cases (text_eq name other)) [
      | inl e ↦ λ empty. full (ground (arith, q, g, e, empty))
      | inr e ↦ h other ps (ground (arith, q, g, e))
    ]

remove-NoneEmpty :
    (d : Dict Text (List Text)) (name : Text) → NoneEmpty d → NoneEmpty (remove d name)
remove-NoneEmpty d name h other ps g =
    let q = get-remove d name other in
    elim (Bool-cases (text_eq name other)) [
      | inl e ↦ absurd (ground (arith, q, g, e))
      | inr e ↦ h other ps (ground (arith, q, g, e))
    ]

put_or_drop-NoneEmpty :
    (d : Dict Text (List Text)) (name : Text) (paths : List Text)
    → NoneEmpty d
    → NoneEmpty (put_or_drop d name paths)
unfolding put_or_drop
put_or_drop-NoneEmpty d name [] h = remove-NoneEmpty d name h
put_or_drop-NoneEmpty d name (p ∷ ps) h = put-NoneEmpty d name (p ∷ ps) (λ e. cc) h

append-ne-nil : (ps : List Text) (p : Text) → ps ++ p ∷ [] ≢ []
append-ne-nil [] p e = cc
append-ne-nil (q ∷ qs) p e = cc

-- Memory and file agree, and no filter has an empty list.
unfoldable pub IsKept : HiddenPathsManager → Type 0
IsKept m = (m.file ≡ m.data_paths) × NoneEmpty m.data_paths

perform-IsKept : (c : Call) (m : HiddenPathsManager) → IsKept m → IsKept (perform c m)
unfolding IsKept perform
perform-IsKept (adds name path) m (same, full) =
    elim (Bool-cases (any (λ p. text_eq p (normalize path)) (paths_of m.data_paths name))) [
      | inl e ↦ rw (e, add_path) (same, full)
      | inr e ↦
          rw (e, add_path, save)
            (
              refl,
              put-NoneEmpty m.data_paths name (paths_of m.data_paths name ++ normalize path ∷ [])
                  (append-ne-nil (paths_of m.data_paths name) (normalize path)) full,
            )
    ]
perform-IsKept (removes name path) m (same, full) = elim (Bool-cases (has m.data_paths name)) [
  | inl e ↦
      rw (e, remove_path, save)
        (
          refl,
          put_or_drop-NoneEmpty m.data_paths name
              (remove_first (normalize path) (paths_of m.data_paths name)) full,
        )
  | inr e ↦ rw (e, remove_path) (same, full)
]
perform-IsKept (sets name paths) m (same, full) =
    (refl, put_or_drop-NoneEmpty m.data_paths name (map normalize paths) full)
perform-IsKept (clears name) m (same, full) = elim (Bool-cases (has m.data_paths name)) [
  | inl e ↦ rw (e, clear_filter, save) (refl, remove-NoneEmpty m.data_paths name full)
  | inr e ↦ rw (e, clear_filter) (same, full)
]

-- If memory and file agree, no filter has an empty list, and every write to the disk succeeds, then after any sequence of calls memory and file agree and no filter has an empty list.
pub perform_all-IsKept :
    (cs : List Call) (m : HiddenPathsManager) → IsKept m → IsKept (perform_all cs m)
unfolding perform_all
perform_all-IsKept [] m h = h
perform_all-IsKept (c ∷ cs) m h = perform_all-IsKept cs (perform c m) (perform-IsKept c m h)
