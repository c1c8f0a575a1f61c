-- ===== src/Tests/Hidden.antt =====
-- Runs of core/hidden_paths.py on one filter with one hidden path.
use quick_find.Prelude.{refl, List, [], ◌∷◌, Bool-cases, inl, inr, arith}
use quick_find.Text.{codes, text_eq}
use quick_find.Dict.{get, text_key}
use quick_find.Hidden.{HiddenPathsManager}
use quick_find.Hidden.Kept.{
  Call, adds, removes, sets, clears, IsKept, NoneEmpty, perform_all, perform_all-IsKept,
}

abbrev manager : HiddenPathsManager
manager = record {
  data_paths = (codes "Audio", codes "C:\\tmp" ∷ []) ∷ [];
  file = (codes "Audio", codes "C:\\tmp" ∷ []) ∷ [];
}

full : NoneEmpty manager.data_paths
unfolding get
full name paths g = elim (Bool-cases (text_eq (codes "Audio") name)) [
  | inl e ↦ λ empty. ground (arith, g, e, empty)
  | inr e ↦ absurd (ground (arith, g, e))
]

kept : IsKept manager
unfolding IsKept
kept = (refl, full)

abbrev calls : List Call
calls =
    adds (codes "Video") (codes "D:/old")
    ∷ removes (codes "Audio") (codes "C:/tmp")
    ∷ sets (codes "Image") []
    ∷ clears (codes "Video")
    ∷ []

perform_all-IsKept_example : IsKept (perform_all calls manager)
perform_all-IsKept_example = perform_all-IsKept calls manager kept
