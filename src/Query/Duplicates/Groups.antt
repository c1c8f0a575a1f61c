-- ===== src/Query/Duplicates/Groups.antt =====
-- The groups that `find_duplicates` of core/search.py gives.
use quick_find.Prelude.{
  ◌≡◌, refl, sym, ap, ◌∙◌, Bool, false, not, ◌&&◌, ◌||◌, some, List, [], ◌∷◌, ◌++◌, ltb,
  if◌then◌else◌, length, keep, append_assoc, append-nil, Bool-cases, inl, inr, arith,
}
use quick_find.Text.{Text, Unicode, text_eq, text_eq_iff}
use quick_find.Dict.{Dict, get, put, has, text_key, get-put}
use quick_find.Index.{FileEntry, is_dir}
use quick_find.Query.Duplicates.{members, add_file, add_files, several, find_duplicates}

-- No key stands twice.
abbrev IsUnique : Dict Text (List FileEntry) → Type 0
IsUnique [] = Unit
IsUnique ((key, files) ∷ m) = (has m key ≡ false) × IsUnique m

has-put :
    (m : Dict Text (List FileEntry)) (key : Text) (files : List FileEntry) (other : Text)
    → has (put m key files) other ≡ (text_eq key other || has m other)
unfolding has put
has-put [] key files other = ground arith
has-put ((j, fs) ∷ m) key files other = ground (
  arith,
  has-put m key files other,
  text_eq_iff j key,
  text_eq_iff key other,
  text_eq_iff j other,
)

put-IsUnique :
    (m : Dict Text (List FileEntry)) (key : Text) (files : List FileEntry)
    → IsUnique m
    → IsUnique (put m key files)
unfolding has put
put-IsUnique [] key files h = (refl, tt)
put-IsUnique ((j, fs) ∷ m) key files (new, h) = elim (Bool-cases (text_eq j key)) [
  | inl e ↦ rw (e, put) (new, h)
  | inr e ↦
      rw (e, put)
        (
          ground (arith, has-put m key files j, e, new, text_eq_iff j key, text_eq_iff key j),
          put-IsUnique m key files h,
        )
]

add_file-IsUnique :
    (u : Unicode) (m : Dict Text (List FileEntry)) (e : FileEntry)
    → IsUnique m
    → IsUnique (add_file u m e)
unfolding add_file
add_file-IsUnique u m e h = elim (Bool-cases (is_dir e)) [
  | inl d ↦ rw (d, add_file) h
  | inr d ↦
      rw (d, add_file) (put-IsUnique m (u.lower e.name) (members m (u.lower e.name) ++ e ∷ []) h)
]

add_files-IsUnique :
    (u : Unicode) (es : List FileEntry) (m : Dict Text (List FileEntry))
    → IsUnique m
    → IsUnique (add_files u m es)
unfolding add_files
add_files-IsUnique u [] m h = h
add_files-IsUnique u (e ∷ es) m h =
    add_files-IsUnique u es (add_file u m e) (add_file-IsUnique u m e h)

-- A file of this name.
abbrev pub is_named : Unicode → Text → FileEntry → Bool
is_named u key e = not (is_dir e) && text_eq (u.lower e.name) key

members-put :
    (m : Dict Text (List FileEntry)) (key : Text) (files : List FileEntry) (other : Text)
    → members (put m key files) other ≡ (if text_eq key other then files else members m other)
unfolding members
members-put m key files other = elim (Bool-cases (text_eq key other)) [
  | inl e ↦
      let q : get (put m key files) other ≡ some files = get-put m key other files ∙ rw e refl in
      rw (q, e, members) refl
  | inr e ↦
      let q : get (put m key files) other ≡ get m other = get-put m key other files ∙ rw e refl in
      rw (q, e, members) refl
]

members-add_file :
    (u : Unicode) (m : Dict Text (List FileEntry)) (e : FileEntry) (key : Text)
    → members (add_file u m e) key
      ≡ (if is_named u key e then members m key ++ e ∷ [] else members m key)
unfolding add_file
members-add_file u m e key = elim (Bool-cases (is_dir e)) [
  | inl d ↦ rw (d, add_file) refl
  | inr d ↦ elim (Bool-cases (text_eq (u.lower e.name) key)) [
    | inl q ↦
        rw (d, q, add_file)
          (members-put m (u.lower e.name) (members m (u.lower e.name) ++ e ∷ []) key
            ∙ rw q (ap (λ z. members m z ++ e ∷ []) ((text_eq_iff (u.lower e.name) key).0 q)))
    | inr q ↦
        rw (d, q, add_file)
          (members-put m (u.lower e.name) (members m (u.lower e.name) ++ e ∷ []) key ∙ rw q refl)
  ]
]

members-add_files :
    (u : Unicode) (es : List FileEntry) (m : Dict Text (List FileEntry)) (key : Text)
    → members (add_files u m es) key ≡ members m key ++ keep (is_named u key) es
unfolding add_files
members-add_files u [] m key = sym (append-nil (members m key))
members-add_files u (e ∷ es) m key = elim (Bool-cases (is_named u key e)) [
  | inl n ↦
      members-add_files u es (add_file u m e) key
      ∙ rw (members-add_file u m e key, n)
          (append_assoc (members m key) (e ∷ []) (keep (is_named u key) es))
  | inr n ↦ members-add_files u es (add_file u m e) key ∙ rw (members-add_file u m e key, n) refl
]

-- A list of at least two, or none.
abbrev pub at_least_two : List FileEntry → List FileEntry
at_least_two files = if ltb 1 (length files) then files else []

members-absent :
    (m : Dict Text (List FileEntry)) (key : Text) → has m key ≡ false → members (several m) key ≡ []
unfolding members several has
members-absent [] key h = refl
members-absent ((j, fs) ∷ m) key h = ground (arith, members-absent m key, h)

members-several :
    (m : Dict Text (List FileEntry)) (key : Text)
    → IsUnique m
    → members (several m) key ≡ at_least_two (members m key)
unfolding members several
members-several [] key h = refl
members-several ((j, fs) ∷ m) key (new, h) =
    ground (arith, members-several m key h, members-absent m j new, text_eq_iff j key)

-- What is given under any key is the files, in their order, whose name in lower case is that key, if there are at least two of them, and nothing otherwise.
pub find_duplicates-keep :
    (u : Unicode) (entries : List FileEntry) (key : Text)
    → members (find_duplicates u entries) key ≡ at_least_two (keep (is_named u key) entries)
unfolding find_duplicates
find_duplicates-keep u entries key =
    members-several (add_files u [] entries) key (add_files-IsUnique u entries [] tt)
    ∙ ap at_least_two (members-add_files u entries [] key)
