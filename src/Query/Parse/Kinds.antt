-- ===== src/Query/Parse/Kinds.antt =====
-- core/search.py, `parse_query`: no modifier makes a query ask for files only and for folders only
-- at once.
use quick_find.Prelude.{
  ℕ, ℤ, drop, ◌≡◌, refl, sym, subst, Bool, true, false, not, ◌&&◌, List, [], ◌∷◌, Option, none,
  some, if◌then◌else◌, arith,
}
use quick_find.Text.{Text, codes}
use quick_find.Dict.{Dict, get, put, remove, text_key}
use quick_find.Query.Options.{ParsedQuery, SearchOptions}
use quick_find.Query.Parse.{is_blank, split_once}
use quick_find.Query.Parse.Values.{Reading, parse_size}
use quick_find.Query.Parse.Modifiers.{
  Modifier, case_on, case_off, regex_on, regex_off, wildcards_on, wildcards_off, fuzzy_on,
  fuzzy_off, whole_word_on, whole_word_off, whole_filename_on, whole_filename_off, path_on,
  path_off, files_only, folders_only, ext, size, date_modified, date_created, parent, len, attrib,
  content, dupe, broken, git, archive, Parsing, append_value, Plugin, PluginResult, without_last,
  pop_value, add_value, plugin_outcome, apply_plugin, apply_option, with_query, with_size, with_len,
  with_broken, size_range, first_is, set_len_min, set_len_max, set_len_range, shifted, plus_one,
  minus_one, int_or_zero, date_limits, apply_modifier,
}

abbrev pub one_kind : SearchOptions → Bool
one_kind o = not (o.files_only && o.folders_only)

abbrev pub IsOneKind : Parsing → Type 0
IsOneKind s = one_kind s.query.options ≡ true

append_value-IsOneKind : (val : Text) (s : Parsing) → IsOneKind s → IsOneKind (append_value val s)
append_value-IsOneKind [] s h = h
append_value-IsOneKind (c ∷ v) s h = h

module _ (rd : Reading) where
  apply_option-IsOneKind :
      (m : Modifier) (val : Text) (s : Parsing) → IsOneKind s → IsOneKind (apply_option rd m val s)
  unfolding apply_option
  apply_option-IsOneKind case_on val s h = h
  apply_option-IsOneKind case_off val s h = h
  apply_option-IsOneKind regex_on val s h = append_value-IsOneKind val _ h
  apply_option-IsOneKind regex_off val s h = h
  apply_option-IsOneKind wildcards_on val s h = append_value-IsOneKind val _ h
  apply_option-IsOneKind wildcards_off val s h = h
  apply_option-IsOneKind fuzzy_on val s h = append_value-IsOneKind val _ h
  apply_option-IsOneKind fuzzy_off val s h = h
  apply_option-IsOneKind whole_word_on val s h = h
  apply_option-IsOneKind whole_word_off val s h = h
  apply_option-IsOneKind whole_filename_on val s h = append_value-IsOneKind val _ h
  apply_option-IsOneKind whole_filename_off val s h = h
  apply_option-IsOneKind path_on val s h = ground (arith, h)
  apply_option-IsOneKind path_off val s h = h
  apply_option-IsOneKind files_only val s h = append_value-IsOneKind val _ refl
  apply_option-IsOneKind folders_only val s h = append_value-IsOneKind val _ refl
  apply_option-IsOneKind archive val s h = append_value-IsOneKind val _ h
  apply_option-IsOneKind _ val s h = h

  -- The query that is made has the options of the one that it is made from.
  abbrev Same : ParsedQuery → Option ParsedQuery → Type 0
  Same q none = Unit
  Same q (some q') = q'.options ≡ q.options

  if-Same :
      (q : ParsedQuery) (test : Bool) (one other : Option ParsedQuery)
      → Same q one
      → Same q other
      → Same q (if test then one else other)
  if-Same q true one other a b = a
  if-Same q false one other a b = b

  size_range-Same : (q : ParsedQuery) (lo hi : Option ℤ) → Same q (size_range rd q lo hi)
  size_range-Same q none hi = tt
  size_range-Same q (some lo) none = tt
  size_range-Same q (some lo) (some hi) = refl

  with_size-Same : (val : Text) (q : ParsedQuery) → Same q (with_size rd val q)
  unfolding with_size
  with_size-Same val q =
      if-Same q (is_blank val) (some q) _ refl (ranged (split_once (codes "..") val))
    where
      lower :
          (z : Option ℤ)
          → Same q (elim z as (λ _. Option ParsedQuery) [
            | none ↦ none
            | some n ↦ some (record q { size_min = n })
          ])
      lower none = tt
      lower (some n) = refl

      upper :
          (z : Option ℤ)
          → Same q (elim z as (λ _. Option ParsedQuery) [
            | none ↦ none
            | some n ↦ some (record q { size_max = n })
          ])
      upper none = tt
      upper (some n) = refl

      ranged :
          (o : Option (Text × Text))
          → Same q (elim o as (λ _. Option ParsedQuery) [
            | some parts ↦ size_range rd q (parse_size rd parts.0) (parse_size rd parts.1)
            | none ↦
                if first_is rd b'>' val
                then elim (parse_size rd (drop 1 val)) as (λ _. Option ParsedQuery) [
                  | none ↦ none
                  | some z ↦ some (record q { size_min = z })
                ]
                else if first_is rd b'<' val
                then elim (parse_size rd (drop 1 val)) as (λ _. Option ParsedQuery) [
                  | none ↦ none
                  | some z ↦ some (record q { size_max = z })
                ]
                else size_range rd q (parse_size rd val) (parse_size rd val)
          ])
      ranged (some parts) = size_range-Same q (parse_size rd parts.0) (parse_size rd parts.1)
      ranged none = if-Same q (first_is rd b'>' val) _ _ (lower (parse_size rd (drop 1 val))) (
          if-Same q (first_is rd b'<' val) _ _ (upper (parse_size rd (drop 1 val)))
            (size_range-Same q (parse_size rd val) (parse_size rd val)))

  set_len_min-options : (z : Option ℤ) (q : ParsedQuery) → (set_len_min rd z q).options ≡ q.options
  set_len_min-options none q = refl
  set_len_min-options (some z) q = refl

  set_len_max-options : (z : Option ℤ) (q : ParsedQuery) → (set_len_max rd z q).options ≡ q.options
  set_len_max-options none q = refl
  set_len_max-options (some z) q = refl

  set_len_range-options :
      (lo hi : Option ℤ) (q : ParsedQuery) → (set_len_range rd lo hi q).options ≡ q.options
  set_len_range-options none hi q = refl
  set_len_range-options (some lo) hi q = set_len_max-options hi (record q { name_len_min = lo })

  if-options :
      (q : ParsedQuery) (test : Bool) (one other : ParsedQuery)
      → one.options ≡ q.options
      → other.options ≡ q.options
      → (if test then one else other).options ≡ q.options
  if-options q true one other a b = a
  if-options q false one other a b = b

  with_len-options : (val : Text) (q : ParsedQuery) → (with_len rd val q).options ≡ q.options
  unfolding with_len
  with_len-options val q = from (split_once (codes "..") val)
    where
      from :
          (o : Option (Text × Text))
          → (elim o as (λ _. ParsedQuery) [
            | some parts ↦ set_len_range rd (int_or_zero rd parts.0) (int_or_zero rd parts.1) q
            | none ↦
                if first_is rd b'>' val
                then set_len_min rd (shifted rd plus_one (rd.int (drop 1 val))) q
                else if first_is rd b'<' val
                then set_len_max rd (shifted rd minus_one (rd.int (drop 1 val))) q
                else set_len_range rd (rd.int val) (rd.int val) q
          ]).options
            ≡ q.options
      from (some parts) = set_len_range-options _ _ q
      from none = if-options q (first_is rd b'>' val) _ _ (set_len_min-options _ q) (
          if-options q (first_is rd b'<' val) _ _ (set_len_max-options _ q)
            (set_len_range-options _ _ q))

  with_broken-options :
      (kind : Text) (q : ParsedQuery) → (with_broken rd kind q).options ≡ q.options
  unfolding with_broken
  with_broken-options kind q = ground arith

  -- No step is taken, or one to a state that is all right.
  abbrev pub Ok : Option Parsing → Type 0
  Ok none = Unit
  Ok (some s) = IsOneKind s

  with_query-Ok :
      (s : Parsing) (o : Option ParsedQuery) → IsOneKind s → Same s.query o → Ok (with_query rd s o)
  with_query-Ok s none h e = tt
  with_query-Ok s (some q) h e = subst (λ o. one_kind o ≡ true) (sym e) h

  pub apply_modifier-Ok :
      (m : Modifier) (val : Text) (s : Parsing) → IsOneKind s → Ok (apply_modifier rd m val s)
  unfolding apply_modifier
  apply_modifier-Ok ext val s h = h
  apply_modifier-Ok size val s h =
      with_query-Ok s (with_size rd val s.query) h (with_size-Same val s.query)
  apply_modifier-Ok date_modified val s h =
      from (date_limits rd val s.query.date_mod_after s.query.date_mod_before)
    where
      from :
          (o : Option (Option ℕ × Option ℕ))
          → Ok (elim o as (λ _. Option Parsing) [
            | none ↦ none
            | some l ↦
                with_query rd s
                  (some (record s.query { date_mod_after = l.0; date_mod_before = l.1 }))
          ])
      from none = tt
      from (some l) = h
  apply_modifier-Ok date_created val s h =
      from (date_limits rd val s.query.date_create_after s.query.date_create_before)
    where
      from :
          (o : Option (Option ℕ × Option ℕ))
          → Ok (elim o as (λ _. Option Parsing) [
            | none ↦ none
            | some l ↦
                with_query rd s
                  (some (record s.query { date_create_after = l.0; date_create_before = l.1 }))
          ])
      from none = tt
      from (some l) = h
  apply_modifier-Ok parent val s h = h
  apply_modifier-Ok len val s h =
      with_query-Ok s (some (with_len rd val s.query)) h (with_len-options val s.query)
  apply_modifier-Ok attrib val s h = h
  apply_modifier-Ok content val s h = h
  apply_modifier-Ok dupe val s h = h
  apply_modifier-Ok broken val s h =
      with_query-Ok s (some (with_broken rd (rd.unicode.lower val) s.query)) h
        (with_broken-options (rd.unicode.lower val) s.query)
  apply_modifier-Ok git val s h = h
  apply_modifier-Ok m val s h = apply_option-IsOneKind m val s h

-- A plugin's parser leaves a query that is all right so.
abbrev pub KeepsKinds : Plugin → Type 0
KeepsKinds plugin =
    (parse : Text → ParsedQuery → ParsedQuery × Option PluginResult)
    → plugin.parse ≡ some parse
    → (val : Text) (q : ParsedQuery) → one_kind q.options ≡ true
    → one_kind (parse val q).0.options ≡ true

pop_value-options : (name : Text) (q : ParsedQuery) → (pop_value name q).options ≡ q.options
unfolding pop_value
pop_value-options name q = from (get q.custom_modifiers name)
  where
    from :
        (o : Option (List Text))
        → (elim o as (λ _. ParsedQuery) [
          | none ↦ q
          | some values ↦
              let left = without_last values in
              record q {
                custom_modifiers = elim left as (λ _. Dict Text (List Text)) [
                  | [] ↦ remove q.custom_modifiers name
                  | v ∷ vs ↦ put q.custom_modifiers name (v ∷ vs)
                ];
              }
        ]).options
          ≡ q.options
    from none = refl
    from (some values) = refl

plugin_outcome-IsOneKind :
    (name token : Text) (s : Parsing) (r : ParsedQuery × Option PluginResult)
    → one_kind r.0.options ≡ true
    → IsOneKind (plugin_outcome name token s r)
unfolding plugin_outcome
plugin_outcome-IsOneKind name token s (q, some result) h = h
plugin_outcome-IsOneKind name token s (q, none) h =
    subst (λ o. one_kind o ≡ true) (sym (pop_value-options name q)) h

pub apply_plugin-IsOneKind :
    (plugin : Plugin) (token val : Text) (s : Parsing)
    → KeepsKinds plugin
    → IsOneKind s
    → IsOneKind (apply_plugin plugin token val s)
unfolding apply_plugin add_value
apply_plugin-IsOneKind plugin token val s keeps h = from plugin.parse refl
  where
    from :
        (o : Option (Text → ParsedQuery → ParsedQuery × Option PluginResult))
        → plugin.parse ≡ o
        → IsOneKind (elim o as (λ _. Parsing) [
          | none ↦ record s { query = add_value plugin.canonical_name val s.query }
          | some parse ↦
              plugin_outcome plugin.canonical_name token s
                (parse val (add_value plugin.canonical_name val s.query))
        ])
    from none e = h
    from (some parse) e =
        plugin_outcome-IsOneKind plugin.canonical_name token s
          (parse val (add_value plugin.canonical_name val s.query))
          (keeps parse e val (add_value plugin.canonical_name val s.query) h)
