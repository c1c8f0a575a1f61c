-- ===== src/Query/Parse/Values.antt =====
-- core/search.py and core/utils.py: the values of modifiers, `parse_size`, `_parse_date`,
-- `_parse_date_range` and the table of attributes. An exception that is not caught is none.
use quick_find.Prelude.{
  ℕ, ◌+◌, ◌-◌, ◌*◌, ◌%◌, ℤ, pos, List, [], ◌∷◌, Option, none, some, if◌then◌else◌, any, ◌==◌, leb,
  bit_or,
}
use quick_find.Text.{Text, Unicode, codes, strip, text_eq}
use quick_find.Dict.{Dict, get, text_key}

-- What `int(float(s) * m)` gives: a number, a `ValueError`, or an `OverflowError`.
pub data Scaled : Type 0 where
  bytes : (z : ℤ) → Scaled
  refused overflow : Scaled

-- `shortcuts` are the dates of `_parse_date` for the present day, none where making them raises;
-- `strptime` reads a text by a format; `int` is none for a `ValueError`.
pub record Reading : Type 0 where
  pub unicode : Unicode
  pub int : Text → Option ℤ
  pub scaled : Text → ℕ → Scaled
  pub shortcuts : Option (Dict Text ℕ)
  pub strptime : Text → Text → Option ℕ

-- `s.endswith(suffix)`, with what stands before it.
unfoldable pub before_suffix : Text → Text → Option Text
unfolding text_eq
before_suffix suffix [] = if text_eq suffix [] then some [] else none
before_suffix suffix (c ∷ s) =
    let later = before_suffix suffix s in
    if text_eq suffix (c ∷ s)
    then some []
    else elim later [ none ↦ none | some before ↦ some (c ∷ before) ]

-- The suffixes in the order in which they are tried.
abbrev pub multipliers : List (Text × ℕ)
multipliers =
    (codes "kb", 1024)
    ∷ (codes "mb", 1048576)
    ∷ (codes "gb", 1073741824)
    ∷ (codes "tb", 1099511627776)
    ∷ (codes "b", 1)
    ∷ (codes "k", 1024)
    ∷ (codes "m", 1048576)
    ∷ (codes "g", 1073741824)
    ∷ (codes "t", 1099511627776)
    ∷ []

-- `datetime.max`, and a day, in microseconds.
abbrev pub day : ℕ
day = 86400000000

abbrev pub days_of_calendar : ℕ
days_of_calendar = 3652059

abbrev pub period_keywords : List Text
period_keywords =
    codes "thisweek"
    ∷ codes "lastweek"
    ∷ codes "thismonth"
    ∷ codes "lastmonth"
    ∷ codes "thisyear"
    ∷ codes "lastyear"
    ∷ []

abbrev pub formats : List Text
formats = codes "%Y-%m-%d" ∷ codes "%Y/%m/%d" ∷ codes "%m/%d/%Y" ∷ []

abbrev pub attrib_map : List (ℕ × ℕ)
attrib_map =
    (b'r', 0x01)
    ∷ (b'h', 0x02)
    ∷ (b's', 0x04)
    ∷ (b'd', 0x10)
    ∷ (b'a', 0x20)
    ∷ (b'v', 0x40)
    ∷ (b'n', 0x80)
    ∷ (b't', 0x100)
    ∷ (b'p', 0x200)
    ∷ (b'l', 0x400)
    ∷ (b'c', 0x800)
    ∷ (b'o', 0x1000)
    ∷ (b'i', 0x2000)
    ∷ (b'e', 0x4000)
    ∷ []

unfoldable pub attribute_of : List (ℕ × ℕ) → ℕ → ℕ
attribute_of [] ch = 0
attribute_of ((c, bit) ∷ rest) ch =
    let later = attribute_of rest ch in if c == ch then bit else later

-- `for ch in val.lower(): …`.
unfoldable pub with_attributes : ℕ → Text → ℕ
unfolding attribute_of
with_attributes mask [] = mask
with_attributes mask (ch ∷ s) = with_attributes (bit_or mask (attribute_of attrib_map ch)) s

module _ (rd : Reading) where
  abbrev pub number_or_zero : Option ℤ → ℤ
  number_or_zero none = pos 0
  number_or_zero (some z) = z

  abbrev pub scaled_size : Scaled → Option ℤ
  scaled_size (bytes z) = some z
  scaled_size refused = some (pos 0)
  scaled_size overflow = none

  unfoldable pub size_by_suffix : Text → List (Text × ℕ) → Option ℤ
  unfolding before_suffix
  size_by_suffix s [] = some (number_or_zero (rd.int s))
  size_by_suffix s ((suffix, mult) ∷ rest) = elim (before_suffix suffix s) [
    | some before ↦ scaled_size (rd.scaled before mult)
    | none ↦ size_by_suffix s rest
  ]

  unfoldable pub parse_size : Text → Option ℤ
  unfolding size_by_suffix strip
  parse_size s = size_by_suffix (rd.unicode.lower (strip s)) multipliers

  unfoldable pub date_by_format : Text → List Text → Option ℕ
  date_by_format s [] = none
  date_by_format s (fmt ∷ fmts) = elim (rd.strptime s fmt) [
    | some d ↦ some d
    | none ↦ date_by_format s fmts
  ]

  unfoldable pub parse_date : Text → Option (Option ℕ)
  unfolding date_by_format strip get
  parse_date date_str =
      let s = rd.unicode.lower (strip date_str) in
      elim rd.shortcuts [
        | none ↦ none
        | some dates ↦
            some (elim (get dates s) [ some d ↦ some d | none ↦ date_by_format s formats ])
      ]

  -- The whole day of a date; the day behind the last of the calendar raises.
  unfoldable pub whole_day : ℕ → Option (Option ℕ × Option ℕ)
  whole_day start =
      let day_start = start - start % day in
      if leb (days_of_calendar * day) (day_start + day)
      then none
      else some (some day_start, some (day_start + day - 1))

  unfoldable pub parse_date_range : Text → Option (Option ℕ × Option ℕ)
  unfolding parse_date whole_day strip text_eq
  parse_date_range date_str = elim (parse_date date_str) [
    | none ↦ none
    | some found ↦ elim found [
      | none ↦ some (none, none)
      | some start ↦
          if any (λ k. text_eq k (rd.unicode.lower (strip date_str))) period_keywords
          then some (some start, none)
          else whole_day start
    ]
  ]
