-- ===== src/Settings.antt =====
-- gui/settings_validation.py: the data of a settings profile, as JSON gives it, and the names that
-- are checked.
pub mod Sanitize
pub mod Keeps
pub mod Answered
pub mod Ranges
use quick_find.Prelude.{
  ℕ, ℤ, pos, negsuc, Bool, true, false, not, List, [], ◌∷◌, Option, none, some, truthy,
}
use quick_find.Text.{Text, codes}
use quick_find.Dict.{Dict}

-- What `int(value)` gives: a number, a `TypeError` or `ValueError`, or an `OverflowError`.
pub data Converted : Type 0 where
  number : (z : ℤ) → Converted
  refused overflow : Converted

-- A float is known by its truth and by what `int` makes of it.
mutual
  pub data Value : Type 0 where
    null : Value
    boolean : (b : Bool) → Value
    integer : (z : ℤ) → Value
    floating : (truth : Bool) (converted : Converted) → Value
    text : (s : Text) → Value
    array : (items : Values) → Value
    object : (empty : Bool) → Value

  pub data Values : Type 0 where
    nil : Values
    cons : (item : Value) (items : Values) → Values

abbrev pub Settings : Type 0
Settings = Dict Text Value

-- The range of a setting: its name and its bounds.
pub record Range : Type 0 where
  pub name : Text
  pub minimum : ℕ
  pub maximum : ℕ

abbrev range : Text → ℕ → ℕ → Range
range name minimum maximum = record { name = name; minimum = minimum; maximum = maximum }

abbrev pub int_ranges : List Range
int_ranges =
    range (codes "http_port") 1 65535
    ∷ range (codes "usn_poll_interval_ms") 100 10000
    ∷ range (codes "drive_startup_delay_seconds") 0 120
    ∷ range (codes "default_max_results") 0 10000000
    ∷ range (codes "search_delay_ms") 0 2000
    ∷ range (codes "window_width") 640 10000
    ∷ range (codes "window_height") 480 10000
    ∷ range (codes "content_index_max_cache_mb") 1 102400
    ∷ range (codes "content_index_max_file_mb") 1 1024
    ∷ range (codes "exclude_attribute_mask") 0 0xFFFFFFFF
    ∷ range (codes "efu_refresh_interval_minutes") 0 1440
    ∷ []

abbrev pub string_fields : List Text
string_fields =
    codes "http_bind"
    ∷ codes "http_auth_token"
    ∷ codes "https_cert_file"
    ∷ codes "https_key_file"
    ∷ []

abbrev pub index_case_modes : List Text
index_case_modes = codes "smart" ∷ codes "insensitive" ∷ codes "sensitive" ∷ []

abbrev pub theme_names : List Text
theme_names = codes "mocha" ∷ codes "macchiato" ∷ codes "frappe" ∷ codes "latte" ∷ []

abbrev pub language_codes : List Text
language_codes = codes "en" ∷ codes "es" ∷ []

abbrev pub string_list_fields : List Text
string_list_fields =
    codes "exclude_globs" ∷ codes "exclude_regexes" ∷ codes "network_share_roots" ∷ []

-- What a warning is about: a setting that was reset or cleared, or an entry that was left out.
pub data Warning : Type 0 where
  reset : (name : Text) → Warning
  ignored : (name : Text) → Warning
  migrated : (version : ℕ) → Warning

-- The truth of a value.
abbrev pub truth_of : Value → Bool
truth_of null = false
truth_of (boolean b) = b
truth_of (integer (pos n)) = truthy n
truth_of (integer (negsuc n)) = true
truth_of (floating truth converted) = truth
truth_of (text []) = false
truth_of (text (c ∷ s)) = true
truth_of (array nil) = false
truth_of (array (cons item items)) = true
truth_of (object empty) = not empty

-- The items of a list, none for another value.
abbrev pub items_of : Value → Option Values
items_of (array items) = some items
items_of _ = none

abbrev pub text_of : Value → Option Text
text_of (text s) = some s
text_of _ = none
