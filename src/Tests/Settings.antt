-- ===== src/Tests/Settings.antt =====
-- A run of gui/settings_validation.py on a profile whose port is text and whose width is too small,
-- with a regular expression and files.
use quick_find.Prelude.{pos, ◌≡◌, refl, true, none, some, [], ◌∷◌, if◌then◌else◌}
use quick_find.Text.{codes, ascii, text_eq}
use quick_find.Dict.{get}
use quick_find.Settings.{nil, cons, null, array, integer, text, Settings}
use quick_find.Settings.Sanitize.{
  Checked, Checks, take_known, to_int, value_or, coerce_lists, strip_fields, coerce_ints,
  sanitize_settings_data,
}
use quick_find.Settings.Answered.{sanitize_settings_data-in_ranges}
use quick_find.Settings.Ranges.{in_ranges}

abbrev checks : Checks
checks = record {
  unicode = ascii;
  parse_int = λ s. some (pos 8081);
  compiles = λ pattern. if text_eq pattern (codes "{") then none else some true;
  path_exists = λ path. if text_eq path (codes "~") then none else some true;
  normalize_network_root = λ root. none;
}

abbrev defaults : Settings
defaults =
    (codes "http_port", integer (pos 8080))
    ∷ (codes "usn_poll_interval_ms", integer (pos 1000))
    ∷ (codes "drive_startup_delay_seconds", integer (pos 0))
    ∷ (codes "default_max_results", integer (pos 0))
    ∷ (codes "search_delay_ms", integer (pos 150))
    ∷ (codes "window_width", integer (pos 1200))
    ∷ (codes "window_height", integer (pos 800))
    ∷ (codes "content_index_max_cache_mb", integer (pos 512))
    ∷ (codes "content_index_max_file_mb", integer (pos 16))
    ∷ (codes "exclude_attribute_mask", integer (pos 0))
    ∷ (codes "efu_refresh_interval_minutes", integer (pos 0))
    ∷ (codes "http_bind", text (codes "127.0.0.1"))
    ∷ (codes "exclude_regexes", array nil)
    ∷ (codes "https_key_file", text [])
    ∷ (codes "efu_files", array nil)
    ∷ []

abbrev profile : Settings
profile =
    (codes "http_port", text (codes "8081"))
    ∷ (codes "window_width", integer (pos 3))
    ∷ (codes "exclude_regexes", array (cons (text (codes " tmp ")) nil))
    ∷ (codes "https_key_file", text (codes "C:\\key.pem"))
    ∷ (codes "efu_files", array (cons (text (codes "C:\\a.efu")) (cons null nil)))
    ∷ []

sanitize_settings_data-in_ranges_example :
    (c : Checked) × (sanitize_settings_data checks defaults profile ≡ some c)
    × (in_ranges checks defaults c.0 ≡ true)
unfolding get text_eq take_known to_int value_or coerce_lists strip_fields coerce_ints
sanitize_settings_data-in_ranges_example =
    sanitize_settings_data-in_ranges checks defaults profile (text (codes "127.0.0.1")) refl refl
      refl record { patterns = refl; cert = refl; key = refl; files = refl; roots = refl }
