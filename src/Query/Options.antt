-- ===== src/Query/Options.antt =====
-- core/search.py, `SearchOptions`, `SearchFilter` and `ParsedQuery`: what a query asks for.
use quick_find.Prelude.{ℕ, ℤ, Bool, Option, List}
use quick_find.Text.{Text}
use quick_find.Dict.{Dict}
use quick_find.Query.Boolean.{BooleanExpression}

pub data CaseMode : Type 0 where
  smart insensitive sensitive : CaseMode

pub data SortField : Type 0 where
  by_name by_path by_size by_date_modified by_date_created by_extension by_attributes by_relevance :
      SortField

pub data SortOrder : Type 0 where
  ascending descending : SortOrder

pub record SearchOptions : Type 0 where
  pub match_case : Bool
  pub case_mode : CaseMode
  pub match_whole_word : Bool
  pub match_whole_filename : Bool
  pub match_path : Bool
  pub use_regex : Bool
  pub use_wildcards : Bool
  pub use_fuzzy : Bool
  pub files_only : Bool
  pub folders_only : Bool
  pub max_results : ℕ
  pub sort_by : SortField
  pub sort_order : SortOrder

-- Dates are the numbers that `FileEntry` has.
pub record ParsedQuery : Type 0 where
  pub terms : List Text
  pub options : SearchOptions
  pub ext_filter : List Text
  pub size_min : ℤ
  pub size_max : ℤ
  pub date_mod_after : Option ℕ
  pub date_mod_before : Option ℕ
  pub date_create_after : Option ℕ
  pub date_create_before : Option ℕ
  pub path_includes : List Text
  pub parent_filter : Text
  pub name_len_min : ℤ
  pub name_len_max : ℤ
  pub attrib_include : ℕ
  pub content_search : Text
  pub dupe_mode : Bool
  pub dupe_hash_mode : Bool
  pub broken_link_mode : Bool
  pub broken_shortcut_mode : Bool
  pub git_dirty_mode : Bool
  pub archive_mode : Bool
  pub custom_modifiers : Dict Text (List Text)
  pub boolean_expression : Option BooleanExpression
  pub or_groups : List (List Text)
  pub exclude_terms : List Text
