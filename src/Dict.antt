-- ===== src/Dict.antt =====
-- Python's `dict` as the list of its items in order of insertion, and keys compared by `==`.
mod Defs
mod Laws
mod Unique
unfoldable pub use Defs.{nat_eq, text_key, get, put, remove, has}
pub use Defs.{Eq, Dict}
unfoldable pub use Unique.{select}
pub use Unique.{
  IsUnique, has-put, has-remove, has-eq-false, put-IsUnique, remove-IsUnique, select-IsUnique,
  get-select,
}
pub use Laws.*
