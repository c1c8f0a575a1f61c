-- ===== src/Text.antt =====
-- Python's `str` as the list of its code points, and the methods of it that the program calls.
-- What depends on the Unicode tables (`lower`, `isupper`) is the record `Unicode`.
mod Eq
mod Substring
mod Order
unfoldable pub use Eq.{text_eq}
pub use Eq.{text_eq_iff, text_eq_refl}
unfoldable pub use Substring.{starts_with, contains}
unfoldable pub use Order.{text_leb}
pub use Order.{text_leb-total, text_leb_trans, text_leb_antisym}
pub use Substring.{starts_with_iff, contains_iff}
use Prim.Native.Char.{code}
use quick_find.Prelude.{
  ℕ, ◌≡◌, refl, Bool, true, false, ◌&&◌, ◌||◌, String, List, [], ◌∷◌, ◌++◌, leb, ◌==◌,
  if◌then◌else◌, ◌+◌, ◌-◌,
}

abbrev pub Text : Type 0
Text = List ℕ

-- A string literal of the source.
abbrev pub codes : String → Text
codes String.[] = []
codes (String.◌∷◌ c s) = code c ∷ codes s

-- `ch.isspace()`, which is also what `strip()` and `split()` cut at.
unfoldable pub is_space : ℕ → Bool
is_space c =
    (leb 9 c && leb c 13)
    || (leb 28 c && leb c 32)
    || c == 0x85
    || c == 0xA0
    || c == 0x1680
    || (leb 0x2000 c && leb c 0x200A)
    || c == 0x2028
    || c == 0x2029
    || c == 0x202F
    || c == 0x205F
    || c == 0x3000

-- `s.strip()`, as `lstrip` of `rstrip`.
unfoldable pub rstrip : Text → Text
unfolding is_space
rstrip [] = []
rstrip (c ∷ s) = elim (rstrip s) [ d ∷ r ↦ c ∷ d ∷ r | [] ↦ if is_space c then [] else c ∷ [] ]

unfoldable pub lstrip : Text → Text
unfolding is_space
lstrip [] = []
lstrip (c ∷ s) = let rest = lstrip s in if is_space c then rest else c ∷ s

unfoldable pub strip : Text → Text
unfolding lstrip rstrip
strip s = lstrip (rstrip s)

-- The Unicode tables: `s.lower()`, `s.upper()` and `c.isupper()`.
pub record Unicode : Type 0 where
  pub lower : Text → Text
  pub upper : Text → Text
  pub is_upper : ℕ → Bool

abbrev ascii_lower : Text → Text
ascii_lower [] = []
ascii_lower (c ∷ s) = (if leb b'A' c && leb c b'Z' then c + 32 else c) ∷ ascii_lower s

abbrev ascii_upper : Text → Text
ascii_upper [] = []
ascii_upper (c ∷ s) = (if leb b'a' c && leb c b'z' then c - 32 else c) ∷ ascii_upper s

-- The tables on ASCII, for runs on concrete text.
abbrev pub ascii : Unicode
ascii = record {
  lower = ascii_lower;
  upper = ascii_upper;
  is_upper = λ c. leb b'A' c && leb c b'Z';
}
