-- ===== src/Query.antt =====
-- core/search.py, the query language: its Boolean expressions, the matchers that a parsed query
-- compiles to, the built-in filters and the duplicates; and core/synonyms.py.
pub mod Boolean
pub mod Options
pub mod Matcher
pub mod Matches
pub mod Filters
pub mod Synonyms
pub mod Order
pub mod Search
pub mod Parse
pub mod Duplicates
