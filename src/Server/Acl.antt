-- ===== src/Server/Acl.antt =====
-- server/acl.py: tokens, the roots they may read, the filter of results, and the validation of a
-- configuration. `resolve p` is `PurePath(normcase(realpath(p)))`, `relative_to p r` says that
-- `p.relative_to(r)` does not raise, `normalize r` is `normcase(abspath(r))`, and `isabs` is
-- `os.path.isabs`.
pub mod Confines
use quick_find.Prelude.{
  ℕ, suc, ◌+◌, Bool, true, false, not, ◌&&◌, ◌||◌, List, [], ◌∷◌, ◌++◌, map, if◌then◌else◌, Option,
  none, some, any, keep, length, ltb,
}
use quick_find.Text.{Text, codes, text_eq}
use quick_find.Dict.{Dict, get, text_key}

pub record TokenAcl : Type 0 where
  pub token : Text
  pub label : Text
  pub allowed_roots : List Text
  pub read_only : Bool

pub record SharedServerConfig : Type 0 where
  pub enabled : Bool
  pub token_acls : List TokenAcl

-- A result payload, of which the filter reads the text under "path".
abbrev pub Payload : Type 0
Payload = Dict Text Text

pub record AclFilterResult : Type 0 where
  pub allowed : List Payload
  pub denied_count : ℕ

unfoldable pub is_ascii : Text → Bool
is_ascii [] = true
is_ascii (c ∷ s) = ltb c 128 && is_ascii s

-- `secrets.compare_digest(a, b)`, none for the `TypeError` on texts that are not ASCII.
unfoldable pub compare_digest : Text → Text → Option Bool
unfolding is_ascii text_eq
compare_digest a b = if is_ascii a && is_ascii b then some (text_eq a b) else none

-- The entry of the token, if it has one; none where a comparison raises before one is found.
unfoldable pub find_acl : List TokenAcl → Text → Option (Option TokenAcl)
unfolding compare_digest
find_acl [] token = some none
find_acl (acl ∷ acls) token =
    let rest = find_acl acls token in
    elim (compare_digest acl.token token) [
      | none ↦ none
      | some same ↦ if same then some (some acl) else rest
    ]

unfoldable pub acl_for_token : SharedServerConfig → Text → Option (Option TokenAcl)
unfolding find_acl
acl_for_token config token = find_acl config.token_acls token

-- `result.get("path", "")`.
unfoldable pub path_of : Payload → Text
unfolding get
path_of result = elim (get result (codes "path")) [ some p ↦ p | none ↦ [] ]

module _ {P : Type 0} (resolve : Text → P) (relative_to : P → P → Bool)
    (normalize : Text → Text) where
  unfoldable pub path_within_roots : Text → List Text → Bool
  path_within_roots path [] = true
  path_within_roots path (root ∷ roots) =
      any (λ r. relative_to (resolve path) (resolve r)) (root ∷ roots)

  unfoldable pub normalized_roots : TokenAcl → List Text
  normalized_roots acl = map normalize acl.allowed_roots

  unfoldable pub filter_loop : List Text → List Payload → AclFilterResult
  unfolding path_within_roots path_of
  filter_loop roots [] = record { allowed = []; denied_count = 0 }
  filter_loop roots (result ∷ results) =
      let rest = filter_loop roots results in
      if path_within_roots (path_of result) roots
      then record { allowed = result ∷ rest.allowed; denied_count = rest.denied_count }
      else record { allowed = rest.allowed; denied_count = suc rest.denied_count }

  unfoldable pub filter_with : List Payload → TokenAcl → List Text → AclFilterResult
  unfolding filter_loop normalized_roots
  filter_with results acl [] = record { allowed = results; denied_count = 0 }
  filter_with results acl (root ∷ roots) = filter_loop (normalized_roots acl) results

  unfoldable pub filter_results_by_acl : List Payload → Option TokenAcl → AclFilterResult
  unfolding filter_with
  filter_results_by_acl results none = record { allowed = results; denied_count = 0 }
  filter_results_by_acl results (some acl) = filter_with results acl acl.allowed_roots

-- The messages of `validate_config`, by the index of the token's entry.
pub data ConfigError : Type 0 where
  no_token_acls : ConfigError
  empty_token duplicate_token : (i : ℕ) → ConfigError
  no_allowed_roots : (i : ℕ) (acl : TokenAcl) → ConfigError
  root_not_absolute : (i : ℕ) (root : Text) → ConfigError

unfoldable pub no_text : Text → Bool
no_text [] = true
no_text (c ∷ s) = false

unfoldable pub no_roots : List Text → Bool
no_roots [] = true
no_roots (r ∷ rs) = false

abbrev pub when : Bool → ConfigError → List ConfigError
when b e = if b then e ∷ [] else []

module _ (isabs : Text → Bool) where
  unfoldable pub root_errors : ℕ → List Text → List ConfigError
  root_errors i [] = []
  root_errors i (root ∷ roots) =
      when (not (isabs root)) (root_not_absolute i root) ++ root_errors i roots

  unfoldable pub acl_errors : ℕ → List Text → TokenAcl → List ConfigError
  unfolding root_errors no_text no_roots text_eq
  acl_errors i seen_tokens acl =
      when (no_text acl.token) (empty_token i)
      ++ when (any (λ t. text_eq acl.token t) seen_tokens) (duplicate_token i)
      ++ when (no_roots acl.allowed_roots) (no_allowed_roots i acl)
      ++ root_errors i acl.allowed_roots

  unfoldable pub validate_loop : ℕ → List Text → List TokenAcl → List ConfigError
  unfolding acl_errors
  validate_loop i seen_tokens [] = []
  validate_loop i seen_tokens (acl ∷ acls) =
      acl_errors i seen_tokens acl ++ validate_loop (i + 1) (acl.token ∷ seen_tokens) acls

  unfoldable pub validate_acls : List TokenAcl → List ConfigError
  unfolding validate_loop
  validate_acls [] = no_token_acls ∷ []
  validate_acls (acl ∷ acls) = validate_loop 0 [] (acl ∷ acls)

  unfoldable pub validate_config : SharedServerConfig → List ConfigError
  unfolding validate_acls
  validate_config config = if config.enabled then validate_acls config.token_acls else []
