-- ===== src/Tests/Server.antt =====
-- Runs of server/acl.py: one token that may read below `/srv`, and a path that is its own text.
use quick_find.Prelude.{◌≡◌, refl, not, Bool, true, some, List, [], ◌∷◌, length, keep, All}
use quick_find.Text.{Text, codes, starts_with}
use quick_find.Server.Acl.{
  TokenAcl, SharedServerConfig, Payload, acl_for_token, is_ascii, filter_results_by_acl,
  validate_config,
}
use quick_find.Server.Acl.Confines.{within, acl_for_token_self, filter_results_by_acl-confines}

abbrev reader : TokenAcl
reader = record {
  token = codes "secret";
  label = codes "reader";
  allowed_roots = codes "/srv" ∷ [];
  read_only = true;
}

abbrev config : SharedServerConfig
config = record { enabled = true; token_acls = reader ∷ [] }

abbrev isabs : Text → Bool
isabs path = starts_with (codes "/") path

abbrev resolve : Text → Text
resolve path = path

abbrev relative_to : Text → Text → Bool
relative_to path root = starts_with root path

abbrev results : List Payload
results = ((codes "path", codes "/srv/a") ∷ []) ∷ ((codes "path", codes "/etc/b") ∷ []) ∷ ([] ∷ [])

valid : validate_config isabs config ≡ []
unfolding validate_config starts_with
valid = refl

found : acl_for_token config (codes "secret") ≡ some (some reader)
unfolding acl_for_token
found = refl

acl_for_token_self_example :
    All (λ acl. acl_for_token config acl.token ≡ some (some acl)) config.token_acls
unfolding is_ascii
acl_for_token_self_example = acl_for_token_self isabs config refl valid (refl, tt)

filter_results_by_acl-confines_example :
    filter_results_by_acl resolve relative_to resolve results (some reader) ≡ record {
      allowed = keep (within isabs resolve relative_to resolve reader) results;
      denied_count =
          length (keep (λ r. not (within isabs resolve relative_to resolve reader r)) results);
    }
filter_results_by_acl-confines_example =
    filter_results_by_acl-confines isabs resolve relative_to resolve config (codes "secret") reader
      results refl valid found
