-- ===== src/Server/Http/Auth.antt =====
-- server/http_server.py: who a request comes from.
use quick_find.Prelude.{
  Bool, true, false, not, ◌&&◌, [], ◌∷◌, if◌then◌else◌, Option, none, some, drop, ◌==◌,
}
use quick_find.Text.{Text, codes, starts_with}
use quick_find.Server.Acl.{TokenAcl, acl_for_token, is_ascii, compare_digest}
use quick_find.Server.Session.{Sessions, is_empty, session_check}
use quick_find.Server.Http.{Libraries, Request, Handler, header}

-- `_username, sep, password = decoded.partition(':')`, then `password if sep else ''`.
unfoldable pub after_colon : Text → Text
after_colon [] = []
after_colon (c ∷ s) = let rest = after_colon s in if c == b':' then s else rest

-- `config is not None and config.enabled`.
unfoldable pub shared_enabled : Handler → Bool
shared_enabled h = elim h.shared_config [ some config ↦ config.enabled | none ↦ false ]

-- `config.acl_for_token(token)`, where there is a configuration; none where it raises.
unfoldable pub token_acl : Handler → Text → Option (Option TokenAcl)
unfolding acl_for_token
token_acl h token = elim h.shared_config [
  | some config ↦ acl_for_token config token
  | none ↦ some none
]

abbrev pub found : Option TokenAcl → Bool
found none = false
found (some acl) = true

-- `if one: return True`, and else the other test; none where a test that is made raises.
unfoldable pub or_else : Option Bool → Option Bool → Option Bool
or_else none other = none
or_else (some true) other = some true
or_else (some false) other = other

-- The token is the server's own.
unfoldable pub own_token : Handler → Text → Option Bool
unfolding is_empty compare_digest
own_token h token = if is_empty h.auth_token then some false else compare_digest token h.auth_token

-- In shared mode, the token has an entry.
unfoldable pub listed_token : Handler → Text → Option Bool
unfolding shared_enabled token_acl
listed_token h token =
    if shared_enabled h
    then elim (token_acl h token) [ some acl ↦ some (found acl) | none ↦ none ]
    else some false

module _ (lib : Libraries) where
  -- None for the `ValueError` of `b64decode` on a text that is not ASCII, which is not caught.
  unfoldable pub basic_auth_password : Text → Option Text
  unfolding after_colon is_ascii
  basic_auth_password encoded =
      if is_ascii encoded
      then elim (lib.b64decode encoded) [
        | some decoded ↦ some (after_colon decoded)
        | none ↦ some []
      ]
      else none

  unfoldable pub session_cookie_value : Request → Text
  unfolding is_empty
  session_cookie_value r =
      let raw_cookie = header r (codes "Cookie") in
      if is_empty raw_cookie then [] else lib.cookie_value raw_cookie

  unfoldable pub presented_token : Request → Option Text
  unfolding starts_with basic_auth_password
  presented_token r =
      let auth_header = header r (codes "Authorization") in
      if starts_with (codes "Bearer ") auth_header
      then some (drop 7 auth_header)
      else if starts_with (codes "Basic ") auth_header
      then basic_auth_password (drop 6 auth_header)
      else some []

  -- `config.acl_for_token(token) if token else None`.
  unfoldable pub acl_of_presented : Handler → Option Text → Option (Option TokenAcl)
  unfolding token_acl is_empty
  acl_of_presented h none = none
  acl_of_presented h (some token) = if is_empty token then some none else token_acl h token

  unfoldable pub resolve_token_acl : Handler → Request → Option (Option TokenAcl)
  unfolding shared_enabled presented_token acl_of_presented
  resolve_token_acl h r =
      if not (shared_enabled h) then some none else acl_of_presented h (presented_token r)

  -- Whether a `Bearer` header is accepted.
  unfoldable pub bearer_accepted : Handler → Text → Option Bool
  unfolding starts_with or_else own_token listed_token
  bearer_accepted h auth_header =
      let token = drop 7 auth_header in
      if starts_with (codes "Bearer ") auth_header
      then or_else (own_token h token) (listed_token h token)
      else some false

  unfoldable pub password_accepted : Handler → Option Text → Option Bool
  unfolding is_empty or_else own_token listed_token
  password_accepted h none = none
  password_accepted h (some password) =
      if is_empty password
      then some false
      else or_else (own_token h password) (listed_token h password)

  unfoldable pub basic_accepted : Handler → Text → Option Bool
  unfolding starts_with password_accepted basic_auth_password
  basic_accepted h auth_header =
      if starts_with (codes "Basic ") auth_header
      then password_accepted h (basic_auth_password (drop 6 auth_header))
      else some false

  -- With what the two headers say.
  unfoldable pub check_session :
      Handler → Request → Sessions → Option Bool → Option (Bool × Sessions)
  unfolding session_check session_cookie_value
  check_session h r sessions none = none
  check_session h r sessions (some true) = some (true, sessions)
  check_session h r sessions (some false) =
      session_check h.session_token sessions (session_cookie_value r) r.now

  -- None where the code raises.
  unfoldable pub check_auth : Handler → Request → Sessions → Option (Bool × Sessions)
  unfolding is_empty shared_enabled bearer_accepted basic_accepted check_session or_else
  check_auth h r sessions =
      let auth_header = header r (codes "Authorization") in
      if is_empty h.auth_token && not (shared_enabled h)
      then some (true, sessions)
      else check_session h r sessions
          (or_else (bearer_accepted h auth_header) (basic_accepted h auth_header))
