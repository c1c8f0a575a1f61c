-- ===== src/Server/Http/Credentials.antt =====
-- server/http_server.py: what the check of a request's credentials accepts.
use quick_find.Prelude.{
  some_eq, ℕ, ◌≡◌, refl, ap, ◌∙◌, Bool, true, false, not, ◌&&◌, ◌||◌, List, [], ◌∷◌, Option, none,
  some, if◌then◌else◌, any, drop, All, arith,
}
use quick_find.Text.{Text, codes, text_eq, starts_with}
use quick_find.Server.Acl.{
  TokenAcl, SharedServerConfig, is_ascii, compare_digest, find_acl, acl_for_token,
}
use quick_find.Server.Acl.Confines.{HasAscii, compare_digest-ascii, find_acl-cons}
use quick_find.Server.Session.{Sessions, is_empty, session_check, session_valid}
use quick_find.Server.Http.{Libraries, Request, Handler, header}
use quick_find.Server.Http.Auth.{
  shared_enabled, token_acl, found, or_else, own_token, listed_token, session_cookie_value,
  presented_token, basic_auth_password, bearer_accepted, password_accepted, basic_accepted,
  check_session, check_auth,
}

not_both :
    (s : Text) → starts_with (codes "Bearer ") s ≡ true → starts_with (codes "Basic ") s ≡ false
unfolding starts_with
not_both [] h = refl
not_both (c ∷ []) h = ground arith
not_both (c ∷ d ∷ s) h = ground arith

session_check-ascii :
    (session_token : Text) (sessions : Sessions) (token : Text) (now : ℕ)
    → is_ascii token ≡ true
    → is_ascii session_token ≡ true
    → session_check session_token sessions token now
      ≡ some (session_valid session_token sessions token now)
unfolding session_check
session_check-ascii session_token sessions token now h k = ground (arith, h, k)

-- The entries of the server, if it has a configuration.
abbrev pub entries : Option SharedServerConfig → List TokenAcl
entries none = []
entries (some config) = config.token_acls

abbrev pub has_entry : List TokenAcl → Text → Bool
has_entry acls token = any (λ acl. text_eq acl.token token) acls

-- The token is that of the server, or in shared mode one that has an entry.
abbrev pub accepted_token : Handler → Text → Bool
accepted_token h token =
    not (is_empty token)
    && ((not (is_empty h.auth_token) && text_eq token h.auth_token)
        || (shared_enabled h && has_entry (entries h.shared_config) token))

-- What a check that does not raise says.
abbrev pub verdict : Option (Bool × Sessions) → Option Bool
verdict none = none
verdict (some checked) = some checked.0

abbrev listed : Option (Option TokenAcl) → Option Bool
listed none = none
listed (some acl) = some (found acl)

find_acl-entry :
    (acls : List TokenAcl) (token : Text)
    → All HasAscii acls
    → is_ascii token ≡ true
    → listed (find_acl acls token) ≡ some (has_entry acls token)
unfolding find_acl
find_acl-entry [] token h k = refl
find_acl-entry (a ∷ acls) token (h, hs) k =
    ap listed (find_acl-cons a acls token h k)
    ∙ by_test (text_eq a.token token) (find_acl-entry acls token hs k)
  where
    by_test :
        (b : Bool)
        → listed (find_acl acls token) ≡ some (has_entry acls token)
        → listed (if b then some (some a) else find_acl acls token)
          ≡ some (b || has_entry acls token)
    by_test true e = refl
    by_test false e = e

token_acl-entry :
    (h : Handler) (token : Text)
    → All HasAscii (entries h.shared_config)
    → is_ascii token ≡ true
    → listed (token_acl h token) ≡ some (has_entry (entries h.shared_config) token)
unfolding token_acl acl_for_token
token_acl-entry h token ascii k = by_config h.shared_config ascii
  where
    by_config :
        (o : Option SharedServerConfig)
        → All HasAscii (entries o)
        → listed (elim o [ some config ↦ acl_for_token config token | none ↦ some none ])
          ≡ some (has_entry (entries o) token)
    by_config none ascii = refl
    by_config (some config) ascii = find_acl-entry config.token_acls token ascii k

-- The two tests of a token.
abbrev tested : Handler → Text → Option Bool
tested h token = or_else (own_token h token) (listed_token h token)

tested-accepted :
    (h : Handler) (token : Text)
    → is_ascii h.auth_token ≡ true
    → All HasAscii (entries h.shared_config)
    → is_ascii token ≡ true
    → tested h token
      ≡ some (
          (not (is_empty h.auth_token) && text_eq token h.auth_token)
          || (shared_enabled h && has_entry (entries h.shared_config) token))
unfolding or_else own_token listed_token
tested-accepted h token own ascii k =
    ap (λ o. or_else o (listed_token h token)) (own-some (is_empty h.auth_token))
    ∙ ap (or_else (some (not (is_empty h.auth_token) && text_eq token h.auth_token)))
        (listed-some (shared_enabled h) (token_acl h token) (token_acl-entry h token ascii k))
    ∙ decide (not (is_empty h.auth_token) && text_eq token h.auth_token)
        (shared_enabled h && has_entry (entries h.shared_config) token)
  where
    own-some :
        (b : Bool)
        → (if b then some false else compare_digest token h.auth_token)
          ≡ some (not b && text_eq token h.auth_token)
    own-some true = refl
    own-some false = compare_digest-ascii token h.auth_token k own

    listed-some :
        (b : Bool) (o : Option (Option TokenAcl))
        → listed o ≡ some (has_entry (entries h.shared_config) token)
        → (if b
            then elim o as (λ _. Option Bool) [ some acl ↦ some (found acl) | none ↦ none ]
            else some false)
          ≡ some (b && has_entry (entries h.shared_config) token)
    listed-some false o e = refl
    listed-some true none e = e
    listed-some true (some acl) e = e

    decide : (a b : Bool) → or_else (some a) (some b) ≡ some (a || b)
    decide true b = refl
    decide false b = refl

module _ (lib : Libraries) (h : Handler) (own : is_ascii h.auth_token ≡ true)
    (ascii : All HasAscii (entries h.shared_config))
    (closed : has_entry (entries h.shared_config) [] ≡ false) where
  accepted_either :
      (token : Text)
      → ((not (is_empty h.auth_token) && text_eq token h.auth_token)
          || (shared_enabled h && has_entry (entries h.shared_config) token))
        ≡ accepted_token h token
  unfolding is_empty text_eq
  accepted_either [] = ground (arith, closed)
  accepted_either (c ∷ s) = refl

  or_false : (o : Option Bool) → or_else o (some false) ≡ o
  unfolding or_else
  or_false none = refl
  or_false (some true) = refl
  or_false (some false) = refl

  tested-token :
      (token : Text) → is_ascii token ≡ true → tested h token ≡ some (accepted_token h token)
  tested-token token k = tested-accepted h token own ascii k ∙ ap some (accepted_either token)

  password-accepted :
      (token : Text)
      → is_ascii token ≡ true
      → password_accepted lib h (some token) ≡ some (accepted_token h token)
  unfolding password_accepted is_empty
  password-accepted [] k = refl
  password-accepted (c ∷ s) k = tested-token (c ∷ s) k

  presented-accepted :
      (a token : Text) (b c : Bool)
      → is_ascii token ≡ true
      → (b ≡ true → c ≡ false)
      → (if b then some (drop 7 a) else if c then basic_auth_password lib (drop 6 a) else some [])
        ≡ some token
      → or_else
          (if b then tested h (drop 7 a) else some false)
          (if c then password_accepted lib h (basic_auth_password lib (drop 6 a)) else some false)
        ≡ some (accepted_token h token)
  unfolding or_else is_empty
  presented-accepted a token true true k only e = ground (arith, only)
  presented-accepted a token true false k only e =
      or_false (tested h (drop 7 a)) ∙ ap (tested h) (some_eq e) ∙ tested-token token k
  presented-accepted a token false true k only e =
      ap (password_accepted lib h) e ∙ password-accepted token k
  presented-accepted a token false false k only e = ap (λ t. some (accepted_token h t)) (some_eq e)

  -- Where the texts that are compared are ASCII and no entry has the empty token, the check does not
  -- raise, and a request passes exactly when no token is asked for, the token that it presents is
  -- that of the server or has an entry in shared mode, or its cookie names a valid session.
  pub check_auth_iff :
      (r : Request) (sessions : Sessions) (token : Text)
      → presented_token lib r ≡ some token
      → is_ascii token ≡ true
      → is_ascii (session_cookie_value lib r) ≡ true
      → is_ascii h.session_token ≡ true
      → verdict (check_auth lib h r sessions)
        ≡ some (
            (is_empty h.auth_token && not (shared_enabled h))
            || (accepted_token h token
                || (session_valid h.session_token sessions (session_cookie_value lib r) r.now).0))
  unfolding check_auth bearer_accepted basic_accepted presented_token check_session
  check_auth_iff r sessions token presented k cookie session =
      by_test (is_empty h.auth_token && not (shared_enabled h)) _ _ (
        presented-accepted (header r (codes "Authorization")) token
          (starts_with (codes "Bearer ") (header r (codes "Authorization")))
          (starts_with (codes "Basic ") (header r (codes "Authorization"))) k
          (not_both (header r (codes "Authorization"))) presented)
    where
      valid : Bool
      valid = (session_valid h.session_token sessions (session_cookie_value lib r) r.now).0

      by_session :
          (b : Bool) → verdict (check_session lib h r sessions (some b)) ≡ some (b || valid)
      by_session true = refl
      by_session false = ap verdict (
          session_check-ascii h.session_token sessions (session_cookie_value lib r) r.now cookie
            session)

      by_test :
          (free : Bool) (o : Option Bool) (b : Bool)
          → o ≡ some b
          → verdict (if free then some (true, sessions) else check_session lib h r sessions o)
            ≡ some (free || (b || valid))
      by_test true o b e = refl
      by_test false o b e = ap (λ o. verdict (check_session lib h r sessions o)) e ∙ by_session b
