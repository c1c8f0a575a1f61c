-- ===== src/Tests/Http.antt =====
-- Runs of server/http_server.py: a server with a token of its own and an entry for a reader of
-- `/srv`, whose search finds one file there and one elsewhere.
use quick_find.Prelude.{
  ℕ, ◌≤◌, ◌≡◌, refl, Bool, true, false, not, ◌&&◌, ◌||◌, Option, none, some, List, [], ◌∷◌, all,
  keep, length, if◌then◌else◌, ltb, arith, pos,
}
use quick_find.Text.{Text, codes, starts_with, ascii, text_eq}
use quick_find.Dict.{has}
use quick_find.Server.Acl.{TokenAcl, SharedServerConfig, Payload, is_ascii, validate_config}
use quick_find.Server.Acl.Confines.{within}
use quick_find.Server.RateLimit.{new_limiter, allow, fresh}
use quick_find.Server.RateLimit.Window.{run, granted, in_window, allow-Refines, granted-bound}
use quick_find.Server.Session.{is_empty, session_valid}
use quick_find.Server.Session.Alive.{Event, created, checked, cleared, session_valid-Refines}
use quick_find.Server.Session.Alive
use quick_find.Server.Http.{Libraries, decode_error, Request, Handler, Server}
use quick_find.Server.Http.Auth.{shared_enabled, session_cookie_value, presented_token, check_auth}
use quick_find.Server.Http.Routes.{do_get, do_post}
use quick_find.Server.Http.Guarded.{has_passed, do_get-Authorized}
use quick_find.Server.Http.Confined.{do_get-Confined}
use quick_find.Server.Http.Credentials.{accepted_token, verdict, check_auth_iff}
use quick_find.Server.Http.Login.{Earned, do_post-Earned}

abbrev requests : List (Text × ℕ)
requests = (codes "b", 9) ∷ (codes "a", 7) ∷ (codes "a", 2) ∷ []

allow-Refines_example :
    (allow 1 (run 1 requests) (codes "a") 10).0
    ≡ ltb (length (keep (fresh 1 10) (granted 1 requests (codes "a")))) 60
allow-Refines_example =
    allow-Refines 1 requests (codes "a") 10 (omega arith, (omega arith, (omega arith, tt)))
      (omega arith)

granted-bound_example : length (keep (in_window 1 8) (granted 1 requests (codes "a"))) ≤ 60
granted-bound_example =
    granted-bound 1 requests (codes "a") 8 (omega arith, (omega arith, (omega arith, tt)))

-- A session is made, another checked, and the first cleared.
abbrev events : List Event
events = cleared (codes "s") 9 ∷ checked (codes "t") 8 ∷ created (codes "s") 4 5 ∷ []

session_valid-Refines_example :
    (session_valid [] (Alive.run [] 3600 events) (codes "s") 10).0
    ≡ (not (is_empty (codes "s")) && ((not (is_empty []) && text_eq (codes "s") []) || false))
unfolding is_empty text_eq
session_valid-Refines_example =
    session_valid-Refines [] 3600 events (codes "s") 10
      (omega arith, omega arith, (omega arith, omega arith, (omega arith, omega arith, tt)))
      (omega arith)

abbrev library : Libraries
library = record {
  unicode = ascii;
  url_path = λ path. path;
  url_query = λ path. [];
  url_scheme = λ url. codes "http";
  url_netloc = λ url. codes "pc";
  parse_qs = λ body. (codes "token", (body, [])) ∷ [];
  b64decode = λ encoded. none;
  cookie_value = λ raw. [];
  loads = λ body. decode_error;
  int = λ value. some (pos 6);
  decimal = λ n. [];
  escape = λ text. text;
  digest = λ value. [];
}

abbrev reader : TokenAcl
reader = record {
  token = codes "secret";
  label = codes "reader";
  allowed_roots = codes "/srv" ∷ [];
  read_only = true;
}

abbrev config : SharedServerConfig
config = record { enabled = true; token_acls = reader ∷ [] }

abbrev handler : Handler
handler = record {
  auth_token = codes "master";
  session_token = [];
  use_https = false;
  shared_config = some config;
  server_host = codes "pc";
  server_port = 80;
  ssl_socket = false;
}

abbrev search_headers : Text → Option Text
search_headers name =
    if text_eq name (codes "Authorization") then some (codes "Bearer secret") else none

abbrev search_request : Request
search_request = record {
  client = codes "a";
  path = codes "/api/search";
  headers = search_headers;
  read = λ n. [];
  monotonic = 1;
  now = 1;
  later = 1;
  fresh_token = codes "s";
}

abbrev login_headers : Text → Option Text
login_headers name =
    if text_eq name (codes "Host")
    then some (codes "pc")
    else if text_eq name (codes "Origin")
    then some (codes "http://pc")
    else none

abbrev login_request : Request
login_request = record {
  client = codes "a";
  path = codes "/auth";
  headers = login_headers;
  read = λ n. codes "master";
  monotonic = 1;
  now = 1;
  later = 1;
  fresh_token = codes "s";
}

abbrev server : Server
server = record { limiter = new_limiter; sessions = []; audit = [] }

abbrev isabs : Text → Bool
isabs path = starts_with (codes "/") path

abbrev resolve : Text → Text
resolve path = path

abbrev relative_to : Text → Text → Bool
relative_to path root = starts_with root path

abbrev inside : Payload
inside = (codes "path", codes "/srv/a") ∷ []

abbrev payloads : Text → ℕ → List Payload
payloads query n = inside ∷ ((codes "path", codes "/etc/b") ∷ []) ∷ []

do_get-Authorized_example :
    ((allow 1 new_limiter (codes "a") 1).0 ≡ true)
    × (has_passed (check_auth library handler search_request []) ≡ true)
unfolding do_get
do_get-Authorized_example =
    do_get-Authorized library resolve relative_to resolve payloads 1 handler search_request server
      (inside ∷ []) refl

do_get-Confined_example : all (within isabs resolve relative_to resolve reader) (inside ∷ []) ≡ true
unfolding do_get presented_token validate_config
do_get-Confined_example =
    do_get-Confined library isabs resolve relative_to resolve payloads 1 handler search_request
      config reader refl refl refl (codes "secret") refl refl refl server (inside ∷ []) refl

check_auth_iff_example :
    verdict (check_auth library handler search_request [])
    ≡ some (
        (is_empty (codes "master") && not (shared_enabled handler))
        || (accepted_token handler (codes "secret")
            || (session_valid [] [] (session_cookie_value library search_request) 1).0))
unfolding is_ascii presented_token session_cookie_value text_eq
check_auth_iff_example =
    check_auth_iff library handler refl (refl, tt) refl search_request [] (codes "secret") refl refl
      refl refl

do_post-Earned_example : Earned library 1 handler login_request (codes "s")
unfolding do_post has
do_post-Earned_example =
    do_post-Earned library 1 handler login_request (codes "s") resolve relative_to resolve payloads
      server refl refl
