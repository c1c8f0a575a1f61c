-- ===== src/Server/Http.antt =====
-- server/http_server.py: requests, what the handler class is bound to, the state that requests
-- share, and responses.
pub mod Auth
pub mod Origin
pub mod Pages
pub mod Routes
pub mod Guarded
pub mod Confined
pub mod Login
pub mod Credentials
use quick_find.Prelude.{ℕ, ℤ, Bool, List, Option, ◌++◌, take, [], none, some}
use quick_find.Text.{Text, Unicode}
use quick_find.Dict.{Dict}
use quick_find.Server.Acl.{SharedServerConfig, Payload}
use quick_find.Server.RateLimit.{RateLimiter}
use quick_find.Server.Session.{Sessions}

-- What `json.loads` makes of a posted body: an object, with `str(payload.get('token', ''))`, any
-- other value, or a `JSONDecodeError`.
pub data Loaded : Type 0 where
  object : (token : Text) → Loaded
  other_value : Loaded
  decode_error : Loaded

-- The libraries' functions that the handlers call. `b64decode` is that of an ASCII text
-- with `validate=True` and the decoding of UTF-8, none where either raises; `cookie_value` is that of the session's cookie
-- in a header, the empty text where there is none or `SimpleCookie` raises; `parse_qs` gives each
-- key one value or more; `int` is none where `int(s)` raises; `decimal` is `str(n)`; `digest` is
-- the salted SHA-256 in hexadecimal.
pub record Libraries : Type 0 where
  pub unicode : Unicode
  pub url_path : Text → Text
  pub url_query : Text → Text
  pub url_scheme : Text → Text
  pub url_netloc : Text → Text
  pub parse_qs : Text → Dict Text (Text × List Text)
  pub b64decode : Text → Option Text
  pub cookie_value : Text → Text
  pub loads : Text → Loaded
  pub int : Text → Option ℤ
  pub decimal : ℕ → Text
  pub escape : Text → Text
  pub digest : Text → Text

-- A request: `headers.get`, the body of a given length as text, the readings of the two clocks
-- while it is handled (`time.time()` is read again when a session is made), and the token that
-- `secrets.token_urlsafe` would give.
pub record Request : Type 0 where
  pub client : Text
  pub path : Text
  pub headers : Text → Option Text
  pub read : ℕ → Text
  pub monotonic : ℕ
  pub now : ℕ
  pub later : ℕ
  pub fresh_token : Text

-- The class attributes of `BoundSearchHandler`, the address of the server, and whether its socket
-- is one of TLS.
pub record Handler : Type 0 where
  pub auth_token : Text
  pub session_token : Text
  pub use_https : Bool
  pub shared_config : Option SharedServerConfig
  pub server_host : Text
  pub server_port : ℕ
  pub ssl_socket : Bool

pub data AuditEvent : Type 0 where
  auth_failure : (client endpoint method : Text) → AuditEvent
  rate_limit : (client endpoint : Text) → AuditEvent
  searched : (client query_hash : Text) (result_count : ℕ) → AuditEvent
  denied_path : (client endpoint reason : Text) → AuditEvent

pub record Server : Type 0 where
  pub limiter : RateLimiter
  pub sessions : Sessions
  pub audit : List AuditEvent

-- What a response's body is made from: a template with its values, or a fixed document.
pub data Body : Type 0 where
  no_body standard_error manifest icon service_worker openapi : Body
  json_error : (error : Text) → Body
  login_page : (error : Text) → Body
  docs_page : (base_url : Text) → Body
  search_results : (items : List Payload) → Body
  search_page : (query type_filter : Text) (max_results : ℕ) (items : List Payload) → Body

pub record Response : Type 0 where
  pub status : ℕ
  pub sent : List (Text × Text)
  pub body : Body

-- `self.headers.get(name, default)`.
abbrev pub header_or : Request → Text → Text → Text
header_or r name default = elim (r.headers name) [ some value ↦ value | none ↦ default ]

abbrev pub header : Request → Text → Text
header r name = header_or r name []

module _ (lib : Libraries) where
  unfoldable pub hash_pii : Text → Text
  hash_pii value = take 12 (lib.digest value)
