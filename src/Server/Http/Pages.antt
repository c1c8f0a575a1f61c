-- ===== src/Server/Http/Pages.antt =====
-- server/http_server.py: headers, and the handlers that answer one kind of request each.
-- `payloads q n` is `_build_result_payloads` of what the search engine gives for the query `q` and
-- at most `n` results; `resolve`, `relative_to` and `normalize` are those of the access control.
use quick_find.Prelude.{
  ℕ, ℤ, pos, negsuc, ◌*◌, not, ◌&&◌, List, [], ◌∷◌, ◌++◌, if◌then◌else◌, Option, none, some, ltb,
  leb,
}
use quick_find.Text.{Text, codes, text_eq, contains, strip}
use quick_find.Dict.{Dict, get, text_key}
use quick_find.Server.Acl.{is_ascii}
use quick_find.Server.Session.{is_empty, create_session, clear_session}
use quick_find.Server.Http.{
  Libraries, object, other_value, decode_error, Request, Handler, auth_failure, Server, Body,
  no_body, standard_error, manifest, icon, service_worker, openapi, json_error, login_page,
  docs_page, Response, header, header_or, hash_pii,
}
use quick_find.Server.Http.Auth.{session_cookie_value}
use quick_find.Server.Http.Origin.{origin_or_referer_allowed}

abbrev pub Header : Type 0
Header = Text × Text

abbrev pub content_type : Text → Header
content_type value = (codes "Content-Type", value)

-- `"; ".join(parts)`.
unfoldable pub join_parts : Text → List Text → Text
join_parts part [] = part
join_parts part (next ∷ parts) = part ++ (codes "; " ++ join_parts next parts)

-- `SESSION_TTL_SECONDS`.
abbrev pub session_ttl_seconds : ℕ
session_ttl_seconds = 3600

unfoldable pub coerce_remote_max_results : (Text → Option ℤ) → Text → ℕ
coerce_remote_max_results int value = elim (int value) [
  | none ↦ 1000
  | some parsed ↦ elim parsed [
    | pos n ↦ if leb n 1 then 1 else if leb n 10000 then n else 10000
    | negsuc n ↦ 1
  ]
]

unfoldable pub query_with_remote_filters : Text → Text → Text
unfolding strip text_eq
query_with_remote_filters query type_filter =
    if text_eq type_filter (codes "files")
    then strip (codes "file: " ++ strip query)
    else if text_eq type_filter (codes "folders")
    then strip (codes "folder: " ++ strip query)
    else strip query

-- `params.get(name, [default])[0]`.
unfoldable pub param : Dict Text (Text × List Text) → Text → Text → Text
unfolding get
param params name default = elim (get params name) [ some values ↦ values.0 | none ↦ default ]

unfoldable pub security_headers : Handler → List Header
security_headers h =
    (
      codes "Content-Security-Policy",
      codes
          "default-src 'self'; script-src 'self' 'unsafe-inline'; style-src 'unsafe-inline'; worker-src 'self'; img-src 'self' data:",
    )
    ∷ (codes "X-Content-Type-Options", codes "nosniff")
    ∷ (codes "Cache-Control", codes "no-store")
    ∷ (codes "Referrer-Policy", codes "no-referrer")
    ∷ (if h.use_https
        then (codes "Strict-Transport-Security", codes "max-age=31536000") ∷ []
        else [])

abbrev pub secure : Handler → List Text
secure h = if h.use_https then codes "Secure" ∷ [] else []

unfoldable pub expired_cookie_header : Handler → Text
unfolding join_parts
expired_cookie_header h =
    join_parts (codes "qf_session=")
      (codes "HttpOnly" ∷ codes "Path=/" ∷ codes "SameSite=Strict" ∷ codes "Max-Age=0" ∷ secure h)

module _ (lib : Libraries) where
  -- Given a token, as at its one call.
  unfoldable pub session_cookie_header : Handler → Text → Text
  unfolding join_parts
  session_cookie_header h token = join_parts (codes "qf_session=" ++ token) (
      codes "HttpOnly"
      ∷ codes "Path=/"
      ∷ codes "SameSite=Strict"
      ∷ (codes "Max-Age=" ++ lib.decimal session_ttl_seconds)
      ∷ secure h)

  unfoldable pub send_unauthorized : Handler → Request → Text → Text → Server → Response × Server
  unfolding security_headers hash_pii is_empty
  send_unauthorized h r endpoint method s = (
    record {
      status = 401;
      sent =
          content_type (codes "application/json")
            ∷ (if is_empty h.auth_token
                then []
                else (
                  codes "WWW-Authenticate",
                  codes "Basic realm=\"QuickFind\", charset=\"UTF-8\"",
                )
                  ∷ [])
          ++ security_headers h;
      body = json_error (codes "Unauthorized");
    },
    record s {
      audit =
          s.audit
          ++ (auth_failure (hash_pii lib r.client) (if is_empty endpoint then r.path else endpoint)
                method
              ∷ []);
    },
  )

  unfoldable pub handle_login_page : Handler → Text → ℕ → Response
  unfolding security_headers
  handle_login_page h error status = record {
    status = status;
    sent = content_type (codes "text/html; charset=utf-8") ∷ security_headers h;
    body = login_page (lib.escape error);
  }

  unfoldable pub handle_logout : Handler → Request → Server → Response × Server
  unfolding security_headers expired_cookie_header clear_session session_cookie_value
  handle_logout h r s = (
    record {
      status = 303;
      sent =
          (codes "Location", codes "/")
          ∷ (codes "Set-Cookie", expired_cookie_header h)
          ∷ security_headers h;
      body = no_body;
    },
    record s { sessions = clear_session s.sessions (session_cookie_value lib r) },
  )

  -- The announced length: none where it is below 0 or above 4096.
  unfoldable pub body_length : Request → Option ℕ
  body_length r = elim (lib.int (header_or r (codes "Content-Length") (codes "0"))) [
    | none ↦ some 0
    | some announced ↦ elim announced [
      | pos n ↦ if ltb 4096 n then none else some n
      | negsuc n ↦ none
    ]
  ]

  -- The token posted, none where the code raises.
  unfoldable pub submitted_token : Request → Text → Option Text
  unfolding contains param
  submitted_token r body =
      if contains (codes "application/json") (header r (codes "Content-Type"))
      then elim (lib.loads body) [
        | object token ↦ some token
        | other_value ↦ none
        | decode_error ↦ some []
      ]
      else some (param (lib.parse_qs body) (codes "token") [])

  -- `ticks` of the clock make a second.
  unfoldable pub answer_login : ℕ → Handler → Request → Text → Server → Response × Server
  unfolding security_headers session_cookie_header create_session text_eq handle_login_page hash_pii
  answer_login ticks h r token s =
      if text_eq token h.auth_token
      then (
        record {
          status = 303;
          sent =
              (codes "Location", codes "/")
              ∷ (codes "Set-Cookie", session_cookie_header h r.fresh_token)
              ∷ security_headers h;
          body = no_body;
        },
        record s {
          sessions =
              create_session (session_ttl_seconds * ticks) s.sessions r.fresh_token r.now r.later;
        },
      )
      else (
        handle_login_page h (codes "Invalid token") 401,
        record s {
          audit =
              s.audit ++ (auth_failure (hash_pii lib r.client) (codes "/auth") (codes "POST") ∷ []);
        },
      )

  abbrev pub bare : ℕ → List Header → Body → Response
  bare status sent body = record { status = status; sent = sent; body = body }

  -- No response is sent where the code raises, as `compare_digest` does.
  unfoldable pub login_with :
      ℕ → Handler → Request → Server → Option Text → Option Response × Server
  unfolding answer_login is_ascii
  login_with ticks h r s none = (none, s)
  login_with ticks h r s (some token) =
      let answer = answer_login ticks h r token s in
      if is_ascii token && is_ascii h.auth_token then (some answer.0, answer.1) else (none, s)

  unfoldable pub login_body : ℕ → Handler → Request → Server → Option ℕ → Option Response × Server
  unfolding login_with submitted_token
  login_body ticks h r s none = (some (bare 413 [] no_body), s)
  login_body ticks h r s (some n) = login_with ticks h r s (submitted_token r (r.read n))

  unfoldable pub handle_auth_post : ℕ → Handler → Request → Server → Option Response × Server
  unfolding is_empty origin_or_referer_allowed security_headers body_length login_body
  handle_auth_post ticks h r s =
      if is_empty h.auth_token
      then (some (bare 404 [] standard_error), s)
      else if not (origin_or_referer_allowed lib h r)
      then (
        some (
            bare 403 (content_type (codes "application/json") ∷ security_headers h)
              (json_error (codes "Cross-origin auth rejected"))),
        s,
      )
      else login_body ticks h r s (body_length r)

  abbrev pub served : Handler → Text → List Header → Body → Response
  served h type extra body = bare 200 (content_type type ∷ extra ++ security_headers h) body

  unfoldable pub handle_openapi_spec : Handler → Response
  unfolding security_headers
  handle_openapi_spec h = served h (codes "application/json") [] openapi

  unfoldable pub handle_pwa_manifest : Handler → Response
  unfolding security_headers
  handle_pwa_manifest h = served h (codes "application/manifest+json") [] manifest

  unfoldable pub handle_service_worker : Handler → Response
  unfolding security_headers
  handle_service_worker h =
      served h (codes "application/javascript") ((codes "Service-Worker-Allowed", codes "/") ∷ [])
        service_worker

  unfoldable pub handle_pwa_icon : Handler → Response
  unfolding security_headers
  handle_pwa_icon h =
      bare 200
        (content_type (codes "image/svg+xml")
          ∷ (codes "Cache-Control", codes "public, max-age=86400")
          ∷ [])
        icon

  unfoldable pub handle_api_docs : Handler → Request → Response
  unfolding security_headers
  handle_api_docs h r =
      let host = header_or r (codes "Host") (codes "127.0.0.1:8080") in
      let scheme = if h.ssl_socket then codes "https" else codes "http" in
      served h (codes "text/html; charset=utf-8") []
        (docs_page (scheme ++ (codes "://" ++ lib.escape host)))
