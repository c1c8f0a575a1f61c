-- ===== src/Server/Http/Routes.antt =====
-- server/http_server.py: the searches and the dispatch of requests.
use quick_find.Prelude.{
  ℕ, Bool, true, false, not, ◌||◌, List, [], ◌∷◌, ◌++◌, if◌then◌else◌, Option, none, some, length,
  truthy,
}
use quick_find.Text.{Text, codes, text_eq}
use quick_find.Dict.{Dict}
use quick_find.Server.Acl.{Payload, TokenAcl, filter_results_by_acl}
use quick_find.Server.RateLimit.{allow}
use quick_find.Server.Session.{Sessions, is_empty}
use quick_find.Server.Http.{
  Libraries, Request, Handler, rate_limit, searched, denied_path, Server, standard_error,
  json_error, search_results, search_page, Response, hash_pii,
}
use quick_find.Server.Http.Auth.{resolve_token_acl, check_auth}
use quick_find.Server.Http.Pages.{
  content_type, bare, coerce_remote_max_results, query_with_remote_filters, param, security_headers,
  send_unauthorized, handle_login_page, handle_logout, handle_auth_post, handle_openapi_spec,
  handle_pwa_manifest, handle_service_worker, handle_pwa_icon, handle_api_docs,
}

abbrev Params : Type 0
Params = Dict Text (Text × List Text)

module _ (lib : Libraries) {P : Type 0} (resolve : Text → P) (relative_to : P → P → Bool)
    (normalize : Text → Text) (payloads : Text → ℕ → List Payload) (ticks : ℕ) where
  unfoldable pub apply_found :
      Request → List Payload → Server → Option TokenAcl → List Payload × Server
  unfolding filter_results_by_acl hash_pii
  apply_found r items s none = (items, s)
  apply_found r items s (some acl) =
      let outcome = filter_results_by_acl resolve relative_to normalize items (some acl) in
      (
        outcome.allowed,
        if truthy outcome.denied_count
            then record s {
              audit =
                  s.audit
                  ++ (denied_path (hash_pii lib r.client) r.path
                        (lib.decimal outcome.denied_count ++ codes " results outside token roots")
                      ∷ []);
            }
            else s,
      )

  unfoldable pub apply_resolved :
      Request → List Payload → Server → Option (Option TokenAcl) → Option (List Payload) × Server
  unfolding apply_found
  apply_resolved r items s none = (none, s)
  apply_resolved r items s (some acl) =
      let shown = apply_found r items s acl in (some shown.0, shown.1)

  -- No results where the lookup of the token raises.
  unfoldable pub apply_acl :
      Handler → Request → List Payload → Server → Option (List Payload) × Server
  unfolding resolve_token_acl apply_resolved
  apply_acl h r items s = apply_resolved r items s (resolve_token_acl lib h r)

  -- The response with some results, none where there are none to show.
  unfoldable pub respond : (List Payload → Response) → Option (List Payload) → Option Response
  respond page none = none
  respond page (some items) = some (page items)

  abbrev pub sent : Response × Server → Option Response × Server
  sent answered = (some answered.0, answered.1)

  abbrev type_filter_of : Dict Text (Text × List Text) → Text
  type_filter_of params = param params (codes "type") (codes "all")

  abbrev max_results_of : Dict Text (Text × List Text) → ℕ
  max_results_of params =
      coerce_remote_max_results lib.int (param params (codes "max") (codes "1000"))

  abbrev search_query_of : Dict Text (Text × List Text) → Text
  search_query_of params =
      query_with_remote_filters (param params (codes "q") []) (type_filter_of params)

  unfoldable pub handle_api_search :
      Handler → Request → Dict Text (Text × List Text) → Server → Option Response × Server
  unfolding param coerce_remote_max_results query_with_remote_filters hash_pii is_empty
      security_headers apply_acl respond
  handle_api_search h r params s =
      let query = search_query_of params in
      let results = payloads query (max_results_of params) in
      let shown = apply_acl h r results (record s {
        audit =
            s.audit
            ++ (searched (hash_pii lib r.client) (if is_empty query then [] else hash_pii lib query)
                  (length results)
                ∷ []);
      }) in
      (
        respond
            (λ items.
              bare lib 200 (content_type (codes "application/json") ∷ security_headers h)
                (search_results items))
            shown.0,
        shown.1,
      )

  unfoldable pub handle_page :
      Handler → Request → Dict Text (Text × List Text) → Server → Option Response × Server
  unfolding param coerce_remote_max_results query_with_remote_filters is_empty security_headers
      apply_acl respond
  handle_page h r params s =
      let query = search_query_of params in
      let results = if is_empty query then [] else payloads query (max_results_of params) in
      let shown = apply_acl h r results s in
      (
        respond
            (λ items.
              bare lib 200 (content_type (codes "text/html; charset=utf-8") ∷ security_headers h) (
                search_page (lib.escape (param params (codes "q") [])) (type_filter_of params)
                  (max_results_of params) items))
            shown.0,
        shown.1,
      )

  unfoldable pub too_many : Request → Server → Response × Server
  unfolding hash_pii
  too_many r s = (
    bare lib 429 (content_type (codes "application/json") ∷ (codes "Retry-After", codes "60") ∷ [])
        (json_error (codes "Too many requests")),
    record s { audit = s.audit ++ (rate_limit (hash_pii lib r.client) r.path ∷ []) },
  )

  -- `parsed.path == '/' or parsed.path == ''`.
  unfoldable pub is_root : Text → Bool
  unfolding text_eq is_empty
  is_root path = text_eq path (codes "/") || is_empty path

  -- The documents that are served before the client is known.
  unfoldable pub public_document : Handler → Text → Option Response
  unfolding text_eq handle_pwa_manifest handle_pwa_icon handle_service_worker
  public_document h path =
      if text_eq path (codes "/manifest.json")
      then some (handle_pwa_manifest lib h)
      else if text_eq path (codes "/icon.svg")
      then some (handle_pwa_icon lib h)
      else if text_eq path (codes "/sw.js")
      then some (handle_service_worker lib h)
      else none

  unfoldable pub refuse : Handler → Request → Text → Server → Response × Server
  unfolding is_root handle_login_page send_unauthorized
  refuse h r path s =
      if is_root path
      then (handle_login_page lib h [] 200, s)
      else send_unauthorized lib h r path (codes "GET") s

  unfoldable pub dispatch :
      Handler → Request → Text → Dict Text (Text × List Text) → Server → Option Response × Server
  unfolding text_eq handle_api_search handle_openapi_spec handle_api_docs is_root handle_page
  dispatch h r path params s =
      if text_eq path (codes "/api/search")
      then handle_api_search h r params s
      else if text_eq path (codes "/openapi.json")
      then (some (handle_openapi_spec lib h), s)
      else if text_eq path (codes "/api/docs") || text_eq path (codes "/docs")
      then (some (handle_api_docs lib h r), s)
      else if is_root path
      then handle_page h r params s
      else (some (bare lib 404 [] standard_error), s)

  unfoldable pub answer : Handler → Request → Text → Server → Bool → Option Response × Server
  unfolding dispatch refuse
  answer h r path s true = dispatch h r path (lib.parse_qs (lib.url_query r.path)) s
  answer h r path s false = sent (refuse h r path s)

  -- With what `_check_auth` gives, none where it raises.
  unfoldable pub checked_answer :
      Handler → Request → Text → Server → Option (Bool × Sessions) → Option Response × Server
  unfolding answer
  checked_answer h r path s none = (none, s)
  checked_answer h r path s (some (ok, sessions)) =
      answer h r path (record s { sessions = sessions }) ok

  unfoldable pub checked_dispatch : Handler → Request → Text → Server → Option Response × Server
  unfolding check_auth checked_answer
  checked_dispatch h r path s = checked_answer h r path s (check_auth lib h r s.sessions)

  unfoldable pub unless_public :
      Handler → Request → Server → Option Response → Option Response × Server
  unfolding checked_dispatch
  unless_public h r s none = checked_dispatch h r (lib.url_path r.path) s
  unless_public h r s (some document) = (some document, s)

  unfoldable pub do_get_allowed : Handler → Request → Server → Option Response × Server
  unfolding public_document unless_public
  do_get_allowed h r s = unless_public h r s (public_document h (lib.url_path r.path))

  -- The request once the limiter has counted it.
  unfoldable pub limited_get : Handler → Request → Server → Bool → Option Response × Server
  unfolding too_many do_get_allowed
  limited_get h r s true = do_get_allowed h r s
  limited_get h r s false = sent (too_many r s)

  -- No response where the code raises.
  unfoldable pub do_get : Handler → Request → Server → Option Response × Server
  unfolding allow limited_get
  do_get h r s =
      let (ok, limiter) = allow ticks s.limiter r.client r.monotonic in
      limited_get h r (record s { limiter = limiter }) ok

  unfoldable pub do_post_allowed : Handler → Request → Server → Option Response × Server
  unfolding text_eq handle_logout handle_auth_post
  do_post_allowed h r s =
      let logged_out = handle_logout lib h r s in
      if text_eq (lib.url_path r.path) (codes "/logout")
      then (some logged_out.0, logged_out.1)
      else if not (text_eq (lib.url_path r.path) (codes "/auth"))
      then (some (bare lib 404 [] standard_error), s)
      else handle_auth_post lib ticks h r s

  unfoldable pub limited_post : Handler → Request → Server → Bool → Option Response × Server
  unfolding too_many do_post_allowed
  limited_post h r s true = do_post_allowed h r s
  limited_post h r s false = sent (too_many r s)

  -- No response where the code raises.
  unfoldable pub do_post : Handler → Request → Server → Option Response × Server
  unfolding allow limited_post
  do_post h r s =
      let (ok, limiter) = allow ticks s.limiter r.client r.monotonic in
      limited_post h r (record s { limiter = limiter }) ok
