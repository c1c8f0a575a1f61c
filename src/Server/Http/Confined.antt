-- ===== src/Server/Http/Confined.antt =====
-- server/http_server.py: in shared mode a client sees what its token may read.
use quick_find.Prelude.{
  some_eq, ℕ, ◌≡◌, refl, sym, subst, ap, ◌∙◌, Bool, true, false, ◌||◌, List, [], ◌∷◌, if◌then◌else◌,
  Option, none, some, all, keep, arith,
}
use quick_find.Text.{Text, codes, text_eq}
use quick_find.Dict.{Dict}
use quick_find.Server.Acl.{Payload, TokenAcl, SharedServerConfig, acl_for_token, validate_config}
use quick_find.Server.Acl.Confines.{within, filter_results_by_acl-confines}
use quick_find.Server.RateLimit.{allow}
use quick_find.Server.Session.{Sessions, is_empty}
use quick_find.Server.Http.{Libraries, Request, Handler, Server, Response}
use quick_find.Server.Http.Auth.{
  shared_enabled, token_acl, presented_token, acl_of_presented, resolve_token_acl, check_auth,
}
use quick_find.Server.Http.Pages.{handle_openapi_spec, handle_api_docs}
use quick_find.Server.Http.Routes.{
  apply_found, apply_resolved, apply_acl, respond, sent, checked_answer, handle_api_search,
  handle_page, too_many, public_document, dispatch, answer, refuse, is_root, checked_dispatch,
  unless_public, do_get_allowed, limited_get, do_get,
}
use quick_find.Server.Http.Guarded.{items_of, items_shown, public_document-hidden, refuse-hidden}

all-keep {ℓ} : {A : Type ℓ} (p : A → Bool) (xs : List A) → all p (keep p xs) ≡ true
all-keep p [] = refl
all-keep p (x ∷ xs) = ground (arith, all-keep p xs)

module _ (lib : Libraries) {P : Type 0} (isabs : Text → Bool) (resolve : Text → P)
    (relative_to : P → P → Bool) (normalize : Text → Text) (payloads : Text → ℕ → List Payload)
    (ticks : ℕ) where
  module _ (h : Handler) (r : Request) (config : SharedServerConfig) (acl : TokenAcl)
      (shared : h.shared_config ≡ some config) (on : config.enabled ≡ true)
      (valid : validate_config isabs config ≡ []) (token : Text)
      (presented : presented_token lib r ≡ some token) (nonempty : is_empty token ≡ false)
      (listed : acl_for_token config token ≡ some (some acl)) where
    abbrev readable : Payload → Bool
    readable = within isabs resolve relative_to normalize acl

    resolved : resolve_token_acl lib h r ≡ some (some acl)
    unfolding resolve_token_acl shared_enabled acl_of_presented token_acl
    resolved = rw (shared, on, presented, nonempty) listed

    apply_acl-confined :
        (items : List Payload) (s : Server)
        → (apply_acl lib resolve relative_to normalize payloads ticks h r items s).0
          ≡ some (keep readable items)
    unfolding apply_acl apply_resolved apply_found
    apply_acl-confined items s =
        ap
          (λ found.
            (apply_resolved lib resolve relative_to normalize payloads ticks r items s found).0)
          resolved
        ∙ ap (λ outcome. some outcome.allowed)
            (filter_results_by_acl-confines isabs resolve relative_to normalize config token acl
              items on valid listed)

    -- What a response shows is readable.
    Confined : Option Response × Server → Type 0
    Confined answer =
        (items : List Payload) → items_shown answer.0 ≡ some items → all readable items ≡ true

    shows :
        (page : List Payload → Response) (results items : List Payload) (s : Server)
        → ((found : List Payload) → items_of (page found).body ≡ some found)
        → items_shown (
            respond lib resolve relative_to normalize payloads ticks page
              (apply_acl lib resolve relative_to normalize payloads ticks h r results s).0)
          ≡ some items
        → all readable items ≡ true
    unfolding respond
    shows page results items s shown e =
        subst (λ found. all readable found ≡ true)
          (some_eq (
            sym (shown (keep readable results))
            ∙ sym (
                ap
                  (λ o.
                    items_shown (respond lib resolve relative_to normalize payloads ticks page o))
                  (apply_acl-confined results s))
            ∙ e))
          (all-keep readable results)

    hidden :
        (response : Option Response × Server) → items_shown response.0 ≡ none → Confined response
    unfolding Confined
    hidden response q items e = ground (arith, q, e)

    if-Confined :
        (test : Bool) (one other : Option Response × Server)
        → Confined one
        → Confined other
        → Confined (if test then one else other)
    if-Confined true one other a b = a
    if-Confined false one other a b = b

    handle_api_search-Confined :
        (params : Dict Text (Text × List Text)) (s : Server)
        → Confined (handle_api_search lib resolve relative_to normalize payloads ticks h r params s)
    unfolding Confined handle_api_search
    handle_api_search-Confined params s items e = shows _ _ items _ (λ found. refl) e

    handle_page-Confined :
        (params : Dict Text (Text × List Text)) (s : Server)
        → Confined (handle_page lib resolve relative_to normalize payloads ticks h r params s)
    unfolding Confined handle_page
    handle_page-Confined params s items e = shows _ _ items _ (λ found. refl) e

    dispatch-Confined :
        (path : Text) (params : Dict Text (Text × List Text)) (s : Server)
        → Confined (dispatch lib resolve relative_to normalize payloads ticks h r path params s)
    unfolding dispatch handle_openapi_spec handle_api_docs
    dispatch-Confined path params s =
        if-Confined (text_eq path (codes "/api/search")) _ _ (handle_api_search-Confined params s) (
          if-Confined (text_eq path (codes "/openapi.json")) _ _ (hidden _ refl) (
            if-Confined (text_eq path (codes "/api/docs") || text_eq path (codes "/docs")) _ _
              (hidden _ refl)
              (if-Confined (is_root lib resolve relative_to normalize payloads ticks path) _ _
                (handle_page-Confined params s) (hidden _ refl))))

    answer-Confined :
        (path : Text) (s : Server) (ok : Bool)
        → Confined (answer lib resolve relative_to normalize payloads ticks h r path s ok)
    unfolding answer
    answer-Confined path s true = dispatch-Confined path (lib.parse_qs (lib.url_query r.path)) s
    answer-Confined path s false =
        hidden
          (sent lib resolve relative_to normalize payloads ticks
            (refuse lib resolve relative_to normalize payloads ticks h r path s))
          (refuse-hidden lib resolve relative_to normalize payloads ticks h r path s)

    checked_answer-Confined :
        (path : Text) (s : Server) (o : Option (Bool × Sessions))
        → Confined (checked_answer lib resolve relative_to normalize payloads ticks h r path s o)
    unfolding checked_answer
    checked_answer-Confined path s none = hidden (none, s) refl
    checked_answer-Confined path s (some (ok, sessions)) =
        answer-Confined path (record s { sessions = sessions }) ok

    unless_public-Confined :
        (s : Server) (public : Option Response)
        → public_document lib resolve relative_to normalize payloads ticks h (lib.url_path r.path)
          ≡ public
        → Confined (unless_public lib resolve relative_to normalize payloads ticks h r s public)
    unfolding unless_public checked_dispatch
    unless_public-Confined s none q =
        checked_answer-Confined (lib.url_path r.path) s (check_auth lib h r s.sessions)
    unless_public-Confined s (some document) q =
        hidden (some document, s)
          (public_document-hidden lib resolve relative_to normalize payloads ticks h
            (lib.url_path r.path) document q)

    limited_get-Confined :
        (s : Server) (ok : Bool)
        → Confined (limited_get lib resolve relative_to normalize payloads ticks h r s ok)
    unfolding limited_get do_get_allowed too_many
    limited_get-Confined s true =
        unless_public-Confined s
          (public_document lib resolve relative_to normalize payloads ticks h (lib.url_path r.path))
          refl
    limited_get-Confined s false = hidden _ refl

    -- In shared mode, with a configuration without errors, the results that the response to a GET
    -- shows to a client who presents the token of an entry all lie in the entry's roots.
    pub do_get-Confined :
        (s : Server) (items : List Payload)
        → items_shown (do_get lib resolve relative_to normalize payloads ticks h r s).0 ≡ some items
        → all readable items ≡ true
    unfolding do_get Confined
    do_get-Confined s items e =
        limited_get-Confined (record s { limiter = (allow ticks s.limiter r.client r.monotonic).1 })
          (allow ticks s.limiter r.client r.monotonic).0 items e
