-- ===== src/Server/Http/Guarded.antt =====
-- server/http_server.py: which requests are answered with results of a search, and with which.
use quick_find.Prelude.{
  ℕ, ◌≡◌, refl, Bool, true, false, List, [], ◌∷◌, Option, none, some, all, keep, arith,
}
use quick_find.Text.{Text}
use quick_find.Server.Acl.{Payload}
use quick_find.Server.RateLimit.{allow}
use quick_find.Server.Session.{Sessions}
use quick_find.Server.Http.{
  Libraries, Request, Handler, Server, Body, search_results, search_page, Response,
}
use quick_find.Server.Http.Auth.{check_auth}
use quick_find.Server.Http.Pages.{
  handle_login_page, send_unauthorized, handle_pwa_manifest, handle_service_worker, handle_pwa_icon,
}
use quick_find.Server.Http.Routes.{
  too_many, public_document, refuse, answer, checked_answer, checked_dispatch, limited_get,
  unless_public, do_get_allowed, do_get,
}

-- The results of a search that a response shows.
abbrev pub items_of : Body → Option (List Payload)
items_of (search_results items) = some items
items_of (search_page query type_filter max_results items) = some items
items_of _ = none

-- The results that are shown, if there is a response.
abbrev pub items_shown : Option Response → Option (List Payload)
items_shown none = none
items_shown (some response) = items_of response.body

-- The check has not raised, and has passed.
abbrev pub has_passed : Option (Bool × Sessions) → Bool
has_passed none = false
has_passed (some checked) = checked.0

all-keep {ℓ} : {A : Type ℓ} (p : A → Bool) (xs : List A) → all p (keep p xs) ≡ true
all-keep p [] = refl
all-keep p (x ∷ xs) = ground (arith, all-keep p xs)

module _ (lib : Libraries) {P : Type 0} (resolve : Text → P) (relative_to : P → P → Bool)
    (normalize : Text → Text) (payloads : Text → ℕ → List Payload) (ticks : ℕ) where
  pub public_document-hidden :
      (h : Handler) (path : Text) (response : Response)
      → public_document lib resolve relative_to normalize payloads ticks h path ≡ some response
      → items_of response.body ≡ none
  unfolding public_document handle_pwa_manifest handle_service_worker handle_pwa_icon
  public_document-hidden h path response e = ground arith

  pub refuse-hidden :
      (h : Handler) (r : Request) (path : Text) (s : Server)
      → items_of (refuse lib resolve relative_to normalize payloads ticks h r path s).0.body ≡ none
  unfolding refuse handle_login_page send_unauthorized
  refuse-hidden h r path s = ground arith

  answer-authorized :
      (h : Handler) (r : Request) (path : Text) (s : Server) (ok : Bool) (items : List Payload)
      → items_shown (answer lib resolve relative_to normalize payloads ticks h r path s ok).0
        ≡ some items
      → ok ≡ true
  unfolding answer
  answer-authorized h r path s true items e = refl
  answer-authorized h r path s false items e = ground (arith, e, refuse-hidden h r path s)

  checked_answer-authorized :
      (h : Handler) (r : Request) (path : Text) (s : Server) (o : Option (Bool × Sessions))
      (items : List Payload)
      → items_shown (checked_answer lib resolve relative_to normalize payloads ticks h r path s o).0
        ≡ some items
      → has_passed o ≡ true
  unfolding checked_answer
  checked_answer-authorized h r path s none items e = ground (arith, e)
  checked_answer-authorized h r path s (some (ok, sessions)) items e =
      answer-authorized h r path (record s { sessions = sessions }) ok items e

  unless_public-authorized :
      (h : Handler) (r : Request) (s : Server) (public : Option Response) (items : List Payload)
      → public_document lib resolve relative_to normalize payloads ticks h (lib.url_path r.path)
        ≡ public
      → items_shown (unless_public lib resolve relative_to normalize payloads ticks h r s public).0
        ≡ some items
      → has_passed (check_auth lib h r s.sessions) ≡ true
  unfolding unless_public checked_dispatch
  unless_public-authorized h r s none items q e =
      checked_answer-authorized h r (lib.url_path r.path) s (check_auth lib h r s.sessions) items e
  unless_public-authorized h r s (some document) items q e =
      ground (arith, e, public_document-hidden h (lib.url_path r.path) document q)

  do_get_allowed-authorized :
      (h : Handler) (r : Request) (s : Server) (items : List Payload)
      → items_shown (do_get_allowed lib resolve relative_to normalize payloads ticks h r s).0
        ≡ some items
      → has_passed (check_auth lib h r s.sessions) ≡ true
  unfolding do_get_allowed
  do_get_allowed-authorized h r s items e =
      unless_public-authorized h r s
        (public_document lib resolve relative_to normalize payloads ticks h (lib.url_path r.path))
        items refl e

  limited_get-authorized :
      (h : Handler) (r : Request) (s : Server) (ok : Bool) (items : List Payload)
      → items_shown (limited_get lib resolve relative_to normalize payloads ticks h r s ok).0
        ≡ some items
      → (ok ≡ true) × (has_passed (check_auth lib h r s.sessions) ≡ true)
  unfolding limited_get too_many
  limited_get-authorized h r s true items e = (refl, do_get_allowed-authorized h r s items e)
  limited_get-authorized h r s false items e = ground (arith, e)

  -- If the response to a GET shows results of a search, the limiter has granted the request and
  -- the check of its credentials has passed.
  pub do_get-Authorized :
      (h : Handler) (r : Request) (s : Server) (items : List Payload)
      → items_shown (do_get lib resolve relative_to normalize payloads ticks h r s).0 ≡ some items
      → ((allow ticks s.limiter r.client r.monotonic).0 ≡ true)
        × (has_passed (check_auth lib h r s.sessions) ≡ true)
  unfolding do_get
  do_get-Authorized h r s items e =
      limited_get-authorized h r
        (record s { limiter = (allow ticks s.limiter r.client r.monotonic).1 })
        (allow ticks s.limiter r.client r.monotonic).0 items e
