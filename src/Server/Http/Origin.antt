-- ===== src/Server/Http/Origin.antt =====
-- server/http_server.py: a login is posted from a page of the server itself.
use quick_find.Prelude.{
  arith, ◌≡◌, Bool, true, false, not, ◌&&◌, ◌||◌, List, [], ◌∷◌, ◌++◌, if◌then◌else◌,
}
use quick_find.Text.{Text, codes, text_eq}
use quick_find.Server.Session.{is_empty}
use quick_find.Server.Http.{Libraries, Request, Handler, header}

module _ (lib : Libraries) where
  unfoldable pub request_origin : Handler → Request → Text
  unfolding is_empty
  request_origin h r =
      let sent = header r (codes "Host") in
      let host =
        if is_empty sent then h.server_host ++ (codes ":" ++ lib.decimal h.server_port) else sent in
      let scheme = if h.use_https then codes "https" else codes "http" in
      scheme ++ (codes "://" ++ lib.unicode.lower host)

  -- A header with a value passes if that has a scheme and a host and they make the origin expected.
  unfoldable pub origin_matches : Text → Text → Bool
  unfolding is_empty text_eq
  origin_matches expected value =
      not (is_empty (lib.url_scheme value) || is_empty (lib.url_netloc value))
      && text_eq
          (lib.unicode.lower (lib.url_scheme value)
            ++ (codes "://" ++ lib.unicode.lower (lib.url_netloc value)))
          expected

  -- The loop over the values of the headers.
  unfoldable pub origins_checked : Text → Bool → List Text → Bool
  unfolding is_empty origin_matches
  origins_checked expected checked [] = checked
  origins_checked expected checked (value ∷ values) =
      let skipped = origins_checked expected checked values in
      let passed = origins_checked expected true values in
      if is_empty value then skipped else if origin_matches expected value then passed else false

  unfoldable pub origin_or_referer_allowed : Handler → Request → Bool
  unfolding origins_checked request_origin
  origin_or_referer_allowed h r =
      origins_checked (request_origin h r) false
        (header r (codes "Origin") ∷ header r (codes "Referer") ∷ [])

  -- A login is accepted from where it is posted exactly when `Origin` or `Referer` is sent and each
  -- of them that is sent has a scheme and a host that make the server's own origin.
  pub origin_or_referer_allowed_iff :
      (h : Handler) (r : Request)
      → origin_or_referer_allowed h r ≡ (
          not (is_empty (header r (codes "Origin")) && is_empty (header r (codes "Referer")))
          && ((is_empty (header r (codes "Origin"))
                || origin_matches (request_origin h r) (header r (codes "Origin")))
              && (is_empty (header r (codes "Referer"))
                  || origin_matches (request_origin h r) (header r (codes "Referer")))))
  unfolding origin_or_referer_allowed origins_checked
  origin_or_referer_allowed_iff h r = ground arith
