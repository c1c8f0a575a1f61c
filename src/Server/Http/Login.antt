-- ===== src/Server/Http/Login.antt =====
-- server/http_server.py: how sessions come about.
use quick_find.Prelude.{
  ℕ, ◌*◌, ◌+◌, ◌≡◌, refl, ap, Bool, true, false, not, ◌&&◌, List, [], ◌∷◌, if◌then◌else◌, Option,
  none, some, arith, Bool-cases, inl, inr,
}
use quick_find.Text.{Text, codes, text_eq, text_eq_iff}
use quick_find.Dict.{has, remove, has-put, has-remove, text_key}
use quick_find.Server.Acl.{Payload, is_ascii}
use quick_find.Server.RateLimit.{allow}
use quick_find.Server.Session.{
  Sessions, is_empty, expired_tokens, pop_all, prune_sessions_locked, create_session, clear_session,
}
use quick_find.Server.Http.{Libraries, Request, Handler, Server, Response}
use quick_find.Server.Http.Auth.{session_cookie_value}
use quick_find.Server.Http.Origin.{origin_or_referer_allowed}
use quick_find.Server.Http.Pages.{
  session_ttl_seconds, handle_logout, body_length, submitted_token, answer_login, login_with,
  login_body, handle_auth_post,
}
use quick_find.Server.Http.Routes.{too_many, do_post_allowed, limited_post, do_post}

has-pop_all :
    (tokens : List Text) (sessions : Sessions) (j : Text)
    → has sessions j ≡ false
    → has (pop_all tokens sessions) j ≡ false
unfolding pop_all
has-pop_all [] sessions j h = h
has-pop_all (token ∷ tokens) sessions j h =
    has-pop_all tokens (remove sessions token) j (has-remove sessions token j h)

has-create_session :
    (ttl : ℕ) (sessions : Sessions) (token j : Text) (pruned_at now : ℕ)
    → has sessions j ≡ false
    → has (create_session ttl sessions token pruned_at now) j ≡ text_eq token j
unfolding create_session prune_sessions_locked
has-create_session ttl sessions token j pruned_at now h = ground (
  arith,
  has-put (pop_all (expired_tokens sessions pruned_at) sessions) token j (now + ttl),
  has-pop_all (expired_tokens sessions pruned_at) sessions j h,
)

module _ (lib : Libraries) (ticks : ℕ) (h : Handler) (r : Request) (j : Text) where
  -- The session is the one that the request may be given, and the request posts the token of the
  -- server, in a body of at most 4096 bytes, from a page of the server.
  abbrev pub Earned : Type 0
  Earned =
      (j ≡ r.fresh_token)
      × (is_empty h.auth_token ≡ false)
      × (origin_or_referer_allowed lib h r ≡ true)
      × ((n : ℕ) × (body_length lib r ≡ some n)
          × (submitted_token lib r (r.read n) ≡ some h.auth_token))

  answer_login-mints :
      (token : Text) (s : Server)
      → has s.sessions j ≡ false
      → has (answer_login lib ticks h r token s).1.sessions j ≡ true
      → (j ≡ r.fresh_token) × (token ≡ h.auth_token)
  unfolding answer_login
  answer_login-mints token s absent present = ground (
    arith,
    absent,
    present,
    text_eq_iff token h.auth_token,
    text_eq_iff r.fresh_token j,
    has-create_session (session_ttl_seconds * ticks) s.sessions r.fresh_token j r.now r.later
        absent,
  )

  login_with-mints :
      (s : Server) (token : Option Text)
      → has s.sessions j ≡ false
      → has (login_with lib ticks h r s token).1.sessions j ≡ true
      → (j ≡ r.fresh_token) × (token ≡ some h.auth_token)
  unfolding login_with
  login_with-mints s none absent present = ground (arith, absent, present)
  login_with-mints s (some token) absent present =
      elim (Bool-cases (is_ascii token && is_ascii h.auth_token)) [
        | inl e ↦
            let (new, same) = answer_login-mints token s absent (ground (arith, e, present)) in
            (new, ap some same)
        | inr e ↦ ground (arith, e, absent, present)
      ]

  login_body-mints :
      (s : Server) (n : Option ℕ)
      → has s.sessions j ≡ false
      → has (login_body lib ticks h r s n).1.sessions j ≡ true
      → (j ≡ r.fresh_token)
        × ((m : ℕ) × (n ≡ some m) × (submitted_token lib r (r.read m) ≡ some h.auth_token))
  unfolding login_body
  login_body-mints s none absent present = ground (arith, absent, present)
  login_body-mints s (some n) absent present =
      let (new, posted) = login_with-mints s (submitted_token lib r (r.read n)) absent present in
      (new, (n, refl, posted))

  -- If the session is there afterwards, then `Q`.
  abbrev Mints : Type 0 → Option Response × Server → Type 0
  Mints Q result = has result.1.sessions j ≡ true → Q

  if-Mints :
      (Q : Type 0) (test : Bool) (one other : Option Response × Server)
      → (test ≡ true → Mints Q one)
      → (test ≡ false → Mints Q other)
      → Mints Q (if test then one else other)
  if-Mints Q true one other a b = a refl
  if-Mints Q false one other a b = b refl

  absurd : (Q : Type 0) (s : Sessions) → has s j ≡ false → has s j ≡ true → Q
  absurd Q s absent present = elim clash [ ]
    where
      clash : ⊥
      clash = ground (arith, absent, present)

  handle_auth_post-Earned :
      (s : Server) → has s.sessions j ≡ false → Mints Earned (handle_auth_post lib ticks h r s)
  unfolding handle_auth_post
  handle_auth_post-Earned s absent =
      if-Mints Earned (is_empty h.auth_token) _ _ (λ e. absurd Earned s.sessions absent)
        (λ secured.
          if-Mints Earned (not (origin_or_referer_allowed lib h r)) _ _
            (λ e. absurd Earned s.sessions absent)
            (λ allowed present.
              let (new, posted) = login_body-mints s (body_length lib r) absent present in
              (new, secured, ground (arith, allowed), posted)))

  clear_session-absent :
      (sessions : Sessions) (token : Text)
      → has sessions j ≡ false
      → has (clear_session sessions token) j ≡ false
  unfolding clear_session
  clear_session-absent sessions token absent =
      ground (arith, absent, has-remove sessions token j absent)

  module _ {P : Type 0} (resolve : Text → P) (relative_to : P → P → Bool) (normalize : Text → Text)
      (payloads : Text → ℕ → List Payload) where
    do_post_allowed-Earned :
        (s : Server)
        → has s.sessions j ≡ false
        → Mints Earned (do_post_allowed lib resolve relative_to normalize payloads ticks h r s)
    unfolding do_post_allowed handle_logout
    do_post_allowed-Earned s absent =
        if-Mints Earned (text_eq (lib.url_path r.path) (codes "/logout")) _ _
          (λ e.
            absurd Earned (clear_session s.sessions (session_cookie_value lib r))
              (clear_session-absent s.sessions (session_cookie_value lib r) absent))
          (λ e.
            if-Mints Earned (not (text_eq (lib.url_path r.path) (codes "/auth"))) _ _
              (λ e'. absurd Earned s.sessions absent) (λ e'. handle_auth_post-Earned s absent))

    limited_post-Earned :
        (s : Server) (ok : Bool)
        → has s.sessions j ≡ false
        → Mints Earned (limited_post lib resolve relative_to normalize payloads ticks h r s ok)
    unfolding limited_post too_many
    limited_post-Earned s true absent = do_post_allowed-Earned s absent
    limited_post-Earned s false absent = absurd Earned s.sessions absent

    -- A session that a POST leaves and that was not there before is the fresh one of the request,
    -- which has posted the server's own token, in a body announced with 4096 bytes at most, from a
    -- page of the server; and the server has a token.
    pub do_post-Earned :
        (s : Server)
        → has s.sessions j ≡ false
        → has (do_post lib resolve relative_to normalize payloads ticks h r s).1.sessions j ≡ true
        → Earned
    unfolding do_post
    do_post-Earned s absent =
        limited_post-Earned (record s { limiter = (allow ticks s.limiter r.client r.monotonic).1 })
          (allow ticks s.limiter r.client r.monotonic).0 absent
