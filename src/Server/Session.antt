-- ===== src/Server/Session.antt =====
-- server/http_server.py: the sessions of the browser clients, a token each with the time at which
-- it expires. `time.time()` is read where the source reads it, in ticks, `ticks` of them a second.
pub mod Alive
use quick_find.Prelude.{
  ℕ, ◌+◌, ◌*◌, Bool, true, false, not, ◌&&◌, List, [], ◌∷◌, if◌then◌else◌, Option, none, some, leb,
}
use quick_find.Text.{Text, text_eq}
use quick_find.Dict.{Dict, get, put, remove, text_key}
use quick_find.Server.Acl.{is_ascii}

abbrev pub Sessions : Type 0
Sessions = Dict Text ℕ

-- `[t for t, exp in self._sessions.items() if exp <= now]`.
unfoldable pub expired_tokens : Sessions → ℕ → List Text
expired_tokens [] now = []
expired_tokens ((token, expiry) ∷ sessions) now =
    let rest = expired_tokens sessions now in if leb expiry now then token ∷ rest else rest

unfoldable pub pop_all : List Text → Sessions → Sessions
unfolding remove
pop_all [] sessions = sessions
pop_all (token ∷ tokens) sessions = pop_all tokens (remove sessions token)

unfoldable pub prune_sessions_locked : Sessions → ℕ → Sessions
unfolding expired_tokens pop_all
prune_sessions_locked sessions now = pop_all (expired_tokens sessions now) sessions

-- `token` is what `secrets.token_urlsafe` gives; the clock is read by the pruning and then again.
unfoldable pub create_session : ℕ → Sessions → Text → ℕ → ℕ → Sessions
unfolding prune_sessions_locked put
create_session ttl sessions token pruned_at now =
    put (prune_sessions_locked sessions pruned_at) token (now + ttl)

unfoldable pub is_empty : Text → Bool
is_empty [] = true
is_empty (c ∷ s) = false

unfoldable pub unexpired : Sessions → Text → ℕ → Option ℕ → Bool × Sessions
unfolding remove
unexpired sessions token now none = (false, sessions)
unexpired sessions token now (some expiry) =
    if leb expiry now then (false, remove sessions token) else (true, sessions)

-- `_session_valid` where its comparison does not raise. `session_token` is the single token of old,
-- empty in production.
unfoldable pub session_valid : Text → Sessions → Text → ℕ → Bool × Sessions
unfolding is_empty text_eq unexpired get
session_valid session_token sessions token now =
    if is_empty token
    then (false, sessions)
    else if not (is_empty session_token) && text_eq token session_token
    then (true, sessions)
    else unexpired sessions token now (get sessions token)

-- `_session_valid`: none for the `TypeError` of `compare_digest` on texts that are not ASCII.
unfoldable pub session_check : Text → Sessions → Text → ℕ → Option (Bool × Sessions)
unfolding is_empty is_ascii session_valid
session_check session_token sessions token now =
    if not (is_empty token)
      && not (is_empty session_token)
      && not (is_ascii token && is_ascii session_token)
    then none
    else some (session_valid session_token sessions token now)

unfoldable pub clear_session : Sessions → Text → Sessions
unfolding is_empty remove
clear_session sessions token = if is_empty token then sessions else remove sessions token
