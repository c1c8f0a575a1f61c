-- ===== src/Server/Session/Alive.antt =====
-- server/http_server.py: which sessions are valid after any sequence of operations.
use quick_find.Prelude.{
  ℕ, ◌+◌, ◌≤◌, ◌≡◌, refl, ◌∙◌, Bool, false, not, ◌&&◌, ◌||◌, List, [], ◌∷◌, if◌then◌else◌, Option,
  none, some, leb, ltb, any, arith, Bool-cases, Option-cases, inl, inr,
}
use quick_find.Text.{Text, text_eq, text_eq_iff}
use quick_find.Dict.{
  get, has, remove, text_key, IsUnique, put-IsUnique, remove-IsUnique, get-put, get-remove,
}
use quick_find.Server.Session.{
  Sessions, expired_tokens, pop_all, prune_sessions_locked, create_session, is_empty, unexpired,
  session_valid, clear_session,
}

-- An operation on the sessions, with the readings of the clock.
pub data Event : Type 0 where
  created : (token : Text) (pruned_at now : ℕ) → Event
  checked : (token : Text) (now : ℕ) → Event
  cleared : (token : Text) (now : ℕ) → Event

abbrev pub time_of : Event → ℕ
time_of (created token pruned_at now) = now
time_of (checked token now) = now
time_of (cleared token now) = now

abbrev started : Event → ℕ
started (created token pruned_at now) = pruned_at
started (checked token now) = now
started (cleared token now) = now

-- The sessions of a trace, the latest event first.
abbrev pub latest : List Event → ℕ
latest [] = 0
latest (event ∷ earlier) = time_of event

-- The clock does not go back.
abbrev pub IsOrdered : List Event → Type 0
IsOrdered [] = Unit
IsOrdered (event ∷ earlier) =
    (latest earlier ≤ started event) × (started event ≤ time_of event) × IsOrdered earlier

-- The expiry that the last creation of a token gave it, unless it was cleared since.
abbrev granted_expiry : ℕ → List Event → Text → Option ℕ
granted_expiry ttl [] token = none
granted_expiry ttl (created t pruned_at now ∷ earlier) token =
    if text_eq t token then some (now + ttl) else granted_expiry ttl earlier token
granted_expiry ttl (checked t now ∷ earlier) token = granted_expiry ttl earlier token
granted_expiry ttl (cleared t now ∷ earlier) token =
    if not (is_empty t) && text_eq t token then none else granted_expiry ttl earlier token

abbrev live : ℕ → Option ℕ → Bool
live now none = false
live now (some expiry) = ltb now expiry

unfoldable pub perform : Text → ℕ → Sessions → Event → Sessions
perform session_token ttl sessions (created token pruned_at now) =
    create_session ttl sessions token pruned_at now
perform session_token ttl sessions (checked token now) =
    (session_valid session_token sessions token now).1
perform session_token ttl sessions (cleared token now) = clear_session sessions token

unfoldable pub run : Text → ℕ → List Event → Sessions
run session_token ttl [] = []
run session_token ttl (event ∷ earlier) =
    perform session_token ttl (run session_token ttl earlier) event

pop_all-IsUnique :
    (tokens : List Text) (sessions : Sessions)
    → IsUnique sessions
    → IsUnique (pop_all tokens sessions)
unfolding pop_all
pop_all-IsUnique [] sessions h = h
pop_all-IsUnique (token ∷ tokens) sessions h =
    pop_all-IsUnique tokens (remove sessions token) (remove-IsUnique sessions token h)

get-pop_all :
    (tokens : List Text) (sessions : Sessions) (j : Text)
    → get (pop_all tokens sessions) j
      ≡ (if any (λ t. text_eq t j) tokens then none else get sessions j)
unfolding pop_all
get-pop_all [] sessions j = refl
get-pop_all (token ∷ tokens) sessions j =
    ground (arith, get-pop_all tokens (remove sessions token) j, get-remove sessions token j)

expired_tokens-absent :
    (sessions : Sessions) (now : ℕ) (j : Text)
    → has sessions j ≡ false
    → any (λ t. text_eq t j) (expired_tokens sessions now) ≡ false
unfolding expired_tokens has
expired_tokens-absent [] now j h = refl
expired_tokens-absent ((token, expiry) ∷ sessions) now j h =
    ground (arith, expired_tokens-absent sessions now j)

-- A token is listed when it has expired.
expired_tokens_lem :
    (sessions : Sessions) (now : ℕ) (j : Text)
    → IsUnique sessions
    → any (λ t. text_eq t j) (expired_tokens sessions now)
      ≡ elim (get sessions j) [ none ↦ false | some expiry ↦ leb expiry now ]
unfolding expired_tokens get
expired_tokens_lem [] now j h = refl
expired_tokens_lem ((token, expiry) ∷ sessions) now j (new, h) = ground (
  arith,
  expired_tokens_lem sessions now j h,
  expired_tokens-absent sessions now token new,
  text_eq_iff token j,
)

prune-live :
    (sessions : Sessions) (pruned_at now : ℕ) (j : Text)
    → IsUnique sessions
    → pruned_at ≤ now
    → live now (get (prune_sessions_locked sessions pruned_at) j) ≡ live now (get sessions j)
unfolding prune_sessions_locked
prune-live sessions pruned_at now j h late = ground (
  arith,
  get-pop_all (expired_tokens sessions pruned_at) sessions j,
  expired_tokens_lem sessions pruned_at j h,
  Option-cases (get sessions j),
)

module _ (session_token : Text) (ttl : ℕ) where
  -- What an event makes of the expiry of a token.
  abbrev updated : Event → Text → Option ℕ → Option ℕ
  updated (created t pruned_at now) token before =
      if text_eq t token then some (now + ttl) else before
  updated (checked t now) token before = before
  updated (cleared t now) token before =
      if not (is_empty t) && text_eq t token then none else before

  unexpired-live :
      (sessions : Sessions) (token j : Text) (at now : ℕ)
      → at ≤ now
      → live now (get (unexpired sessions token at (get sessions token)).1 j)
        ≡ live now (get sessions j)
  unfolding unexpired
  unexpired-live sessions token j at now late =
      ground
        (arith, Option-cases (get sessions token), get-remove sessions token j, text_eq_iff token j)

  session_valid-live :
      (sessions : Sessions) (token j : Text) (at now : ℕ)
      → at ≤ now
      → live now (get (session_valid session_token sessions token at).1 j)
        ≡ live now (get sessions j)
  unfolding session_valid
  session_valid-live sessions token j at now late =
      ground (arith, unexpired-live sessions token j at now late)

  perform-live :
      (sessions : Sessions) (event : Event) (j : Text) (now : ℕ)
      → IsUnique sessions
      → started event ≤ time_of event
      → time_of event ≤ now
      → live now (get (perform session_token ttl sessions event) j)
        ≡ live now (updated event j (get sessions j))
  unfolding perform create_session clear_session
  perform-live sessions (created token pruned_at at) j now h order late = ground (
    arith,
    get-put (prune_sessions_locked sessions pruned_at) token j (at + ttl),
    prune-live sessions pruned_at now j h,
  )
  perform-live sessions (checked token at) j now h order late =
      session_valid-live sessions token j at now late
  perform-live sessions (cleared token at) j now h order late =
      ground (arith, get-remove sessions token j)

  unexpired-IsUnique :
      (sessions : Sessions) (token : Text) (at : ℕ) (found : Option ℕ)
      → IsUnique sessions
      → IsUnique (unexpired sessions token at found).1
  unfolding unexpired
  unexpired-IsUnique sessions token at none h = h
  unexpired-IsUnique sessions token at (some expiry) h = elim (Bool-cases (leb expiry at)) [
    | inl q ↦ rw (q) (remove-IsUnique sessions token h)
    | inr q ↦ rw (q) h
  ]

  session_valid-IsUnique :
      (sessions : Sessions) (token : Text) (at : ℕ)
      → IsUnique sessions
      → IsUnique (session_valid session_token sessions token at).1
  unfolding session_valid
  session_valid-IsUnique sessions token at h = elim (Bool-cases (is_empty token)) [
    | inl q ↦ rw (q) h
    | inr q ↦ elim (Bool-cases (not (is_empty session_token) && text_eq token session_token)) [
      | inl old ↦ rw (q, old) h
      | inr old ↦ rw (q, old) (unexpired-IsUnique sessions token at (get sessions token) h)
    ]
  ]

  perform-IsUnique :
      (sessions : Sessions) (event : Event)
      → IsUnique sessions
      → IsUnique (perform session_token ttl sessions event)
  unfolding perform create_session clear_session prune_sessions_locked
  perform-IsUnique sessions (created token pruned_at at) h =
      put-IsUnique (prune_sessions_locked sessions pruned_at) token (at + ttl)
        (pop_all-IsUnique (expired_tokens sessions pruned_at) sessions h)
  perform-IsUnique sessions (checked token at) h = session_valid-IsUnique sessions token at h
  perform-IsUnique sessions (cleared token at) h = elim (Bool-cases (is_empty token)) [
    | inl q ↦ rw (q) h
    | inr q ↦ rw (q) (remove-IsUnique sessions token h)
  ]

  abbrev Coherent : List Event → Type 0
  Coherent trace =
      IsUnique (run session_token ttl trace)
      × ((now : ℕ) (j : Text)
          → latest trace ≤ now
          → live now (get (run session_token ttl trace) j) ≡ live now (granted_expiry ttl trace j))

  granted_expiry_step :
      (event : Event) (earlier : List Event) (now : ℕ) (j : Text) (before : Option ℕ)
      → live now before ≡ live now (granted_expiry ttl earlier j)
      → live now (updated event j before) ≡ live now (granted_expiry ttl (event ∷ earlier) j)
  granted_expiry_step (created t pruned_at at) earlier now j before h = ground (arith, h)
  granted_expiry_step (checked t at) earlier now j before h = h
  granted_expiry_step (cleared t at) earlier now j before h = ground (arith, h)

  run-Coherent : (trace : List Event) → IsOrdered trace → Coherent trace
  unfolding run get
  run-Coherent [] h = (tt, λ now j late. refl)
  run-Coherent (event ∷ earlier) (late, order, h) =
      let (unique, same) = run-Coherent earlier h in
      (
        perform-IsUnique (run session_token ttl earlier) event unique,
        λ now j later.
            perform-live (run session_token ttl earlier) event j now unique order later
            ∙ granted_expiry_step event earlier now j (get (run session_token ttl earlier) j)
                (same now j (ground (arith, late, order, later))),
      )

  -- After any sequence of operations at times in order, a token is valid exactly when it is not
  -- empty and either the token of old or one whose last creation was not followed by its clearing
  -- and has not expired.
  pub session_valid-Refines :
      (trace : List Event) (token : Text) (now : ℕ)
      → IsOrdered trace
      → latest trace ≤ now
      → (session_valid session_token (run session_token ttl trace) token now).0 ≡ (
          not (is_empty token)
          && ((not (is_empty session_token) && text_eq token session_token)
              || live now (granted_expiry ttl trace token)))
  unfolding session_valid unexpired
  session_valid-Refines trace token now h late = ground (
    arith,
    (run-Coherent trace h).1 now token late,
    Option-cases (get (run session_token ttl trace) token),
  )
