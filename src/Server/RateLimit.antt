-- ===== src/Server/RateLimit.antt =====
-- server/http_server.py: `_RateLimiter`. The clock is read in ticks, `ticks` of them a second; a
-- time compared with `now - d` is written as the time plus `d` compared with `now`.
pub mod Window
use quick_find.Prelude.{
  ℕ, ◌+◌, ◌*◌, Bool, true, false, List, [], ◌∷◌, ◌++◌, if◌then◌else◌, Option, none, some, any, keep,
  length, ltb, leb,
}
use quick_find.Text.{Text}
use quick_find.Dict.{Dict, get, put, select, text_key}

pub record RateLimiter : Type 0 where
  pub hits : Dict Text (List ℕ)
  pub last_cleanup : ℕ

abbrev pub new_limiter : RateLimiter
new_limiter = record { hits = []; last_cleanup = 0 }

abbrev pub times_or_none : Option (List ℕ) → List ℕ
times_or_none none = []
times_or_none (some times) = times

-- `self._hits.get(ip, [])`.
unfoldable pub times_of : RateLimiter → Text → List ℕ
unfolding get
times_of l ip = times_or_none (get l.hits ip)

unfoldable pub allow_with : RateLimiter → Text → ℕ → List ℕ → Bool × RateLimiter
unfolding put
allow_with l ip now timestamps =
    if leb 60 (length timestamps)
    then (false, record l { hits = put l.hits ip timestamps })
    else (true, record l { hits = put l.hits ip (timestamps ++ (now ∷ [])) })

module _ (ticks : ℕ) where
  -- `t > now - WINDOW`.
  abbrev pub fresh : ℕ → ℕ → Bool
  fresh now t = ltb now (t + 60 * ticks)

  abbrev pub still_fresh : ℕ → Text → List ℕ → Option (List ℕ)
  still_fresh now ip times = if any (fresh now) times then some (keep (fresh now) times) else none

  unfoldable pub cleanup : ℕ → RateLimiter → RateLimiter
  unfolding select
  cleanup now l =
      if ltb (l.last_cleanup + 300 * ticks) now
      then record { hits = select (still_fresh now) l.hits; last_cleanup = now }
      else l

  unfoldable pub allow : RateLimiter → Text → ℕ → Bool × RateLimiter
  unfolding cleanup times_of allow_with
  allow l ip now =
      let cleaned = cleanup now l in
      allow_with cleaned ip now (keep (fresh now) (times_of cleaned ip))
