-- ===== src/Server/RateLimit/Window.antt =====
-- server/http_server.py: what the rate limiter grants over any sequence of requests.
use quick_find.Prelude.{
  ℕ, ◌+◌, ◌*◌, ◌≤◌, ◌<◌, ◌≡◌, refl, sym, ap, ◌∙◌, ◌&&◌, &&-eq-true, subst, Bool, true, List, [],
  ◌∷◌, ◌++◌, if◌then◌else◌, Option, none, some, keep, length, ltb, leb, arith, Bool-cases, inl, inr,
  keep-append, keep-any, keep-keep, length-keep_mono, length-append,
}
use quick_find.Text.{Text, text_eq, text_eq_iff}
use quick_find.Dict.{get, text_key, IsUnique, put-IsUnique, select-IsUnique, get-select, get-put}
use quick_find.Server.RateLimit.{
  RateLimiter, new_limiter, fresh, still_fresh, cleanup, times_or_none, times_of, allow_with, allow,
}

module _ (l : RateLimiter) (ip : Text) (now : ℕ) (timestamps : List ℕ) where
  allow_with-IsUnique : IsUnique l.hits → IsUnique (allow_with l ip now timestamps).1.hits
  unfolding allow_with
  allow_with-IsUnique h = elim (Bool-cases (leb 60 (length timestamps))) [
    | inl q ↦ rw (q) (put-IsUnique l.hits ip timestamps h)
    | inr q ↦ rw (q) (put-IsUnique l.hits ip (timestamps ++ (now ∷ [])) h)
  ]

  times_of-allow_with :
      (jp : Text)
      → times_of (allow_with l ip now timestamps).1 jp ≡ (
          if text_eq ip jp
          then if (allow_with l ip now timestamps).0 then timestamps ++ (now ∷ []) else timestamps
          else times_of l jp)
  unfolding allow_with times_of
  times_of-allow_with jp =
      ground
        (arith, get-put l.hits ip jp timestamps, get-put l.hits ip jp (timestamps ++ (now ∷ [])))

module _ (ticks : ℕ) where
  -- A trace has the requests, the latest first, each with its client and the time of it.
  unfoldable pub run : List (Text × ℕ) → RateLimiter
  run [] = new_limiter
  run ((ip, now) ∷ earlier) = (allow ticks (run earlier) ip now).1

  -- The times at which requests of a client were granted, in order.
  unfoldable pub granted : List (Text × ℕ) → Text → List ℕ
  granted [] ip = []
  granted ((jp, now) ∷ earlier) ip =
      if text_eq jp ip && (allow ticks (run earlier) jp now).0
      then granted earlier ip ++ (now ∷ [])
      else granted earlier ip

  abbrev pub latest : List (Text × ℕ) → ℕ
  latest [] = 0
  latest ((ip, now) ∷ earlier) = now

  -- The clock is monotonic.
  abbrev pub IsOrdered : List (Text × ℕ) → Type 0
  IsOrdered [] = Unit
  IsOrdered ((ip, now) ∷ earlier) = (latest earlier ≤ now) × IsOrdered earlier

  fresh_mono : (a b t : ℕ) → a ≤ b → fresh ticks b t ≡ true → fresh ticks a t ≡ true
  fresh_mono a b t h = ground arith

  keep-fresh :
      (now : ℕ) (times : List ℕ)
      → keep (fresh ticks now) (keep (fresh ticks now) times) ≡ keep (fresh ticks now) times
  keep-fresh now times = keep-keep (fresh ticks now) (fresh ticks now) (λ t h. h) times

  -- What the cleanup keeps of one client's times.
  keep-still_fresh :
      (now : ℕ) (ip : Text) (found : Option (List ℕ))
      → keep
          (fresh ticks now)
          (times_or_none (elim found [ none ↦ none | some v ↦ still_fresh ticks now ip v ]))
        ≡ keep (fresh ticks now) (times_or_none found)
  keep-still_fresh now ip none = refl
  keep-still_fresh now ip (some v) = ground (arith, keep-fresh now v, keep-any (fresh ticks now) v)

  times_of-cleanup :
      (now : ℕ) (l : RateLimiter) (ip : Text)
      → IsUnique l.hits
      → keep (fresh ticks now) (times_of (cleanup ticks now l) ip)
        ≡ keep (fresh ticks now) (times_of l ip)
  unfolding cleanup times_of
  times_of-cleanup now l ip h = elim (Bool-cases (ltb (l.last_cleanup + 300 * ticks) now)) [
    | inl q ↦
        rw (q, times_of, get-select (still_fresh ticks now) l.hits ip h)
          (keep-still_fresh now ip (get l.hits ip))
    | inr q ↦ rw (q) refl
  ]

  cleanup-IsUnique :
      (now : ℕ) (l : RateLimiter) → IsUnique l.hits → IsUnique (cleanup ticks now l).hits
  unfolding cleanup
  cleanup-IsUnique now l h = elim (Bool-cases (ltb (l.last_cleanup + 300 * ticks) now)) [
    | inl q ↦ rw (q) (select-IsUnique (still_fresh ticks now) l.hits h)
    | inr q ↦ rw (q) h
  ]

  module _ (now : ℕ) (l : RateLimiter) (ip : Text) (h : IsUnique l.hits) where
    abbrev cleaned : RateLimiter
    cleaned = cleanup ticks now l

    abbrev recent : List ℕ
    recent = keep (fresh ticks now) (times_of l ip)

    allow_lem : (allow ticks l ip now).0 ≡ ltb (length recent) 60
    unfolding allow allow_with
    allow_lem = ground (arith, times_of-cleanup now l ip h)

    allow-IsUnique : IsUnique (allow ticks l ip now).1.hits
    unfolding allow
    allow-IsUnique =
        allow_with-IsUnique (cleanup ticks now l) ip now
          (keep (fresh ticks now) (times_of (cleanup ticks now l) ip)) (cleanup-IsUnique now l h)

    times_of-allow :
        (jp : Text)
        → keep (fresh ticks now) (times_of (allow ticks l ip now).1 jp)
          ≡ keep (fresh ticks now) (
              if text_eq ip jp && (allow ticks l ip now).0
              then times_of l jp ++ (now ∷ [])
              else times_of l jp)
    unfolding allow
    times_of-allow jp = ground (
      arith,
      times_of-allow_with cleaned ip now (keep (fresh ticks now) (times_of cleaned ip)) jp,
      times_of-cleanup now l ip h,
      times_of-cleanup now l jp h,
      text_eq_iff ip jp,
      keep-fresh now (times_of cleaned ip),
      keep-append (fresh ticks now) (keep (fresh ticks now) (times_of cleaned ip)) (now ∷ []),
      keep-append (fresh ticks now) (times_of l jp) (now ∷ []),
    )

  -- The recorded times of a client are those of its granted requests, but for some that have left
  -- the window.
  Coherent : List (Text × ℕ) → Type 0
  Coherent trace =
      IsUnique (run trace).hits
      × ((ip : Text)
          → keep (fresh ticks (latest trace)) (times_of (run trace) ip)
            ≡ keep (fresh ticks (latest trace)) (granted trace ip))

  recorded_later :
      (trace : List (Text × ℕ)) (now : ℕ) (ip : Text)
      → latest trace ≤ now
      → Coherent trace
      → keep (fresh ticks now) (times_of (run trace) ip) ≡ keep (fresh ticks now) (granted trace ip)
  unfolding Coherent
  recorded_later trace now ip late (unique, same) = ground (
    arith,
    same ip,
    keep-keep (fresh ticks (latest trace)) (fresh ticks now)
        (λ t. fresh_mono (latest trace) now t late) (times_of (run trace) ip),
    keep-keep (fresh ticks (latest trace)) (fresh ticks now)
        (λ t. fresh_mono (latest trace) now t late) (granted trace ip),
  )

  run-Coherent_step :
      (earlier : List (Text × ℕ)) (jp : Text) (now : ℕ)
      → latest earlier ≤ now
      → Coherent earlier
      → Coherent ((jp, now) ∷ earlier)
  unfolding Coherent run granted
  run-Coherent_step earlier jp now late (unique, same) = (
    allow-IsUnique now (run earlier) jp unique,
    λ ip. ground (
      arith,
      times_of-allow now (run earlier) jp unique ip,
      recorded_later earlier now ip late (unique, same),
      keep-append (fresh ticks now) (times_of (run earlier) ip) (now ∷ []),
      keep-append (fresh ticks now) (granted earlier ip) (now ∷ []),
    ),
  )

  run-Coherent : (trace : List (Text × ℕ)) → IsOrdered trace → Coherent trace
  unfolding Coherent run granted times_of get
  run-Coherent [] h = (tt, λ ip. refl)
  run-Coherent ((jp, now) ∷ earlier) (late, h) =
      run-Coherent_step earlier jp now late (run-Coherent earlier h)

  -- After any requests at times in order, the next is granted exactly when fewer than 60 of the
  -- client's requests were granted in the 60 seconds before it.
  pub allow-Refines :
      (trace : List (Text × ℕ)) (ip : Text) (now : ℕ)
      → IsOrdered trace
      → latest trace ≤ now
      → (allow ticks (run trace) ip now).0
        ≡ ltb (length (keep (fresh ticks now) (granted trace ip))) 60
  unfolding Coherent
  allow-Refines trace ip now h late =
      let coherent = run-Coherent trace h in
      allow_lem now (run trace) ip coherent.0
      ∙ ap (λ times. ltb (length times) 60) (recorded_later trace now ip late coherent)

  -- A time of the 60 seconds up to `x`.
  abbrev pub in_window : ℕ → ℕ → Bool
  in_window x t = leb t x && fresh ticks x t

  within : (x now t : ℕ) → now ≤ x → in_window x t ≡ true → fresh ticks now t ≡ true
  within x now t late = ground arith

  granted_step :
      (x now : ℕ) (times : List ℕ) (ok : Bool)
      → (ok ≡ true → length (keep (fresh ticks now) times) < 60)
      → length (keep (in_window x) times) ≤ 60
      → length (keep (in_window x) (if ok then times ++ (now ∷ []) else times)) ≤ 60
  granted_step x now times ok few h = ground (
    arith,
    few,
    h,
    keep-append (in_window x) times (now ∷ []),
    length-append (keep (in_window x) times) (keep (in_window x) (now ∷ [])),
    λ (late : now ≤ x).
        length-keep_mono (fresh ticks now) (in_window x) (λ t. within x now t late) times,
  )

  granted_few :
      (earlier : List (Text × ℕ)) (jp ip : Text) (now : ℕ)
      → latest earlier ≤ now
      → IsOrdered earlier
      → (text_eq jp ip && (allow ticks (run earlier) jp now).0) ≡ true
      → length (keep (fresh ticks now) (granted earlier ip)) < 60
  granted_few earlier jp ip now late h ok =
      let both = &&-eq-true (text_eq jp ip) (allow ticks (run earlier) jp now).0 ok in
      subst (λ i. length (keep (fresh ticks now) (granted earlier i)) < 60)
        ((text_eq_iff jp ip).0 both.0)
        (lt_of (length (keep (fresh ticks now) (granted earlier jp)))
          (sym (allow-Refines earlier jp now h late) ∙ both.1))
    where
      lt_of : (n : ℕ) → ltb n 60 ≡ true → n < 60
      lt_of n few = ground arith

  -- After any requests at times in order, no 60 seconds hold more than 60 granted requests of a
  -- client.
  pub granted-bound :
      (trace : List (Text × ℕ)) (ip : Text) (x : ℕ)
      → IsOrdered trace
      → length (keep (in_window x) (granted trace ip)) ≤ 60
  unfolding granted
  granted-bound [] ip x h = omega arith
  granted-bound ((jp, now) ∷ earlier) ip x (late, h) =
      granted_step x now (granted earlier ip)
        (text_eq jp ip && (allow ticks (run earlier) jp now).0)
        (granted_few earlier jp ip now late h) (granted-bound earlier ip x h)
