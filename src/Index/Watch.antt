-- ===== src/Index/Watch.antt =====
-- core/index.py, the watcher of native roots: `notify` and `_pop_due_roots`, which the thread calls
-- in turns. Times are readings of the monotonic clock.
use quick_find.Prelude.{
  ℕ, ◌+◌, ◌≤◌, ◌≡◌, refl, Bool, true, false, not, ◌&&◌, ◌||◌, List, [], ◌∷◌, ◌++◌, if◌then◌else◌,
  some, any, leb, arith, Bool-cases, inl, inr,
}
use quick_find.Text.{Text, text_eq}
use quick_find.Dict.{Dict, get, put, text_key, get-put, get-put_self}

-- The time of the last event of each root that waits.
abbrev pub Pending : Type 0
Pending = Dict Text ℕ

unfoldable pub notify : Pending → Text → ℕ → Pending
unfolding put
notify pending root_key now = put pending root_key now

-- What the thread sees: an event below a root, or its own turn.
pub data Event : Type 0 where
  notified : (root_key : Text) (now : ℕ) → Event
  turn : (now : ℕ) → Event

module _ (debounce : ℕ) where
  unfoldable pub pop_due_roots : Pending → ℕ → List Text × Pending
  pop_due_roots [] now = ([], [])
  pop_due_roots ((root_key, last_event) ∷ pending) now =
      let rest = pop_due_roots pending now in
      if leb (last_event + debounce) now
      then (root_key ∷ rest.0, rest.1)
      else (rest.0, (root_key, last_event) ∷ rest.1)

  -- The roots that are reported, in order, and what is left.
  unfoldable pub watch : Pending → List Event → List Text × Pending
  unfolding notify pop_due_roots
  watch pending [] = ([], pending)
  watch pending (notified root_key now ∷ events) = watch (notify pending root_key now) events
  watch pending (turn now ∷ events) =
      let due = pop_due_roots pending now in
      let rest = watch due.1 events in (due.0 ++ rest.0, rest.1)

  abbrev pub reports : Text → List Text → Bool
  reports root_key keys = any (λ k. text_eq k root_key) keys

  reports-append :
      (root_key : Text) (ks js : List Text)
      → reports root_key (ks ++ js) ≡ (reports root_key ks || reports root_key js)
  reports-append root_key [] js = refl
  reports-append root_key (k ∷ ks) js = ground (arith, reports-append root_key ks js)

  -- A root that waits is reported once it is due, and waits on before.
  pop_due_roots-due :
      (pending : Pending) (root_key : Text) (last now : ℕ)
      → get pending root_key ≡ some last
      → leb (last + debounce) now ≡ true
      → reports root_key (pop_due_roots pending now).0 ≡ true
  unfolding pop_due_roots get
  pop_due_roots-due [] root_key last now h due = ground (arith, h)
  pop_due_roots-due ((k, t) ∷ pending) root_key last now h due =
      ground (arith, h, due, pop_due_roots-due pending root_key last now)

  pop_due_roots-get :
      (pending : Pending) (root_key : Text) (last now : ℕ)
      → get pending root_key ≡ some last
      → leb (last + debounce) now ≡ false
      → get (pop_due_roots pending now).1 root_key ≡ some last
  unfolding pop_due_roots get
  pop_due_roots-get [] root_key last now h due = ground (arith, h)
  pop_due_roots-get ((k, t) ∷ pending) root_key last now h due =
      ground (arith, h, due, pop_due_roots-get pending root_key last now)

  -- No event below the root.
  abbrev pub quiet : Text → List Event → Bool
  quiet root_key [] = true
  quiet root_key (notified k now ∷ events) = not (text_eq k root_key) && quiet root_key events
  quiet root_key (turn now ∷ events) = quiet root_key events

  waiting-reports :
      (pending : Pending) (root_key : Text) (last now : ℕ) (events : List Event)
      → get pending root_key ≡ some last
      → quiet root_key events ≡ true
      → leb (last + debounce) now ≡ true
      → reports root_key (watch pending (events ++ (turn now ∷ []))).0 ≡ true
  unfolding watch notify
  waiting-reports pending root_key last now [] h calm due = ground (
    arith,
    pop_due_roots-due pending root_key last now h due,
    reports-append root_key (pop_due_roots pending now).0 [],
  )
  waiting-reports pending root_key last now (notified k at ∷ events) h calm due =
      waiting-reports (put pending k at) root_key last now events
        (ground (arith, calm, h, get-put pending k root_key at)) (ground (arith, calm)) due
  waiting-reports pending root_key last now (turn at ∷ events) h calm due =
      elim (Bool-cases (leb (last + debounce) at)) [
        | inl early ↦ ground (
          arith,
          pop_due_roots-due pending root_key last at h early,
          reports-append root_key (pop_due_roots pending at).0
              (watch (pop_due_roots pending at).1 (events ++ (turn now ∷ []))).0,
        )
        | inr wait ↦ ground (
          arith,
          waiting-reports (pop_due_roots pending at).1 root_key last now events
              (pop_due_roots-get pending root_key last at h wait) calm due,
          reports-append root_key (pop_due_roots pending at).0
              (watch (pop_due_roots pending at).1 (events ++ (turn now ∷ []))).0,
        )
      ]

  -- A root with an event is reported, by the next turn at which the debounce has passed at the
  -- latest, if no other event of the root comes before that.
  pub watch-reports :
      (pending : Pending) (root_key : Text) (last now : ℕ) (events : List Event)
      → quiet root_key events ≡ true
      → last + debounce ≤ now
      → reports root_key (watch (notify pending root_key last) (events ++ (turn now ∷ []))).0 ≡ true
  unfolding notify
  watch-reports pending root_key last now events calm due =
      waiting-reports (put pending root_key last) root_key last now events
        (get-put_self pending root_key last) calm (ground (arith, due))
