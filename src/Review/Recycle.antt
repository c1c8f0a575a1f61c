-- ===== src/Review/Recycle.antt =====
-- core/duplicate_review.py, `safe_recycle`. Recycling a file changes what exists, so the world is
-- passed on; `recycler` and `exists` are parameters.
use quick_find.Prelude.{
  ◌≡◌, refl, inl, inr, Option, none, some, Bool, true, false, List, [], ◌∷◌, if◌then◌else◌,
  Bool-cases,
}
use quick_find.Text.{Text, codes}
use quick_find.Review.{RemediationResult, Recycled, done, refused, raised}

-- A path that does not exist is skipped.
unfoldable pub recorded : Text → Option Recycled → RemediationResult → RemediationResult
recorded path none r = record r { skipped = path ∷ r.skipped }
recorded path (some done) r = record r { recycled = path ∷ r.recycled }
recorded path (some refused) r = record r {
  failed = (path, codes "Recycle operation returned False") ∷ r.failed;
}
recorded path (some (raised message)) r = record r { failed = (path, message) ∷ r.failed }

module _ {W : Type 0} (exists : Text → W → Bool) (recycler : Text → W → W × Recycled) where
  unfoldable pub attempt : Text → W → W × Option Recycled
  attempt path w =
      let (w', outcome) = recycler path w in if exists path w then (w', some outcome) else (w, none)

  -- The result is built from the last path, so that each list is in the order of the paths.
  unfoldable pub safe_recycle : List Text → W → W × RemediationResult
  unfolding attempt recorded
  safe_recycle [] w = (w, record { recycled = []; failed = []; skipped = [] })
  safe_recycle (path ∷ paths) w =
      let (w₁, outcome) = attempt path w in
      let (w₂, r) = safe_recycle paths w₁ in (w₂, recorded path outcome r)

-- From a world to the world that `safe_recycle` leaves: the paths, in their order, dealt out to the
-- recycled, the failed and the skipped ones, each by what the file system and the recycler say of it
-- when its turn comes.
pub data Dealt {W : Type 0} (exists : Text → W → Bool) (recycler : Text → W → W × Recycled)
    : W → List Text → W → List Text → List (Text × Text) → List Text → Type 0 where
  nothing : {w : W} → Dealt exists recycler w [] w [] [] []
  to_skipped :
      {path : Text} {w w' : W} {ps r s : List Text} {f : List (Text × Text)}
      → exists path w ≡ false
      → Dealt exists recycler w ps w' r f s
      → Dealt exists recycler w (path ∷ ps) w' r f (path ∷ s)
  to_recycled :
      {path : Text} {w w₁ w' : W} {ps r s : List Text} {f : List (Text × Text)}
      → exists path w ≡ true
      → recycler path w ≡ (w₁, done)
      → Dealt exists recycler w₁ ps w' r f s
      → Dealt exists recycler w (path ∷ ps) w' (path ∷ r) f s
  to_refused :
      {path : Text} {w w₁ w' : W} {ps r s : List Text} {f : List (Text × Text)}
      → exists path w ≡ true
      → recycler path w ≡ (w₁, refused)
      → Dealt exists recycler w₁ ps w' r f s
      → Dealt exists recycler w
          (path ∷ ps)
          w'
          r
          ((path, codes "Recycle operation returned False") ∷ f)
          s
  to_failed :
      {path message : Text} {w w₁ w' : W} {ps r s : List Text} {f : List (Text × Text)}
      → exists path w ≡ true
      → recycler path w ≡ (w₁, raised message)
      → Dealt exists recycler w₁ ps w' r f s
      → Dealt exists recycler w (path ∷ ps) w' r ((path, message) ∷ f) s

module _ {W : Type 0} (exists : Text → W → Bool) (recycler : Text → W → W × Recycled) where
  -- Where the path exists, and the recycler has given `o`.
  called-Dealt :
      (path : Text) (ps : List Text) (w w₁ w' : W) (o : Recycled) (r : RemediationResult)
      → exists path w ≡ true
      → recycler path w ≡ (w₁, o)
      → Dealt exists recycler w₁ ps w' r.recycled r.failed r.skipped
      → let r' = recorded path (some o) r in
        Dealt exists recycler w (path ∷ ps) w' r'.recycled r'.failed r'.skipped
  unfolding recorded
  called-Dealt path ps w w₁ w' done r here e d = to_recycled here e d
  called-Dealt path ps w w₁ w' refused r here e d = to_refused here e d
  called-Dealt path ps w w₁ w' (raised message) r here e d = to_failed here e d

  -- Whatever the file system and the recycler do: a path that does not exist when its turn comes is
  -- skipped without a call of the recycler; every other is given to it, and reported as recycled if
  -- it succeeds, and as failed with its message if it refuses or raises. Each path is reported once,
  -- and each of the three lists is in the order of the paths.
  pub safe_recycle-Dealt :
      (paths : List Text) (w : W)
      → let (w', r) = safe_recycle exists recycler paths w in
        Dealt exists recycler w paths w' r.recycled r.failed r.skipped
  unfolding safe_recycle attempt recorded
  safe_recycle-Dealt [] w = nothing
  safe_recycle-Dealt (path ∷ paths) w = elim (Bool-cases (exists path w)) [
    | inl e ↦ rw (e) (
        called-Dealt path paths w (recycler path w).0 _ (recycler path w).1 _ e refl
          (safe_recycle-Dealt paths (recycler path w).0))
    | inr e ↦ rw (e) (to_skipped e (safe_recycle-Dealt paths w))
  ]
