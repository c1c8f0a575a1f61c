-- ===== src/Index/Apply/Checkpoints.antt =====
-- When a checkpoint is written, and when it is trusted.
use quick_find.Prelude.{
  ℕ, ◌≤◌, ◌<◌, ◌≡◌, ◌⊎◌, ◌↔◌, inl, inr, refl, sym, Bool, true, false, ◌||◌, ◌&&◌, Option, none,
  some, List, [], ◌∷◌, ◌++◌, arith, subst, if◌then◌else◌, Any, All, Bool-cases, Option-cases,
  truthy,
}
use quick_find.Text.{Text, Unicode, text_eq}
use quick_find.Dict.{Dict, get, text_key}
use quick_find.Index.{SourceRoots}
use quick_find.Index.Flat.{Ref}
use quick_find.Index.Usn.{UsnRecord, Batch, apply_changes}
use quick_find.Index.Apply.{
  Volume, FileIndex, Checkpoint, insert_sorted, text_lt, touched_drives, checkpoint_of,
  persist_usn_checkpoints, finish, apply_usn_changes, start, catchup, usn_resume_decision,
  nothing_written,
}

-- A saved position is replayed from exactly when the journal is the one it was saved for, the
-- position is set, and the journal still reaches back to it (or does not say how far it reaches).
pub usn_resume_decision_iff :
    (saved_id saved_usn vol_id vol_first : ℕ)
    → (usn_resume_decision saved_id saved_usn vol_id vol_first ≡ catchup)
      ↔ ((saved_id ≡ vol_id) × (0 < saved_usn) × ((vol_first ≡ 0) ⊎ (vol_first ≤ saved_usn)))
unfolding usn_resume_decision
usn_resume_decision_iff a b c d =
    (λ h. (ground arith, ground arith, ground arith), λ h. ground arith)

-- What a checkpoint says: the drive was touched, and this is where its volume now stands.
abbrev pub IsCurrent : FileIndex → List (Text × UsnRecord) → Checkpoint → Type 0
IsCurrent s changes c =
    (get s.volumes c.drive ≡ some (record { journal_id = c.journal_id; current_usn = c.next_usn }))
    × (0 < c.journal_id)
    × (0 < c.next_usn)
    × Any (λ (drive, r). drive ≡ c.drive) changes

insert_sorted-Any :
    (P : Text → Type 0) (t : Text) (ts : List Text) → Any P (insert_sorted t ts) → P t ⊎ Any P ts
unfolding insert_sorted
insert_sorted-Any P t [] (inl p) = inl p
insert_sorted-Any P t [] (inr i) = absurd i
insert_sorted-Any P t (s ∷ ts) i = pick (Bool-cases (text_eq t s)) (insert_sorted-Any P t ts)
  where
    later :
        (Any P (insert_sorted t ts) → P t ⊎ Any P ts)
        → P s ⊎ Any P (insert_sorted t ts)
        → P t ⊎ Any P (s ∷ ts)
    later ih (inl p) = inr (inl p)
    later ih (inr j) = elim (ih j) [ inl p ↦ inl p | inr k ↦ inr (inr k) ]

    place :
        (Any P (insert_sorted t ts) → P t ⊎ Any P ts)
        → (b : Bool) → Any P (if b then t ∷ s ∷ ts else s ∷ insert_sorted t ts)
        → P t ⊎ Any P (s ∷ ts)
    place ih true (inl p) = inl p
    place ih true (inr j) = inr j
    place ih false j = later ih j

    pick :
        (text_eq t s ≡ true) ⊎ (text_eq t s ≡ false)
        → (Any P (insert_sorted t ts) → P t ⊎ Any P ts)
        → P t ⊎ Any P (s ∷ ts)
    pick (inl same) ih = inr (rw (same, insert_sorted) at i)
    pick (inr other) ih = place ih (text_lt t s) (rw (other, insert_sorted) at i)

touched_drives-Any :
    (P : Text → Type 0) (changes : List (Text × UsnRecord))
    → Any P (touched_drives changes)
    → Any (λ (c : Text × UsnRecord). P c.0) changes
unfolding touched_drives
touched_drives-Any P [] i = absurd i
touched_drives-Any P ((drive, r) ∷ changes) i =
    elim (insert_sorted-Any P drive (touched_drives changes) i) [
      | inl p ↦ inl p
      | inr j ↦ inr (touched_drives-Any P changes j)
    ]

All-append :
    (P : Checkpoint → Type 0) (xs ys : List Checkpoint) → All P xs → All P ys → All P (xs ++ ys)
All-append P [] ys hx hy = hy
All-append P (x ∷ xs) ys hx hy = (hx.0, All-append P xs ys hx.1 hy)

-- What the loop over the drives writes for a drive, and nothing else.
abbrev Writes : (Checkpoint → Type 0) → Dict Text Volume → Text → Type 0
Writes P volumes drive =
    (v : Volume)
    → get volumes drive ≡ some v
    → 0 < v.journal_id
    → 0 < v.current_usn
    → P (record { drive = drive; journal_id = v.journal_id; next_usn = v.current_usn })

checkpoint_of-All :
    (P : Checkpoint → Type 0) (volumes : Dict Text Volume) (drive : Text)
    → Writes P volumes drive
    → (o : Option Volume) → get volumes drive ≡ o
    → All P (checkpoint_of drive o)
unfolding checkpoint_of
checkpoint_of-All P volumes drive w none e = tt
checkpoint_of-All P volumes drive w (some v) e =
    test (truthy v.journal_id && truthy v.current_usn) refl
  where
    test :
        (b : Bool)
        → (truthy v.journal_id && truthy v.current_usn) ≡ b
        → All P (
            if b
            then record { drive = drive; journal_id = v.journal_id; next_usn = v.current_usn } ∷ []
            else [])
    test true h = (w v e (ground arith) (ground arith), tt)
    test false h = tt

persist_usn_checkpoints-All :
    (P : Checkpoint → Type 0) (volumes : Dict Text Volume) (drives : List Text)
    → ((drive : Text) → Any (λ d. d ≡ drive) drives → Writes P volumes drive)
    → All P (persist_usn_checkpoints volumes drives)
unfolding persist_usn_checkpoints
persist_usn_checkpoints-All P volumes [] w = tt
persist_usn_checkpoints-All P volumes (drive ∷ drives) w =
    All-append P (checkpoint_of drive (get volumes drive)) (persist_usn_checkpoints volumes drives)
      (checkpoint_of-All P volumes drive (w drive (inl refl)) (get volumes drive) refl)
      (persist_usn_checkpoints-All P volumes drives (λ d i. w d (inr i)))

module _ (u : Unicode) (join : Text → List Text → Text) (roots : SourceRoots)
    (fnmatch : Text → Text → Bool)
    (db_batch_apply : List (Ref × Text) → List Ref → List (Ref × Text) → Bool) where
  finish-IsCurrent :
      (s s' : FileIndex) (changes : List (Text × UsnRecord)) (written : List Checkpoint) (b : Batch)
      → finish u join roots fnmatch db_batch_apply s changes b ≡ (s', written)
      → All (λ c. IsCurrent s changes c) written
        × ((written ≡ [])
            ⊎ ((nothing_written b || db_batch_apply b.db_inserts b.db_deletes b.db_updates) ≡ true))
  unfolding finish
  finish-IsCurrent s s' changes written b h =
      let stored = nothing_written b || db_batch_apply b.db_inserts b.db_deletes b.db_updates in
      elim (Bool-cases stored) [
        | inl yes_stored ↦
            let is : persist_usn_checkpoints s.volumes (touched_drives changes) ≡ written =
              ground arith in
            (
              subst (λ cs. All (λ c. IsCurrent s changes c) cs) is
                  (persist_usn_checkpoints-All (λ c. IsCurrent s changes c) s.volumes
                    (touched_drives changes)
                    λ drive i v e id usn.
                      (e, id, usn, touched_drives-Any (λ d. d ≡ drive) changes i)),
              inr yes_stored,
            )
        | inr not_stored ↦
            let is : [] ≡ written = ground arith in
            (subst (λ cs. All (λ c. IsCurrent s changes c) cs) is tt, inl (sym is))
      ]

  -- Checkpoints are written only if the cache took the rows of the batch (or there were none), and
  -- each is the current position, with a journal id, of a volume that the batch was about.
  pub apply_usn_changes-IsCurrent :
      (fuel : ℕ) (s s' : FileIndex) (changes : List (Text × UsnRecord)) (written : List Checkpoint)
      → apply_usn_changes u join roots fnmatch db_batch_apply fuel s changes ≡ some (s', written)
      → All (λ c. IsCurrent s changes c) written
        × ((written ≡ [])
            ⊎ ((b : Batch) × (apply_changes u join roots fuel (start s) changes ≡ some b)
                × ((nothing_written b || db_batch_apply b.db_inserts b.db_deletes b.db_updates)
                    ≡ true)))
  unfolding apply_usn_changes
  apply_usn_changes-IsCurrent fuel s s' [] written h =
      let none_written : [] ≡ written = cc in (rw (← none_written) tt, inl (sym none_written))
  apply_usn_changes-IsCurrent fuel s s' (c ∷ changes) written h =
      elim (Option-cases (apply_changes u join roots fuel (start s) (c ∷ changes))) [
        | inl out ↦ ground arith
        | inr (b, loop) ↦
            let done : finish u join roots fnmatch db_batch_apply s (c ∷ changes) b
                ≡ (s', written) =
              ground arith in
            let (all, why) = finish-IsCurrent s s' (c ∷ changes) written b done in
            (all, elim why [ inl n ↦ inl n | inr ok ↦ inr (b, loop, ok) ])
      ]
