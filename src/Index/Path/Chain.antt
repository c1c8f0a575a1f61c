-- ===== src/Index/Path/Chain.antt =====
-- The walk of `resolve_path` ends on every index, cyclic ones too, and along a chain of parents
-- that reaches the root it finds the names of that chain.
use quick_find.Prelude.{
  ℕ, zero, suc, ◌+◌, ◌≤◌, ◌<◌, ◌≡◌, ◌≢◌, refl, true, false, none, some, List, [], ◌∷◌, arith, ◌==◌,
  ==_iff, if◌then◌else◌, length, Bool-cases, inl, inr, Option-cases, subst, ap,
}
use mathlib.Core.List.{reverse}
use quick_find.Text.{Text, Unicode}
use quick_find.Dict.{Dict, get, nat_eq}
use quick_find.Index.{FileEntry, DriveEntries, ntfs_root_frn, SourceRoots}
use quick_find.Index.Path.{
  seen, walk, walk_fuel, path_parts, entries_of, entries_key, drive_path, resolve_path,
}

-- How many items of the drive have an FRN that was not visited yet.
unseen : List ℕ → DriveEntries → ℕ
unseen visited [] = 0
unseen visited ((k, e) ∷ d) = (if seen k visited then 0 else 1) + unseen visited d

unseen-le :
    (visited : List ℕ) (x : ℕ) (d : DriveEntries) → unseen (x ∷ visited) d ≤ unseen visited d
unfolding unseen seen
unseen-le visited x [] = omega arith
unseen-le visited x ((k, e) ∷ d) = ground (arith, unseen-le visited x d)

-- Visiting an FRN of the drive for the first time leaves fewer to visit.
unseen-lt :
    (visited : List ℕ) (x : ℕ) (d : DriveEntries) (e : FileEntry)
    → get d x ≡ some e
    → seen x visited ≡ false
    → unseen (x ∷ visited) d < unseen visited d
unfolding unseen seen get
unseen-lt visited x [] e found new = cc
unseen-lt visited x ((k, e') ∷ d) e found new =
    ground (arith, unseen-le visited x d, unseen-lt visited x d e, ==_iff k x)

unseen-le-length : (visited : List ℕ) (d : DriveEntries) → unseen visited d ≤ length d
unfolding unseen
unseen-le-length visited [] = omega arith
unseen-le-length visited ((k, e) ∷ d) = ground (arith, unseen-le-length visited d)

walk_total :
    (f : ℕ) (d : DriveEntries) (visited : List ℕ) (x : ℕ)
    → unseen visited d < f
    → walk f d visited x ≢ none
unfolding walk
walk_total zero d visited x h = absurd (omega arith)
walk_total (suc f) d visited x h = elim (Option-cases (get d x)) [
  | inl missing ↦ ground arith
  | inr (e, found) ↦ elim (Bool-cases (seen x visited)) [
    | inl old ↦ ground arith
    | inr new ↦
        ground (arith, unseen-lt visited x d e found new, walk_total f d (x ∷ visited) e.parent_frn)
  ]
]

-- The walk of `resolve_path` ends whatever the parent links are, cycles included: a round for each
-- entry of the drive and one more is enough.
pub walk-ne-none : (d : DriveEntries) (x : ℕ) → walk (walk_fuel d) d [] x ≢ none
walk-ne-none d x = walk_total (walk_fuel d) d [] x (omega (arith, unseen-le-length [] d))

-- Following parents from `x` reaches the root of the volume, past entries of these names.
abbrev pub IsChain : DriveEntries → ℕ → List Text → Type 0
IsChain d x [] = x ≡ ntfs_root_frn
IsChain d x (n ∷ ns) =
    (e : FileEntry) × (get d x ≡ some e)
    × (x ≢ 0)
    × (x ≢ ntfs_root_frn)
    × (e.name ≡ n)
    × IsChain d e.parent_frn ns

-- An FRN has one chain at most.
IsChain-length :
    (d : DriveEntries) (x : ℕ) (ns ms : List Text)
    → IsChain d x ns
    → IsChain d x ms
    → length ns ≡ length ms
IsChain-length d x [] [] h k = refl
IsChain-length d x [] (m ∷ ms) h k = absurd (k.3 h)
IsChain-length d x (n ∷ ns) [] h k = absurd (h.3 k)
IsChain-length d x (n ∷ ns) (m ∷ ms) (e, found, _, _, _, up) (e', found', _, _, _, up') =
    let same : e' ≡ e = cc (found, found') in
    let up'' : IsChain d e.parent_frn ms =
      subst (λ (a : FileEntry). IsChain d a.parent_frn ms) same up' in
    ap suc (IsChain-length d e.parent_frn ns ms up up'')

-- The walk from `x` meets nothing that it visited: those have longer chains.
abbrev Longer : DriveEntries → List ℕ → ℕ → Type 0
Longer d visited n =
    (v : ℕ) (ms : List Text) → seen v visited ≡ true → IsChain d v ms → n < length ms

walk-IsChain :
    (f : ℕ) (d : DriveEntries) (visited : List ℕ) (x : ℕ) (ns r : List Text)
    → IsChain d x ns
    → Longer d visited (length ns)
    → walk f d visited x ≡ some r
    → r ≡ ns
unfolding walk
walk-IsChain zero d visited x ns r c l h = cc
walk-IsChain (suc f) d visited x [] r c l h = elim (Bool-cases (seen x visited)) [
  | inl old ↦ absurd (omega (arith, l x [] old c))
  | inr new ↦ ground arith
]
walk-IsChain (suc f) d visited x (n ∷ ns) r (e, found, not_zero, not_root, name, up) l h =
    elim (Bool-cases (seen x visited)) [
      | inl old ↦ absurd (omega (arith, l x (n ∷ ns) old (e, found, not_zero, not_root, name, up)))
      | inr new ↦ elim (Option-cases (walk f d (x ∷ visited) e.parent_frn)) [
        | inl stuck ↦ ground arith
        | inr (rest, more) ↦
            let ih = walk-IsChain f d (x ∷ visited) e.parent_frn ns rest up later more in
            ground (arith, ih)
      ]
    ]
  where
    later : Longer d (x ∷ visited) (length ns)
    later v ms old c = elim (Bool-cases (v == x)) [
      | inl same ↦
          let e' : v ≡ x = (==_iff v x).0 same in
          omega (
            arith,
            IsChain-length d x (n ∷ ns) ms (e, found, not_zero, not_root, name, up)
                (subst (λ y. IsChain d y ms) e' c),
          )
      | inr other ↦ omega (arith, l v ms (ground arith) c)
    ]

pub path_parts-IsChain :
    (d : DriveEntries) (x : ℕ) (ns : List Text) → IsChain d x ns → path_parts d x ≡ reverse ns
unfolding path_parts seen
path_parts-IsChain d x ns c = elim (Option-cases (walk (walk_fuel d) d [] x)) [
  | inl stuck ↦ absurd (walk-ne-none d x stuck)
  | inr (r, found) ↦
      rw (found, path_parts)
        (ap (λ (t : List Text). reverse t)
          (walk-IsChain (walk_fuel d) d [] x ns r c (λ v ms s. cc) found))
]

-- On a drive that is no network or POSIX source, an entry whose parents lead to the root of the
-- volume has the drive's root with the names of that chain, outermost first, as its path. The
-- paths cached in the entries do not enter into it.
pub resolve_path-IsChain :
    (u : Unicode) (join : Text → List Text → Text) (roots : SourceRoots)
    (index : Dict Text DriveEntries) (drive : Text) (x : ℕ) (ns : List Text)
    → roots drive ≡ none
    → IsChain (entries_of index (entries_key u drive)) x ns
    → resolve_path u join roots index drive x ≡ drive_path (entries_key u drive) (reverse ns)
unfolding resolve_path
resolve_path-IsChain u join roots index drive x ns local c =
    rw (local, resolve_path)
      (ap (λ (ps : List Text). drive_path (entries_key u drive) ps)
        (path_parts-IsChain (entries_of index (entries_key u drive)) x ns c))
