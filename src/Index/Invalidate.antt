-- ===== src/Index/Invalidate.antt =====
-- core/index.py, `_invalidate_subtree_paths`: after a directory was renamed or moved, the cached
-- paths of everything below it are cleared.
pub mod Covers
pub mod Total
pub mod Cycle
use quick_find.Prelude.{ℕ, zero, suc, Bool, Option, none, some, List, [], ◌∷◌, ◌==◌, if◌then◌else◌}
use quick_find.Dict.{get, put, nat_eq}
use quick_find.Index.{FileEntry, DriveEntries, invalidate_path}

-- `children.get(p, [])`: the FRNs of the entries whose parent is `p`, in the order of the drive.
unfoldable pub children_of : DriveEntries → ℕ → List ℕ
children_of [] p = []
children_of ((frn, e) ∷ d) p =
    let rest = children_of d p in if e.parent_frn == p then frn ∷ rest else rest

-- `stack.extend(xs)`. The top of the stack comes first here.
unfoldable pub extend : List ℕ → List ℕ → List ℕ
extend [] stack = stack
extend (x ∷ xs) stack = extend xs (x ∷ stack)

-- `while stack`. `none` means that the fuel ran out with entries on the stack.
unfoldable pub invalidate_loop : ℕ → (ℕ → List ℕ) → List ℕ → DriveEntries → Option DriveEntries
unfolding extend get put invalidate_path
invalidate_loop zero children stack d = none
invalidate_loop (suc f) children [] d = some d
invalidate_loop (suc f) children (frn ∷ stack) d = elim (get d frn) [
  | none ↦ invalidate_loop f children stack d
  | some e ↦
      invalidate_loop f children (extend (children frn) stack) (put d frn (invalidate_path e))
]

unfoldable pub invalidate_subtree_paths : ℕ → DriveEntries → ℕ → Option DriveEntries
unfolding invalidate_loop children_of extend
invalidate_subtree_paths f d root_frn =
    invalidate_loop f (λ p. children_of d p) (extend (children_of d root_frn) []) d
