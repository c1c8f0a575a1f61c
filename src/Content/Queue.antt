-- ===== src/Content/Queue.antt =====
-- core/content/refresh_queue.py, `ContentRefreshQueue` and `enqueue_change`. Every method holds the
-- queue's lock for its whole body, so a method is one step.
pub mod Bounds
use quick_find.Prelude.{
  ℕ, zero, suc, ◌+◌, Bool, true, false, not, ◌||◌, List, [], ◌∷◌, ◌++◌, leb, if◌then◌else◌, length,
  take, drop, Option, none, some, any,
}
use quick_find.Text.{Text, Unicode, codes, text_eq}

pub data ChangeType : Type 0 where
  created modified renamed deleted : ChangeType

pub record ContentRefreshItem : Type 0 where
  pub path : Text
  pub change : ChangeType
  pub old_path : Text

pub record ContentRefreshQueue : Type 0 where
  pub queue : List ContentRefreshItem
  pub maxlen : ℕ
  pub processed : ℕ
  pub failed : ℕ
  pub removed : ℕ

pub record RefreshQueueStats : Type 0 where
  pub pending : ℕ
  pub stat_processed : ℕ
  pub stat_failed : ℕ
  pub stat_removed : ℕ

unfoldable pub new_queue : ℕ → ContentRefreshQueue
new_queue max_pending = record {
  queue = [];
  maxlen = max_pending;
  processed = 0;
  failed = 0;
  removed = 0;
}

unfoldable pub enqueue : ContentRefreshQueue → ContentRefreshItem → ContentRefreshQueue × Bool
enqueue q item =
    if leb q.maxlen (length q.queue)
    then (q, false)
    else (record q { queue = q.queue ++ item ∷ [] }, true)

-- `popleft` as often as `min(max_items, len(queue))` says.
unfoldable pub dequeue_batch :
    ContentRefreshQueue → ℕ → ContentRefreshQueue × List ContentRefreshItem
dequeue_batch q max_items = (record q { queue = drop max_items q.queue }, take max_items q.queue)

unfoldable pub record_processed : ContentRefreshQueue → ContentRefreshQueue
record_processed q = record q { processed = q.processed + 1 }

unfoldable pub record_failed : ContentRefreshQueue → ContentRefreshQueue
record_failed q = record q { failed = q.failed + 1 }

unfoldable pub record_removed : ContentRefreshQueue → ContentRefreshQueue
record_removed q = record q { removed = q.removed + 1 }

unfoldable pub stats : ContentRefreshQueue → RefreshQueueStats
stats q = record {
  pending = length q.queue;
  stat_processed = q.processed;
  stat_failed = q.failed;
  stat_removed = q.removed;
}

unfoldable pub clear : ContentRefreshQueue → ContentRefreshQueue × ℕ
clear q = (record q { queue = [] }, length q.queue)

abbrev supported_content_refresh_extensions : List Text
supported_content_refresh_extensions =
    codes "txt"
    ∷ codes "md"
    ∷ codes "csv"
    ∷ codes "log"
    ∷ codes "json"
    ∷ codes "xml"
    ∷ codes "yaml"
    ∷ codes "yml"
    ∷ codes "pdf"
    ∷ codes "docx"
    ∷ codes "pptx"
    ∷ codes "py"
    ∷ codes "js"
    ∷ codes "ts"
    ∷ codes "html"
    ∷ codes "htm"
    ∷ codes "c"
    ∷ codes "cpp"
    ∷ codes "h"
    ∷ codes "cs"
    ∷ codes "java"
    ∷ codes "rs"
    ∷ codes "go"
    ∷ codes "rb"
    ∷ codes "sh"
    ∷ codes "bat"
    ∷ codes "ps1"
    ∷ codes "cfg"
    ∷ codes "ini"
    ∷ codes "toml"
    ∷ []

-- `s.lstrip(".")`.
unfoldable pub lstrip_dots : Text → Text
lstrip_dots [] = []
lstrip_dots (c ∷ s) =
    let rest = lstrip_dots s in if text_eq (c ∷ []) (codes ".") then rest else c ∷ s

-- `extensions or SUPPORTED_…`: an empty set counts as none given.
unfoldable pub allowed_extensions : Option (List Text) → List Text
allowed_extensions none = supported_content_refresh_extensions
allowed_extensions (some []) = supported_content_refresh_extensions
allowed_extensions (some (x ∷ xs)) = x ∷ xs

-- `splitext` is `os.path.splitext(path)[1]`.
module _ (u : Unicode) (splitext : Text → Text) where
  unfoldable pub should_refresh_content : Text → Option (List Text) → Bool
  unfolding lstrip_dots allowed_extensions text_eq
  should_refresh_content path extensions =
      any (λ x. text_eq (u.lower (lstrip_dots (splitext path))) x) (allowed_extensions extensions)

  unfoldable pub enqueue_change :
      ContentRefreshQueue
      → Text
      → ChangeType
      → Text
      → Option (List Text)
      → ContentRefreshQueue × Bool
  unfolding enqueue should_refresh_content
  enqueue_change q path deleted old_path extensions =
      enqueue q (record { path = path; change = deleted; old_path = [] })
  enqueue_change q path change old_path extensions =
      if should_refresh_content path extensions
      then enqueue q (record { path = path; change = change; old_path = old_path })
      else (q, false)
