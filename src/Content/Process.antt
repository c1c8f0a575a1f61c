-- ===== src/Content/Process.antt =====
-- core/content/refresh_queue.py, `process_batch`. The callbacks and the file system are parameters:
-- each call returns the new state of the world, and `none` where it raises.
pub mod Counts
use quick_find.Prelude.{
  ℕ, ◌+◌, Bool, true, false, ◌&&◌, not, List, [], ◌∷◌, if◌then◌else◌, Option, none, some,
}
use quick_find.Text.{Text}
use quick_find.Content.Queue.{
  ContentRefreshQueue, ContentRefreshItem, ChangeType, created, modified, renamed, deleted,
  dequeue_batch, record_processed, record_failed, record_removed,
}

pub record Stat : Type 0 where
  pub size : ℕ
  pub mtime_ms : ℕ

-- A call that returns nothing.
pub data Done : Type 0 where
  done : Done

pub record Callbacks (W : Type 0) : Type 0 where
  pub delete_fn : Text → W → W × Option Done
  pub upsert_fn : Text → Stat → Text → W → W × Option Done
  pub extract_fn : Text → W → W × Option Text
  pub exists : Text → W → Bool
  pub stat : Text → W → Option Stat

-- What one pass of the loop leaves: the queue, the world and whether the item counts as processed.
pub record Pass (W : Type 0) : Type 0 where
  pub queue : ContentRefreshQueue
  pub world : W
  pub counted : Bool

abbrev pub pass : {W : Type 0} → ContentRefreshQueue → W → Bool → Pass W
pass q w counted = record { queue = q; world = w; counted = counted }

-- `change == RENAMED and old_path`.
unfoldable pub renamed_from : ChangeType → Text → Bool
renamed_from renamed (c ∷ s) = true
renamed_from _ _ = false

unfoldable pub is_deleted : ChangeType → Bool
is_deleted deleted = true
is_deleted _ = false

module _ {W : Type 0} (call : Callbacks W) where
  unfoldable pub upserted : ContentRefreshQueue → W × Option Done → Pass W
  upserted q (w, some _) = pass (record_processed q) w true
  upserted q (w, none) = pass (record_failed q) w false

  unfoldable pub refresh_text : ContentRefreshItem → ContentRefreshQueue → W × Option Text → Pass W
  unfolding upserted
  refresh_text item q (w, none) = pass (record_failed q) w false
  refresh_text item q (w, some []) = pass (record_failed q) w false
  refresh_text item q (w, some (c ∷ text)) = elim (call.stat item.path w) [
    | none ↦ pass (record_failed q) w false
    | some st ↦ upserted q (call.upsert_fn item.path st (c ∷ text) w)
  ]

  unfoldable pub refresh_item : ContentRefreshItem → ContentRefreshQueue → W → Pass W
  unfolding refresh_text
  refresh_item item q w =
      if call.exists item.path w
      then refresh_text item q (call.extract_fn item.path w)
      else pass (record_failed q) w false

  unfoldable pub after_delete : ContentRefreshQueue → W × Option Done → Pass W
  after_delete q (w, some _) = pass (record_removed q) w true
  after_delete q (w, none) = pass (record_failed q) w false

  unfoldable pub after_rename : ContentRefreshItem → ContentRefreshQueue → W × Option Done → Pass W
  unfolding refresh_item
  after_rename item q (w, some _) = refresh_item item (record_removed q) w
  after_rename item q (w, none) = pass (record_failed q) w false

  unfoldable pub process_item : ContentRefreshItem → ContentRefreshQueue → W → Pass W
  unfolding after_delete after_rename refresh_item is_deleted renamed_from
  process_item item q w =
      if is_deleted item.change
      then after_delete q (call.delete_fn item.path w)
      else if renamed_from item.change item.old_path
      then after_rename item q (call.delete_fn item.old_path w)
      else refresh_item item q w

  unfoldable pub process_items :
      List ContentRefreshItem → ContentRefreshQueue → W → ContentRefreshQueue × W × ℕ
  unfolding process_item
  process_items [] q w = (q, w, 0)
  process_items (item ∷ items) q w =
      let p = process_item item q w in
      let (q', w', n) = process_items items p.queue p.world in
      (q', w', (if p.counted then n + 1 else n))

  unfoldable pub process_batch : ContentRefreshQueue → W → ℕ → ContentRefreshQueue × W × ℕ
  unfolding process_items dequeue_batch
  process_batch q w max_items =
      let (q', batch) = dequeue_batch q max_items in process_items batch q' w
