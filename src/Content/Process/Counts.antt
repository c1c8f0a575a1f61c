-- ===== src/Content/Process/Counts.antt =====
-- What `process_batch` of core/content/refresh_queue.py does to the counters, item by item.
use quick_find.Prelude.{
  ℕ, ◌+◌, ◌≡◌, refl, subst, Bool, true, false, not, ◌&&◌, List, [], ◌∷◌, if◌then◌else◌, Option,
  none, some, take, drop, Bool-cases, inl, inr,
}
use quick_find.Text.{Text}
use quick_find.Content.Queue.{
  ContentRefreshQueue, ContentRefreshItem, dequeue_batch, record_processed, record_failed,
  record_removed,
}
use quick_find.Content.Process.{
  Callbacks, Done, done, Stat, Pass, pass, process_item, process_items, process_batch, is_deleted,
  renamed_from, after_delete, after_rename, refresh_item, refresh_text, upserted,
}

module _ {W : Type 0} (call : Callbacks W) where
  -- A refresh of an item's path, from a world to a world: whether its text is stored.
  pub data Refreshed : ContentRefreshItem → W → W → Bool → Type 0 where
    absent :
        {item : ContentRefreshItem} {w : W}
        → call.exists item.path w ≡ false
        → Refreshed item w w false
    unreadable :
        {item : ContentRefreshItem} {w w₁ : W}
        → call.exists item.path w ≡ true
        → call.extract_fn item.path w ≡ (w₁, none)
        → Refreshed item w w₁ false
    textless :
        {item : ContentRefreshItem} {w w₁ : W}
        → call.exists item.path w ≡ true
        → call.extract_fn item.path w ≡ (w₁, some [])
        → Refreshed item w w₁ false
    vanished :
        {item : ContentRefreshItem} {w w₁ : W} {c : ℕ} {text : Text}
        → call.exists item.path w ≡ true
        → call.extract_fn item.path w ≡ (w₁, some (c ∷ text))
        → call.stat item.path w₁ ≡ none
        → Refreshed item w w₁ false
    unstored :
        {item : ContentRefreshItem} {w w₁ w₂ : W} {c : ℕ} {text : Text} {st : Stat}
        → call.exists item.path w ≡ true
        → call.extract_fn item.path w ≡ (w₁, some (c ∷ text))
        → call.stat item.path w₁ ≡ some st
        → call.upsert_fn item.path st (c ∷ text) w₁ ≡ (w₂, none)
        → Refreshed item w w₂ false
    stored :
        {item : ContentRefreshItem} {w w₁ w₂ : W} {c : ℕ} {text : Text} {st : Stat}
        → call.exists item.path w ≡ true
        → call.extract_fn item.path w ≡ (w₁, some (c ∷ text))
        → call.stat item.path w₁ ≡ some st
        → call.upsert_fn item.path st (c ∷ text) w₁ ≡ (w₂, some done)
        → Refreshed item w w₂ true

  -- One item: the worlds before and after, whether an entry is removed, and whether it succeeds.
  pub data Handled (item : ContentRefreshItem) (w : W) : W → Bool → Bool → Type 0 where
    dropped :
        {w' : W}
        → is_deleted item.change ≡ true
        → call.delete_fn item.path w ≡ (w', some done)
        → Handled item w w' true true
    not_dropped :
        {w' : W}
        → is_deleted item.change ≡ true
        → call.delete_fn item.path w ≡ (w', none)
        → Handled item w w' false false
    moved :
        {w₁ w' : W} {ok : Bool}
        → is_deleted item.change ≡ false
        → renamed_from item.change item.old_path ≡ true
        → call.delete_fn item.old_path w ≡ (w₁, some done)
        → Refreshed item w₁ w' ok
        → Handled item w w' true ok
    not_moved :
        {w' : W}
        → is_deleted item.change ≡ false
        → renamed_from item.change item.old_path ≡ true
        → call.delete_fn item.old_path w ≡ (w', none)
        → Handled item w w' false false
    changed :
        {w' : W} {ok : Bool}
        → is_deleted item.change ≡ false
        → renamed_from item.change item.old_path ≡ false
        → Refreshed item w w' ok
        → Handled item w w' false ok

  abbrev pub count : Bool → ℕ → ℕ
  count b n = if b then n + 1 else n

  -- The counters that handling an item leaves. An item that succeeds counts as processed, but a
  -- deletion, which counts as removed only.
  abbrev pub tallied : ContentRefreshItem → Bool → Bool → ContentRefreshQueue → ContentRefreshQueue
  tallied item removed ok q = record q {
    processed = count (not (is_deleted item.change) && ok) q.processed;
    failed = count (not ok) q.failed;
    removed = count removed q.removed;
  }

  -- The items of a batch in their order, with the number of those that succeed.
  pub data Tallies
      : List ContentRefreshItem
        → ContentRefreshQueue
        → W
        → ContentRefreshQueue
        → W
        → ℕ
        → Type 0 where
    nothing : {q : ContentRefreshQueue} {w : W} → Tallies [] q w q w 0
    next :
        {item : ContentRefreshItem} {items : List ContentRefreshItem} {q q' : ContentRefreshQueue}
        {w w₁ w' : W} {n : ℕ} {removed ok : Bool}
        → Handled item w w₁ removed ok
        → Tallies items (tallied item removed ok q) w₁ q' w' n
        → Tallies (item ∷ items) q w q' w' (count ok n)

  abbrev RefreshTallied : ContentRefreshItem → ContentRefreshQueue → W → Pass W → Type 0
  RefreshTallied item q w p =
      Refreshed item w p.world p.counted
      × (p.queue ≡ record q {
        processed = count p.counted q.processed;
        failed = count (not p.counted) q.failed;
      })

  upserted-Tallied :
      (item : ContentRefreshItem) (q : ContentRefreshQueue) (w w₁ : W) (c : ℕ) (text : Text)
      (st : Stat) (r : W × Option Done)
      → call.exists item.path w ≡ true
      → call.extract_fn item.path w ≡ (w₁, some (c ∷ text))
      → call.stat item.path w₁ ≡ some st
      → call.upsert_fn item.path st (c ∷ text) w₁ ≡ r
      → RefreshTallied item q w (upserted call q r)
  unfolding upserted record_processed record_failed
  upserted-Tallied item q w w₁ c text st (w₂, some done) here read size e =
      (stored here read size e, refl)
  upserted-Tallied item q w w₁ c text st (w₂, none) here read size e =
      (unstored here read size e, refl)

  refresh_text-Tallied :
      (item : ContentRefreshItem) (q : ContentRefreshQueue) (w : W) (r : W × Option Text)
      → call.exists item.path w ≡ true
      → call.extract_fn item.path w ≡ r
      → RefreshTallied item q w (refresh_text call item q r)
  unfolding refresh_text record_failed
  refresh_text-Tallied item q w (w₁, none) here e = (unreadable here e, refl)
  refresh_text-Tallied item q w (w₁, some []) here e = (textless here e, refl)
  refresh_text-Tallied item q w (w₁, some (c ∷ text)) here e = by_stat (call.stat item.path w₁) refl
    where
      by_stat :
          (o : Option Stat)
          → call.stat item.path w₁ ≡ o
          → RefreshTallied item q w (elim o [
            | none ↦ pass (record_failed q) w₁ false
            | some st ↦ upserted call q (call.upsert_fn item.path st (c ∷ text) w₁)
          ])
      by_stat none e' = (vanished here e e', refl)
      by_stat (some st) e' = upserted-Tallied item q w w₁ c text st _ here e e' refl

  refresh_item-Tallied :
      (item : ContentRefreshItem) (q : ContentRefreshQueue) (w : W)
      → RefreshTallied item q w (refresh_item call item q w)
  unfolding refresh_item record_failed
  refresh_item-Tallied item q w = elim (Bool-cases (call.exists item.path w)) [
    | inl e ↦ rw e (refresh_text-Tallied item q w (call.extract_fn item.path w) e refl)
    | inr e ↦ rw e (absent e, refl)
  ]

  abbrev ItemTallied : ContentRefreshItem → ContentRefreshQueue → W → Pass W → Type 0
  ItemTallied item q w p =
      (removed : Bool) × Handled item w p.world removed p.counted
      × (p.queue ≡ tallied item removed p.counted q)

  after_delete-Tallied :
      (item : ContentRefreshItem) (q : ContentRefreshQueue) (w : W) (r : W × Option Done)
      → is_deleted item.change ≡ true
      → call.delete_fn item.path w ≡ r
      → ItemTallied item q w (after_delete call q r)
  unfolding after_delete record_removed record_failed
  after_delete-Tallied item q w (w', some done) d e = (true, dropped d e, rw d refl)
  after_delete-Tallied item q w (w', none) d e = (false, not_dropped d e, rw d refl)

  after_rename-Tallied :
      (item : ContentRefreshItem) (q : ContentRefreshQueue) (w : W) (r : W × Option Done)
      → is_deleted item.change ≡ false
      → renamed_from item.change item.old_path ≡ true
      → call.delete_fn item.old_path w ≡ r
      → ItemTallied item q w (after_rename call item q r)
  unfolding after_rename record_removed record_failed
  after_rename-Tallied item q w (w', some done) d m e =
      let (done_so, counters) = refresh_item-Tallied item (record_removed q) w' in
      (true, moved d m e done_so, rw d counters)
  after_rename-Tallied item q w (w', none) d m e = (false, not_moved d m e, rw d refl)

  process_item-Tallied :
      (item : ContentRefreshItem) (q : ContentRefreshQueue) (w : W)
      → ItemTallied item q w (process_item call item q w)
  unfolding process_item
  process_item-Tallied item q w =
      if-Tallied (is_deleted item.change) _ _
        (λ d. after_delete-Tallied item q w (call.delete_fn item.path w) d refl)
        λ d.
          if-Tallied (renamed_from item.change item.old_path) _ _
            (λ m. after_rename-Tallied item q w (call.delete_fn item.old_path w) d m refl)
            λ m.
              let (done_so, counters) = refresh_item-Tallied item q w in
              (false, changed d m done_so, rw d counters)
    where
      if-Tallied :
          (b : Bool) (one other : Pass W)
          → (b ≡ true → ItemTallied item q w one)
          → (b ≡ false → ItemTallied item q w other)
          → ItemTallied item q w (if b then one else other)
      if-Tallied true one other h k = h refl
      if-Tallied false one other h k = k refl

  process_items-Tallies :
      (items : List ContentRefreshItem) (q : ContentRefreshQueue) (w : W)
      → let (q', w', n) = process_items call items q w in Tallies items q w q' w' n
  unfolding process_items
  process_items-Tallies [] q w = nothing
  process_items-Tallies (item ∷ items) q w =
      let p = process_item call item q w in
      let (removed, handled, counters) = process_item-Tallied item q w in
      let rest = process_items-Tallies items p.queue p.world in
      let (q', w', n) = process_items call items p.queue p.world in
      next handled (subst (λ q₁. Tallies items q₁ p.world q' w' n) counters rest)

  -- A batch takes the first `max_items` waiting items (all, where there are fewer), keeps the
  -- others, and handles the items in order, each in the world that the one before has left. An item
  -- of a deletion deletes its path's entry; one of a rename deletes the old path's and then
  -- refreshes the new path, every other refreshes its path. A deletion of an entry that succeeds
  -- counts as removed; a refresh that stores a text counts as processed, a call that raises and a
  -- refresh that stores nothing as failed; the returned number is that of the items that do not
  -- fail, and nothing else moves a counter.
  pub process_batch-Tallies :
      (q : ContentRefreshQueue) (w : W) (max_items : ℕ)
      → let (q', w', n) = process_batch call q w max_items in
        Tallies (take max_items q.queue) (record q { queue = drop max_items q.queue }) w q' w' n
  unfolding process_batch dequeue_batch
  process_batch-Tallies q w max_items =
      process_items-Tallies (take max_items q.queue) (record q { queue = drop max_items q.queue }) w
