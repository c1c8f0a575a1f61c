-- ===== src/Tests/Content.antt =====
-- Runs of core/content/refresh_queue.py: a queue of two items, and a file system with one text file.
use quick_find.Prelude.{some, List, [], ◌∷◌, take, drop}
use quick_find.Text.{Text, codes, text_eq}
use quick_find.Content.Queue.{ContentRefreshQueue, ContentRefreshItem, modified, deleted, renamed}
use quick_find.Content.Queue.Bounds.{
  Call, call_enqueue, call_dequeue, call_processed, call_clear, IsFifo, performed, created_with,
  performed-IsFifo,
}
use quick_find.Content.Process.{Callbacks, done, process_batch}
use quick_find.Content.Process.Counts.{Tallies, process_batch-Tallies}

abbrev changed : ContentRefreshItem
changed = record { path = codes "a.txt"; change = modified; old_path = [] }

abbrev gone : ContentRefreshItem
gone = record { path = codes "b.txt"; change = deleted; old_path = [] }

abbrev moved : ContentRefreshItem
moved = record { path = codes "d.txt"; change = renamed; old_path = codes "c.txt" }

abbrev calls : List Call
calls =
    call_enqueue changed
    ∷ call_enqueue gone
    ∷ call_enqueue moved
    ∷ call_dequeue 1
    ∷ call_processed
    ∷ call_enqueue moved
    ∷ call_clear
    ∷ []

performed-IsFifo_example : IsFifo 2 (performed calls (created_with 2))
performed-IsFifo_example = performed-IsFifo 2 calls

-- The world is the list of the paths that were deleted from the cache.
abbrev callbacks : Callbacks (List Text)
callbacks = record {
  delete_fn = λ path w. (path ∷ w, some done);
  upsert_fn = λ path st text w. (w, some done);
  extract_fn = λ path w. (w, some (codes "text"));
  exists = λ path w. text_eq path (codes "a.txt");
  stat = λ path w. some (record { size = 4; mtime_ms = 1 });
}

abbrev waiting : ContentRefreshQueue
waiting = record {
  queue = changed ∷ gone ∷ moved ∷ [];
  maxlen = 10;
  processed = 0;
  failed = 0;
  removed = 0;
}

process_batch-Tallies_example :
    let (q', w', n) = process_batch callbacks waiting [] 2 in
    Tallies callbacks
      (take 2 waiting.queue)
      (record waiting { queue = drop 2 waiting.queue })
      []
      q'
      w'
      n
process_batch-Tallies_example = process_batch-Tallies callbacks waiting [] 2
