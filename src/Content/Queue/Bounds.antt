-- ===== src/Content/Queue/Bounds.antt =====
-- The queue of core/content/refresh_queue.py over a run of its methods: its bound, and the order
-- in which it serves.
use quick_find.Prelude.{
  ℕ, ◌≤◌, ◌≡◌, ◌⊎◌, suc, refl, inl, inr, ap, ◌∙◌, sym, Bool, true, false, List, [], ◌∷◌, ◌++◌, leb,
  length, take, drop, Bool-cases, take-append-drop, append_assoc, append-nil, length-append,
  length-drop, arith,
}
use quick_find.Content.Queue.{
  ContentRefreshQueue, ContentRefreshItem, new_queue, enqueue, dequeue_batch, record_processed,
  record_failed, record_removed, clear,
}

-- One call of a method that changes the queue.
pub data Call : Type 0 where
  call_enqueue : (item : ContentRefreshItem) → Call
  call_dequeue : (max_items : ℕ) → Call
  call_processed call_failed call_removed call_clear : Call

-- The queue, the items that `enqueue` accepted and those that left it, `dequeue_batch` and `clear`
-- alike, in order.
pub record History : Type 0 where
  pub now : ContentRefreshQueue
  pub accepted : List ContentRefreshItem
  pub left : List ContentRefreshItem

unfoldable pub accept : ContentRefreshItem → History → ContentRefreshQueue × Bool → History
accept item h (q, true) = record { now = q; accepted = h.accepted ++ item ∷ []; left = h.left }
accept item h (q, false) = record { now = q; accepted = h.accepted; left = h.left }

unfoldable pub serve : History → ContentRefreshQueue × List ContentRefreshItem → History
serve h (q, batch) = record { now = q; accepted = h.accepted; left = h.left ++ batch }

-- `clear` returns the number of items that it dropped.
unfoldable pub emptied : History → ContentRefreshQueue × ℕ → History
emptied h (q, count) = record { now = q; accepted = h.accepted; left = h.left ++ h.now.queue }

unfoldable pub perform : Call → History → History
unfolding enqueue dequeue_batch record_processed record_failed record_removed clear accept serve
    emptied
perform (call_enqueue item) h = accept item h (enqueue h.now item)
perform (call_dequeue n) h = serve h (dequeue_batch h.now n)
perform call_processed h = record h { now = record_processed h.now }
perform call_failed h = record h { now = record_failed h.now }
perform call_removed h = record h { now = record_removed h.now }
perform call_clear h = emptied h (clear h.now)

unfoldable pub performed : List Call → History → History
unfolding perform
performed [] h = h
performed (c ∷ cs) h = performed cs (perform c h)

unfoldable pub created_with : ℕ → History
unfolding new_queue
created_with max_pending = record { now = new_queue max_pending; accepted = []; left = [] }

-- The queue holds at most `m` items, and what left it, followed by what it holds, is what it accepted.
unfoldable pub IsFifo : ℕ → History → Type 0
IsFifo m h = (h.now.maxlen ≡ m) × (length h.now.queue ≤ m) × (h.left ++ h.now.queue ≡ h.accepted)

enqueue-cases :
    (q : ContentRefreshQueue) (item : ContentRefreshItem)
    → (enqueue q item ≡ (q, false))
      ⊎ ((suc (length q.queue) ≤ q.maxlen)
          × (enqueue q item ≡ (record q { queue = q.queue ++ item ∷ [] }, true)))
unfolding enqueue
enqueue-cases q item = elim (Bool-cases (leb q.maxlen (length q.queue))) [
  | inl e ↦ inl (rw (e, enqueue) refl)
  | inr e ↦ inr (ground arith, rw (e, enqueue) refl)
]

accept-IsFifo :
    (m : ℕ) (item : ContentRefreshItem) (h : History)
    → (enqueue h.now item ≡ (h.now, false))
      ⊎ ((suc (length h.now.queue) ≤ h.now.maxlen)
          × (enqueue h.now item ≡ (record h.now { queue = h.now.queue ++ item ∷ [] }, true)))
    → IsFifo m h
    → IsFifo m (accept item h (enqueue h.now item))
unfolding IsFifo accept
accept-IsFifo m item h (inl e) (same, bound, order) = rw e (same, bound, order)
accept-IsFifo m item h (inr (room, e)) (same, bound, order) = rw e (
  same,
  omega (arith, room, same, length-append h.now.queue (item ∷ [])),
  sym (append_assoc h.left h.now.queue (item ∷ [])) ∙ ap (λ r. r ++ item ∷ []) order,
)

perform-IsFifo : (m : ℕ) (c : Call) (h : History) → IsFifo m h → IsFifo m (perform c h)
unfolding perform IsFifo
perform-IsFifo m (call_enqueue item) h fifo = accept-IsFifo m item h (enqueue-cases h.now item) fifo
perform-IsFifo m (call_dequeue n) h (same, bound, order) = (
  same,
  omega (arith, bound, length-drop n h.now.queue),
  append_assoc h.left (take n h.now.queue) (drop n h.now.queue)
      ∙ ap (λ r. h.left ++ r) (take-append-drop n h.now.queue)
      ∙ order,
)
perform-IsFifo m call_processed h fifo = fifo
perform-IsFifo m call_failed h fifo = fifo
perform-IsFifo m call_removed h fifo = fifo
perform-IsFifo m call_clear h (same, bound, order) =
    (same, omega arith, append-nil (h.left ++ h.now.queue) ∙ order)

performed_from : (m : ℕ) (cs : List Call) (h : History) → IsFifo m h → IsFifo m (performed cs h)
unfolding performed
performed_from m [] h fifo = fifo
performed_from m (c ∷ cs) h fifo = performed_from m cs (perform c h) (perform-IsFifo m c h fifo)

-- After any sequence of calls on a new queue of a given capacity, the queue holds at most that many items, and the items that left it followed by those it still holds are exactly the accepted ones in the order of their acceptance: none is lost, doubled or overtaken.
pub performed-IsFifo :
    (max_pending : ℕ) (cs : List Call)
    → IsFifo max_pending (performed cs (created_with max_pending))
unfolding IsFifo created_with new_queue
performed-IsFifo m cs = performed_from m cs (created_with m) (refl, omega arith, refl)
