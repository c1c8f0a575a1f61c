-- ===== src/Content.antt =====
-- core/content/refresh_queue.py: the bounded queue of content-cache work, and its processing.
pub mod Queue
pub mod Process
