-- ===== src/Poller.antt =====
-- src/torrent/poller: the background task that drives the downloads.
pub mod Names
pub mod Enqueue
mod Tests
