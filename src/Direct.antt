-- ===== src/Direct.antt =====
-- src/torrent/poller/direct.rs: the direct download of an archive over HTTP.
pub mod Headers
pub mod Stream
pub mod Finalize
pub mod Download
mod Tests
