-- ===== src/Catalog.antt =====
-- src/torrent/opds.rs: the entries of an OPDS catalog and the digests that it declares. Parsing the feed
-- (crate quick-xml) is not modelled.
pub mod Digest
pub mod Names
pub mod Updates
mod Tests
