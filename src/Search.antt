-- ===== src/Search.antt =====
-- src/search: what the search path keeps.
pub mod QueryCache
