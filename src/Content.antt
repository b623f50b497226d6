-- ===== src/Content.antt =====
-- What the service serves of an archive: the text of an article and its chunks, and raw entries.
pub mod Utf8
pub mod Chunks
pub mod Range
pub mod Raw
