-- ===== src/Content/Chunks/Tests.antt =====
-- Runs of the chunker, and the theorems at inputs that meet their hypotheses.
use zimi_rs.Base.{
  ◌≡◌, refl, some, List, [], ◌∷◌, Text, codes, text_eq, trim, trim_start_by, trim_end_by,
  is_whitespace, arith,
}
use zimi_rs.Content.Utf8.{
  byte_len, is_char_boundary, ceil_char_boundary, floor_char_boundary, drop_bytes, take_bytes,
  rfind,
}
use zimi_rs.Content.Chunks.{
  TextChunk, chunk_end, next_start, chunk_from, chunk_text, clamp_chunk_params, truncate_preview,
}
use zimi_rs.Content.Chunks.Cover.{IsChunking, chunk_text-IsChunking}

chunk_runs : Unit {0}
unfolding byte_len is_char_boundary ceil_char_boundary floor_char_boundary drop_bytes take_bytes
    rfind chunk_end next_start chunk_from chunk_text clamp_chunk_params truncate_preview text_eq
    trim trim_start_by trim_end_by is_whitespace
chunk_runs = tt

abbrev words : Text
words = codes "ab cd ef"

-- Windows of five bytes that end after a space, and overlap by one.
words_chunked :
    chunk_text words 5 1
    ≡ some (
        record { index = 0; start = 0; end = 3; text = codes "ab" }
        ∷ record { index = 1; start = 2; end = 6; text = codes "cd" }
        ∷ record { index = 2; start = 5; end = 8; text = codes "ef" }
        ∷ [])
unfolding chunk_runs
words_chunked = refl

-- With the parameters clamped, a window that meets an early line end still moves on by one byte only.
early_line : chunk_end (codes "\nabcdefghijklmnop") 10 5 0 ≡ 1
unfolding chunk_runs
early_line = refl

small_step : next_start (codes "\nabcdefghijklmnop") 10 5 0 1 ≡ 1
unfolding chunk_runs
small_step = refl

clamped : clamp_chunk_params 0 7 ≡ (10, 5)
unfolding chunk_runs
clamped = refl

chunk_text-IsChunking_example :
    (r : List TextChunk) × (chunk_text words 5 1 ≡ some r) × IsChunking words 5 r
chunk_text-IsChunking_example = chunk_text-IsChunking words 5 1 (omega arith)
