-- ===== src/Content/Chunks.antt =====
-- src/content.rs: previews of a text, and its deterministic, overlapping chunks.
pub mod Windows
pub mod Cover
mod Tests
use zimi_rs.Base.{
  ℕ, zero, suc, ◌+◌, ◌-◌, ◌*◌, ◌/◌, min, max, Bool, true, false, not, ◌&&◌, ◌||◌, Option, none,
  some, List, [], ◌∷◌, ◌++◌, ◌==◌, ltb, leb, length, take, if◌then◌else◌, Text, codes, text_eq,
  trim,
}
use zimi_rs.Content.Utf8.{
  byte_len, is_char_boundary, ceil_char_boundary, floor_char_boundary, slice, rfind,
}

-- 256 KiB of raw content, and the indexer's cap on a stored preview.
abbrev pub max_read_bytes : ℕ
max_read_bytes = 262_144

unfoldable pub cap_read {ℓ} : {A : Type ℓ} → List A → List A × Bool
cap_read b = (take max_read_bytes b, ltb max_read_bytes (length b))

unfoldable pub clamp_read_max_length : ℕ → ℕ
clamp_read_max_length max_len = min max_len max_read_bytes

unfoldable pub truncate_preview : Text → ℕ → Text × ℕ
truncate_preview text max_len =
    let full_len = length text in
    (if ltb max_len full_len then take max_len text ++ (0x2026 ∷ []) else text, full_len)

unfoldable pub clamp_chunk_params : ℕ → ℕ → ℕ × ℕ
clamp_chunk_params size overlap =
    let size' = if ltb size 10 then 10 else if ltb 100_000 size then 100_000 else size in
    (size', min (min overlap (size' - 1)) (size' / 2))

pub record TextChunk : Type 0 where
  pub index : ℕ
  pub start : ℕ
  pub end : ℕ
  pub text : Text

module _ (text : Text) (chunk_size overlap : ℕ) where
  abbrev pub hard_end : ℕ → ℕ
  hard_end start = ceil_char_boundary (min (start + chunk_size) (byte_len text)) text

  abbrev pub or_else : Option ℕ → Option ℕ → Option ℕ
  or_else (some p) other = some p
  or_else none other = other

  abbrev pub boundary_at : ℕ → Option ℕ → ℕ
  boundary_at start none = hard_end start
  boundary_at start (some pos) = start + pos + 1

  -- The end of the window that opens at `start`.
  unfoldable pub chunk_end : ℕ → ℕ
  chunk_end start =
      if ltb (hard_end start) (byte_len text)
      then max
          (boundary_at start (
            or_else (rfind b'\n' (slice start (hard_end start) text))
              (rfind b' ' (slice start (hard_end start) text))))
          (start + 1)
      else hard_end start

  unfoldable pub next_start : ℕ → ℕ → ℕ
  next_start start end =
      let next = floor_char_boundary (end - overlap) text in if leb next start then end else next

  abbrev pub push_chunk : List TextChunk → ℕ → ℕ → List TextChunk
  push_chunk chunks start end =
      let raw = trim (slice start end text) in
      if text_eq raw []
      then chunks
      else chunks ++ (record { index = length chunks; start = start; end = end; text = raw } ∷ [])

  -- The loop, on fuel: `none` when it runs out.
  unfoldable pub chunk_from : ℕ → List TextChunk → ℕ → Option (List TextChunk)
  chunk_from zero chunks start = if ltb start (byte_len text) then none else some chunks
  chunk_from (suc fuel) chunks start =
      let end = chunk_end start in
      let chunks' = push_chunk chunks start end in
      let rest = chunk_from fuel chunks' (next_start start end) in
      if ltb start (byte_len text)
      then if leb (byte_len text) end then some chunks' else rest
      else some chunks

-- With the text's length in bytes as fuel.
unfoldable pub chunk_text : Text → ℕ → ℕ → Option (List TextChunk)
chunk_text text chunk_size overlap =
    if chunk_size == 0
    then some []
    else chunk_from text chunk_size (min overlap (chunk_size - 1)) (byte_len text) [] 0
