-- ===== src/Content/Chunks/Windows.antt =====
-- src/content.rs, `chunk_text`: each window of the loop moves forward, is bounded, and ends between
-- two characters.
use zimi_rs.Base.{
  ℕ, ◌+◌, ◌-◌, ◌≤◌, ◌<◌, min, max, ◌≡◌, refl, subst, inl, inr, true, Option, none, some, ltb, Text,
  arith, Bool-cases,
}
use zimi_rs.Content.Utf8.{
  byte_len, is_char_boundary, slice, drop_bytes, rfind, ceil_char_boundary-ge,
  ceil_char_boundary-le, ceil_char_boundary-le_len, ceil_char_boundary-is_boundary,
  floor_char_boundary-is_boundary, floor_char_boundary-le, is_char_boundary-add, rfind_window,
}
use zimi_rs.Content.Chunks.{hard_end, or_else, boundary_at, chunk_end, next_start}

module _ (text : Text) (chunk_size overlap start : ℕ) where
  abbrev he : ℕ
  he = hard_end text chunk_size overlap start

  abbrev end : ℕ
  end = chunk_end text chunk_size overlap start

  -- The window of the loop: it opens between two characters, before the end of the text.
  module _ (some_size : 0 < chunk_size) (opens : is_char_boundary start text ≡ true)
      (inside : start < byte_len text) where
    hard_end_bounds : (start < he) × (he ≤ byte_len text) × (he ≤ start + chunk_size + 3)
    hard_end_bounds = omega (
      arith,
      ceil_char_boundary-ge (min (start + chunk_size) (byte_len text)) text (omega arith),
      ceil_char_boundary-le (min (start + chunk_size) (byte_len text)) text,
      ceil_char_boundary-le_len (min (start + chunk_size) (byte_len text)) text,
    )

    -- What a separator in the window gives.
    separator :
        (d p : ℕ)
        → d < 0x80
        → rfind d (slice start he text) ≡ some p
        → (is_char_boundary (start + p + 1) text ≡ true) × (start + p < he)
    separator d p small found =
        let (edge, within) = rfind_window d (he - start) p (drop_bytes start text) small found in
        let (past, _, _) = hard_end_bounds in
        let sum : start + (p + 1) ≡ start + p + 1 = omega arith in
        let after = is_char_boundary-add start (p + 1) text opens edge in
        (subst (λ n. is_char_boundary n text ≡ true) sum after, omega arith)

    boundary_bounds :
        (found : Option ℕ)
        → ((p : ℕ)
            → found ≡ some p
            → (is_char_boundary (start + p + 1) text ≡ true) × (start + p < he))
        → (is_char_boundary (max (boundary_at text chunk_size overlap start found) (start + 1)) text
            ≡ true)
          × (start < max (boundary_at text chunk_size overlap start found) (start + 1))
          × (max (boundary_at text chunk_size overlap start found) (start + 1) ≤ he)
    boundary_bounds none given =
        let (past, _, _) = hard_end_bounds in
        let whole : max he (start + 1) ≡ he = omega arith in
        rw whole (
          ceil_char_boundary-is_boundary (min (start + chunk_size) (byte_len text)) text,
          past,
          omega arith,
        )
    boundary_bounds (some p) given =
        let (edge, within) = given p refl in
        let top : max (start + p + 1) (start + 1) ≡ start + p + 1 = omega arith in
        rw top (edge, omega arith, omega arith)

    separators :
        (a b : Option ℕ)
        → ((p : ℕ) → a ≡ some p → (is_char_boundary (start + p + 1) text ≡ true) × (start + p < he))
        → ((p : ℕ) → b ≡ some p → (is_char_boundary (start + p + 1) text ≡ true) × (start + p < he))
        → (p : ℕ) → or_else text chunk_size overlap a b ≡ some p
        → (is_char_boundary (start + p + 1) text ≡ true) × (start + p < he)
    separators (some q) b f g p h = f p h
    separators none b f g p h = g p h

    -- The window moves forward, ends between two characters and within the text, and exceeds the
    -- chunk size by at most three bytes.
    pub chunk_end_bounds :
        (is_char_boundary end text ≡ true)
        × (start < end)
        × (end ≤ byte_len text)
        × (end ≤ start + chunk_size + 3)
    unfolding chunk_end
    chunk_end_bounds =
        let (past, fits, near) = hard_end_bounds in
        let (edge, more, less) = boundary_bounds _ (
          separators (rfind b'\n' (slice start he text)) (rfind b' ' (slice start he text))
            (λ p h. separator b'\n' p (omega arith) h) (λ p h. separator b' ' p (omega arith) h)) in
        elim (Bool-cases (ltb he (byte_len text))) [
          | inl cut ↦ rw cut (edge, more, omega arith, omega arith)
          | inr rest ↦ rw rest (
            ceil_char_boundary-is_boundary (min (start + chunk_size) (byte_len text)) text,
            past,
            fits,
            near,
          )
        ]

  -- The next window opens between two characters, further on, and leaves no gap.
  pub next_start_bounds :
      (e : ℕ)
      → is_char_boundary e text ≡ true
      → start < e
      → (is_char_boundary (next_start text chunk_size overlap start e) text ≡ true)
        × (start < next_start text chunk_size overlap start e)
        × (next_start text chunk_size overlap start e ≤ e)
  unfolding next_start
  next_start_bounds e edge past = ground (
    arith,
    floor_char_boundary-is_boundary (e - overlap) text,
    floor_char_boundary-le (e - overlap) text,
  )
