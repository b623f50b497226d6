-- ===== src/Content/Chunks/Cover.antt =====
-- src/content.rs, `chunk_text`: the loop ends, and its chunks cover the text but for blank windows.
use zimi_rs.Base.{
  ℕ, zero, suc, ◌+◌, ◌-◌, ◌≤◌, ◌<◌, min, ◌≡◌, refl, ◌⊎◌, inl, inr, Bool, true, false, ◌&&◌, ◌||◌,
  some, List, [], ◌∷◌, ◌++◌, any, All, length, ◌==◌, ltb, leb, Text, text_eq, trim, arith,
  Bool-cases,
}
use zimi_rs.Content.Utf8.{byte_len, is_char_boundary, slice, boundary_zero}
use zimi_rs.Content.Chunks.{TextChunk, chunk_end, next_start, push_chunk, chunk_from, chunk_text}
use zimi_rs.Content.Chunks.Windows.{chunk_end_bounds, next_start_bounds}

-- The byte at `p` belongs to the chunk.
abbrev pub holds : ℕ → TextChunk → Bool
holds p c = leb c.start p && ltb p c.end

-- The chunks are numbered from `n`.
abbrev pub IsNumbered : ℕ → List TextChunk → Type 0
IsNumbered n [] = Unit
IsNumbered n (c ∷ cs) = (c.index ≡ n) × IsNumbered (n + 1) cs

any-append :
    {A : Type 0} (p : A → Bool) (xs ys : List A) → any p (xs ++ ys) ≡ (any p xs || any p ys)
any-append p [] ys = refl
any-append p (x ∷ xs) ys = ground (arith, any-append p xs ys)

All-append :
    (P : TextChunk → Type 0) (xs : List TextChunk) (c : TextChunk)
    → All P xs
    → P c
    → All P (xs ++ (c ∷ []))
All-append P [] c h k = (k, tt)
All-append P (x ∷ xs) c (h, hs) k = (h, All-append P xs c hs k)

IsNumbered-append :
    (n : ℕ) (xs : List TextChunk) (c : TextChunk)
    → IsNumbered n xs
    → c.index ≡ n + length xs
    → IsNumbered n (xs ++ (c ∷ []))
IsNumbered-append n [] c h k = (omega arith, tt)
IsNumbered-append n (x ∷ xs) c (h, hs) k = (h, IsNumbered-append (n + 1) xs c hs (omega arith))

-- A chunk is a window of the text between two characters, of at most the chunk size and three
-- bytes, whose trimmed text is not empty.
pub record IsChunk (text : Text) (chunk_size : ℕ) (c : TextChunk) : Type 0 where
  pub opens : is_char_boundary c.start text ≡ true
  pub closes : is_char_boundary c.end text ≡ true
  pub forward : c.start < c.end
  pub within : c.end ≤ byte_len text
  pub bounded : c.end ≤ c.start + chunk_size + 3
  pub content : c.text ≡ trim (slice c.start c.end text)
  pub some_text : text_eq c.text [] ≡ false

-- The byte at `p` lies in a window of nothing but whitespace.
pub record IsBlank (text : Text) (p : ℕ) : Type 0 where
  pub opens : ℕ
  pub closes : ℕ
  pub after : opens ≤ p
  pub before : p < closes
  pub blank : text_eq (trim (slice opens closes text)) [] ≡ true

module _ (text : Text) (chunk_size overlap : ℕ) where
  -- What the loop has done once it returns `r` from `chunks` at `start`.
  record IsDone (chunks : List TextChunk) (start : ℕ) (r : List TextChunk) : Type 0 where
    kept : (p : ℕ) → any (holds p) chunks ≡ true → any (holds p) r ≡ true
    covered : (p : ℕ) → start ≤ p → p < byte_len text → (any (holds p) r ≡ true) ⊎ IsBlank text p
    windows : All (IsChunk text chunk_size) chunks → All (IsChunk text chunk_size) r
    numbered : IsNumbered 0 chunks → IsNumbered 0 r

  -- A window is pushed, or it is blank.
  module _ (chunks : List TextChunk) (start end : ℕ) where
    abbrev raw : Text
    raw = trim (slice start end text)

    abbrev pushed : List TextChunk
    pushed = push_chunk text chunk_size overlap chunks start end

    abbrev new_chunk : TextChunk
    new_chunk = record { index = length chunks; start = start; end = end; text = raw }

    push-kept : (p : ℕ) → any (holds p) chunks ≡ true → any (holds p) pushed ≡ true
    push-kept p h = elim (Bool-cases (text_eq raw [])) [
      | inl blank ↦ rw blank h
      | inr solid ↦ rw (solid, any-append (holds p) chunks (new_chunk ∷ [])) (ground arith)
    ]

    push-covers : (p : ℕ) → start ≤ p → p < end → (any (holds p) pushed ≡ true) ⊎ IsBlank text p
    push-covers p h k = elim (Bool-cases (text_eq raw [])) [
      | inl blank ↦
          inr (record { opens = start; closes = end; after = h; before = k; blank = blank })
      | inr solid ↦ inl (rw (solid, any-append (holds p) chunks (new_chunk ∷ [])) (ground arith))
    ]

    push-IsNumbered : IsNumbered 0 chunks → IsNumbered 0 pushed
    push-IsNumbered h = elim (Bool-cases (text_eq raw [])) [
      | inl blank ↦ rw blank h
      | inr solid ↦ rw solid (IsNumbered-append 0 chunks new_chunk h (omega arith))
    ]

    push-windows :
        is_char_boundary start text ≡ true
        → is_char_boundary end text ≡ true
        → start < end
        → end ≤ byte_len text
        → end ≤ start + chunk_size + 3
        → All (IsChunk text chunk_size) chunks
        → All (IsChunk text chunk_size) pushed
    push-windows o c f w b h = elim (Bool-cases (text_eq raw [])) [
      | inl blank ↦ rw blank h
      | inr solid ↦ rw solid (
          All-append (IsChunk text chunk_size) chunks new_chunk h (record {
            opens = o;
            closes = c;
            forward = f;
            within = w;
            bounded = b;
            content = refl;
            some_text = solid;
          }))
    ]

  -- Past the end nothing is left to cover.
  IsDone-past :
      (chunks : List TextChunk) (start : ℕ) → byte_len text ≤ start → IsDone chunks start chunks
  IsDone-past chunks start past = record {
    kept = λ p h. h;
    covered = λ p h k. absurd (omega arith);
    windows = λ h. h;
    numbered = λ h. h;
  }

  -- A window, and what the loop does from where the next one opens.
  onward-IsDone :
      (chunks : List TextChunk) (start end next : ℕ) (r : List TextChunk)
      → is_char_boundary start text ≡ true
      → is_char_boundary end text ≡ true
      → start < end
      → end ≤ byte_len text
      → end ≤ start + chunk_size + 3
      → next ≤ end
      → IsDone (push_chunk text chunk_size overlap chunks start end) next r
      → IsDone chunks start r
  onward-IsDone chunks start end next r o c f w b gapless done = record {
    kept = λ p h. done.kept p (push-kept chunks start end p h);
    covered = covers;
    windows = λ h. done.windows (push-windows chunks start end o c f w b h);
    numbered = λ h. done.numbered (push-IsNumbered chunks start end h);
  }
    where
      carried :
          (p : ℕ)
          → (any (holds p) (push_chunk text chunk_size overlap chunks start end) ≡ true)
            ⊎ IsBlank text p
          → (any (holds p) r ≡ true) ⊎ IsBlank text p
      carried p (inl h) = inl (done.kept p h)
      carried p (inr blank) = inr blank

      covers : (p : ℕ) → start ≤ p → p < byte_len text → (any (holds p) r ≡ true) ⊎ IsBlank text p
      covers p h k = elim (Bool-cases (ltb p end)) [
        | inl early ↦ carried p (push-covers chunks start end p h (ground arith))
        | inr late ↦ done.covered p (ground arith) k
      ]

  chunk_from-IsDone :
      0 < chunk_size
      → (fuel : ℕ) (chunks : List TextChunk) (start : ℕ) → byte_len text ≤ start + fuel
      → is_char_boundary start text ≡ true
      → (r : List TextChunk) × (chunk_from text chunk_size overlap fuel chunks start ≡ some r)
        × IsDone chunks start r
  unfolding chunk_from
  chunk_from-IsDone sized zero chunks start enough opens =
      (chunks, ground arith, IsDone-past chunks start (omega arith))
  chunk_from-IsDone sized (suc fuel) chunks start enough opens =
      elim (Bool-cases (ltb start (byte_len text))) [
        | inr past ↦ (chunks, rw past refl, IsDone-past chunks start (ground arith))
        | inl inside ↦
            let here : start < byte_len text = ground arith in
            let e = chunk_end text chunk_size overlap start in
            let (edge, more, fits, near) =
              chunk_end_bounds text chunk_size overlap start sized opens here in
            let chunks' = push_chunk text chunk_size overlap chunks start e in
            elim (Bool-cases (leb (byte_len text) e)) [
              | inl last ↦ (
                chunks',
                rw (inside, last) refl,
                record {
                  kept = push-kept chunks start e;
                  covered = λ p h k. push-covers chunks start e p h (ground arith);
                  windows = push-windows chunks start e opens edge more fits near;
                  numbered = push-IsNumbered chunks start e;
                },
              )
              | inr onward ↦
                  let (edge', more', gapless) =
                    next_start_bounds text chunk_size overlap start e edge more in
                  let next = next_start text chunk_size overlap start e in
                  let (r, made, done) =
                    chunk_from-IsDone sized fuel chunks' next (omega arith) edge' in
                  (
                    r,
                    rw (inside, onward) made,
                    onward-IsDone chunks start e next r opens edge more fits near gapless done,
                  )
            ]
      ]

-- A chunking of the text.
pub record IsChunking (text : Text) (chunk_size : ℕ) (r : List TextChunk) : Type 0 where
  pub windows : All (IsChunk text chunk_size) r
  pub numbered : IsNumbered 0 r
  pub covered : (p : ℕ) → p < byte_len text → (any (holds p) r ≡ true) ⊎ IsBlank text p

-- The loop ends on every text, for every chunk size but 0: each chunk is a window between two
-- characters, with at most the chunk size and three bytes and with text in it, the chunks are
-- numbered in order, and each byte of the text lies in a chunk or in a blank window.
pub chunk_text-IsChunking :
    (text : Text) (chunk_size overlap : ℕ)
    → 0 < chunk_size
    → (r : List TextChunk) × (chunk_text text chunk_size overlap ≡ some r)
      × IsChunking text chunk_size r
unfolding chunk_text
chunk_text-IsChunking text chunk_size overlap sized =
    let (r, made, done) =
      chunk_from-IsDone text chunk_size (min overlap (chunk_size - 1)) sized (byte_len text) [] 0
        (omega arith) (boundary_zero text) in
    let some_size : (chunk_size == 0) ≡ false = ground arith in
    (
      r,
      rw some_size made,
      record {
        windows = done.windows tt;
        numbered = done.numbered tt;
        covered = λ p k. done.covered p (omega arith) k;
      },
    )
