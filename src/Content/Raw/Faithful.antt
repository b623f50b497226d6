-- ===== src/Content/Raw/Faithful.antt =====
-- src/serve/handlers/content.rs: the answer to a request for a raw entry carries the bytes it claims.
use zimi_rs.Base.{
  ℕ, zero, suc, ◌+◌, ◌-◌, ◌≤◌, ◌<◌, min, ◌≡◌, refl, false, Option, none, some, List, [], ◌∷◌,
  length, take, drop, ltb, Text, Result, ok, err, arith, Bool-cases, if-rule, inl, inr,
}
use zimi_rs.Content.Range.{ParsedRange, slice, unsatisfiable, slice_range_bytes}
use zimi_rs.Content.Range.Bounds.{Fits, parse_single_range-Fits}
use zimi_rs.Content.Raw.{
  max_raw_bytes, ReadError, too_large, Archive, RawRead, not_modified, read, revalidated, window,
  copied, parsed, read_body, body_at, read_raw_entry_blocking, RawResponse, unchanged, partial,
  range_not_satisfiable, full, ranged, respond, raw_content,
}

length-drop : (n : ℕ) (xs : List ℕ) → length (drop n xs) ≡ length xs - n
length-drop zero xs = omega arith
length-drop (suc n) [] = omega arith
length-drop (suc n) (x ∷ xs) = omega (arith, length-drop n xs)

length-take : (n : ℕ) (xs : List ℕ) → length (take n xs) ≡ min n (length xs)
length-take zero xs = omega arith
length-take (suc n) [] = omega arith
length-take (suc n) (x ∷ xs) = omega (arith, length-take n xs)

-- What an answer must carry of a body.
abbrev pub Carries : List ℕ → Option Text → Result RawResponse ReadError → Type 0
Carries body etag (ok (unchanged tag)) = ⊥
Carries body etag (ok (partial start end total bytes tag)) =
    (length body ≤ max_raw_bytes)
    × (start ≤ end)
    × (end < length body)
    × (total ≡ length body)
    × (length bytes ≡ end + 1 - start)
    × (bytes ≡ take (end + 1 - start) (drop start body))
    × (tag ≡ etag)
Carries body etag (ok (range_not_satisfiable total)) =
    (length body ≤ max_raw_bytes) × (total ≡ length body)
Carries body etag (ok (full total bytes tag)) =
    (length body ≤ max_raw_bytes) × (total ≡ length body) × (bytes ≡ body) × (tag ≡ etag)
Carries body etag (err e) = (max_raw_bytes < length body) × (e ≡ too_large (length body))

ranged-Carries :
    (body : List ℕ) (etag : Option Text) (range : Option ParsedRange)
    → length body ≤ max_raw_bytes
    → Fits (length body) range
    → Carries body etag (ok (ranged etag (length body) range (copied body range)))
unfolding slice_range_bytes
ranged-Carries body etag none small h = (small, refl, refl, refl)
ranged-Carries body etag (some unsatisfiable) small h = (small, refl)
ranged-Carries body etag (some (slice start end)) small (order, within) =
    let low : min start (length body) ≡ start = omega arith in
    let high : min (end + 1) (length body) ≡ end + 1 = omega arith in
    rw (low, high)
      (
        small,
        order,
        within,
        refl,
        omega (arith, length-take (end + 1 - start) (drop start body), length-drop start body),
        refl,
        refl,
      )

parsed-Fits : (header : Option Text) (total : ℕ) → Fits total (parsed header total)
parsed-Fits none total = tt
parsed-Fits (some header) total = parse_single_range-Fits header total

respond-Carries :
    (body : List ℕ) (etag range_header : Option Text)
    → Carries body etag (respond (read_body etag range_header body))
unfolding respond
respond-Carries body etag range_header = elim (Bool-cases (ltb max_raw_bytes (length body))) [
  | inl large ↦ rw large (ground arith, refl)
  | inr fine ↦ rw fine (
      ranged-Carries body etag (parsed range_header (length body)) (ground arith)
        (parsed-Fits range_header (length body)))
]

-- What is copied out of the archive.
abbrev pub IsCapped : Result RawRead ReadError → Type 0
IsCapped (ok (not_modified tag)) = Unit
IsCapped (ok (read etag total range bytes)) = length bytes ≤ max_raw_bytes
IsCapped (err e) = Unit

copied-le : (body : List ℕ) (range : Option ParsedRange) → length (copied body range) ≤ length body
copied-le body none = omega arith
copied-le body (some unsatisfiable) = omega arith
copied-le body (some (slice start end)) =
    window-le (slice_range_bytes (length body) (some (slice start end)))
  where
    window-le : (o : Option (ℕ × ℕ)) → length (window body o) ≤ length body
    window-le none = omega arith
    window-le (some (a, b)) = omega (arith, length-take (b - a) (drop a body), length-drop a body)

read_body-IsCapped :
    (body : List ℕ) (etag range_header : Option Text)
    → IsCapped (ok (read_body etag range_header body))
read_body-IsCapped body etag range_header =
    if-rule (λ bytes. length bytes ≤ max_raw_bytes) (ltb max_raw_bytes (length body)) []
      (copied body (parsed range_header (length body))) (λ _. omega arith)
      (λ below. ground (arith, copied-le body (parsed range_header (length body))))

-- A request that is not revalidated is answered from the body at its path, whatever its `Range`
-- header says. When the body has at most 64 MiB: with the whole body, or with exactly the bytes that
-- its `Content-Range` names, which lie within the body, or as unsatisfiable. Else with an error, and
-- no more than 64 MiB are copied in any case.
pub raw_content-Carries :
    {Entry Resolved : Type 0} (archive : Archive Entry Resolved) (path : Text)
    (range_header if_none_match : Option Text) (body : List ℕ)
    → body_at archive path ≡ ok body
    → revalidated if_none_match archive.etag ≡ false
    → Carries body archive.etag (raw_content archive path range_header if_none_match)
      × IsCapped (read_raw_entry_blocking archive path range_header if_none_match)
unfolding raw_content read_raw_entry_blocking
raw_content-Carries archive path range_header if_none_match body found stale =
    rw (stale, found)
      (
        respond-Carries body archive.etag range_header,
        read_body-IsCapped body archive.etag range_header,
      )
