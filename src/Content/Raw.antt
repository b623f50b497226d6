-- ===== src/Content/Raw.antt =====
-- src/serve/handlers/content.rs: `read_raw_entry_blocking` and `raw_content`. The archive reader and
-- the status of its file enter as an `Archive`; the media type and the security headers, which the
-- web handlers compute from it, are not part of the answer here.
pub mod Faithful
mod Tests
use zimi_rs.Base.{
  ℕ, ◌+◌, ◌-◌, ◌*◌, Bool, true, false, Option, none, some, List, [], ◌∷◌, length, take, drop, ltb,
  if◌then◌else◌, Text, Result, ok, err, ◌>>=◌, ok_or,
}
use zimi_rs.Content.Range.{
  ParsedRange, slice, unsatisfiable, parse_single_range, slice_range_bytes, if_none_match_matches,
}

abbrev pub max_raw_bytes : ℕ
max_raw_bytes = 64 * 1024 * 1024

pub data ReadError : Type 0 where
  not_found : ReadError
  zim_error : ReadError
  too_large : ℕ → ReadError

pub record Archive (Entry Resolved : Type 0) : Type 0 where
  -- The tag of the file's status, when it has one.
  pub etag : Option Text
  pub find_entry : Text → Result (Option Entry) ReadError
  pub resolve : Entry → Result Resolved ReadError
  pub entry_content : Resolved → Result (Option (List ℕ)) ReadError
  -- The failure of the mapping that the content is read through.
  pub mapping : Resolved → Option ReadError

pub data RawRead : Type 0 where
  not_modified : Text → RawRead
  read : Option Text → ℕ → Option ParsedRange → List ℕ → RawRead

abbrev pub revalidated : Option Text → Option Text → Bool
revalidated (some inm) (some tag) = if_none_match_matches inm tag
revalidated (some inm) none = false
revalidated none tag = false

abbrev pub window : List ℕ → Option (ℕ × ℕ) → List ℕ
window body none = []
window body (some (start, end)) = take (end - start) (drop start body)

-- The bytes that are copied out of a body.
abbrev pub copied : List ℕ → Option ParsedRange → List ℕ
copied body none = body
copied body (some unsatisfiable) = []
copied body (some (slice start end)) =
    window body (slice_range_bytes (length body) (some (slice start end)))

abbrev pub parsed : Option Text → ℕ → Option ParsedRange
parsed none total = none
parsed (some header) total = parse_single_range header total

abbrev pub read_body : Option Text → Option Text → List ℕ → RawRead
read_body etag range_header body =
    let total = length body in
    let range = parsed range_header total in
    read etag total range (if ltb max_raw_bytes total then [] else copied body range)

abbrev pub mapped : Option ReadError → List ℕ → Result (List ℕ) ReadError
mapped none body = ok body
mapped (some e) body = err e

abbrev tag_or_empty : Option Text → Text
tag_or_empty none = []
tag_or_empty (some tag) = tag

module _ {Entry Resolved : Type 0} (archive : Archive Entry Resolved) where
  -- The body that a path leads to.
  unfoldable pub body_at : Text → Result (List ℕ) ReadError
  body_at path = do
    found ← archive.find_entry path
    entry ← ok_or found not_found
    resolved ← archive.resolve entry
    content ← archive.entry_content resolved
    body ← ok_or content not_found
    mapped (archive.mapping resolved) body

  unfoldable pub read_raw_entry_blocking :
      Text → Option Text → Option Text → Result RawRead ReadError
  read_raw_entry_blocking path range_header if_none_match =
      if revalidated if_none_match archive.etag
      then ok (not_modified (tag_or_empty archive.etag))
      else (do body ← body_at path; ok (read_body archive.etag range_header body))

-- The answer: its status with what it carries. `partial` has the positions of `Content-Range`.
pub data RawResponse : Type 0 where
  unchanged : Text → RawResponse
  partial : ℕ → ℕ → ℕ → List ℕ → Option Text → RawResponse
  range_not_satisfiable : ℕ → RawResponse
  full : ℕ → List ℕ → Option Text → RawResponse

abbrev pub ranged : Option Text → ℕ → Option ParsedRange → List ℕ → RawResponse
ranged etag total (some (slice start end)) bytes = partial start end total bytes etag
ranged etag total (some unsatisfiable) bytes = range_not_satisfiable total
ranged etag total none bytes = full total bytes etag

unfoldable pub respond : RawRead → Result RawResponse ReadError
respond (not_modified tag) = ok (unchanged tag)
respond (read etag total range bytes) =
    if ltb max_raw_bytes total then err (too_large total) else ok (ranged etag total range bytes)

-- `raw_content`, on an archive that is open.
unfoldable pub raw_content :
    {Entry Resolved : Type 0}
    → Archive Entry Resolved
    → Text
    → Option Text
    → Option Text
    → Result RawResponse ReadError
unfolding read_raw_entry_blocking
raw_content archive path range_header if_none_match =
    read_raw_entry_blocking archive path range_header if_none_match >>= respond
