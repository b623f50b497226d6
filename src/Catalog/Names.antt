-- ===== src/Catalog/Names.antt =====
-- src/torrent/opds.rs: the date tags of archive names, the rank that they give, and the name in a URL.
pub mod Tagged
use zimi_rs.Base.{
  ℕ, ◌+◌, Bool, true, false, not, ◌&&◌, ◌||◌, Option, none, some, List, [], ◌∷◌, ◌++◌, ◌==◌, ltb,
  leb, min, all, find, map, reverse, if◌then◌else◌, is_some, lookup, insert, Text, codes, text_eq,
  text_keys, split, strip_prefix, starts_with, to_ascii_lower,
}
use zimi_rs.Content.Utf8.{byte_len, floor_char_boundary, take_bytes, drop_bytes, rfind}
use zimi_rs.Content.Range.{is_ascii_digit}
use zimi_rs.Direct.Headers.{parse_u64}
use zimi_rs.Poller.Names.{strip_query_fragment, holds_text}
use zimi_rs.Catalog.Digest.{and_then}

abbrev pub Version : Type 0
Version = ℕ × ℕ

-- A number of at most four bytes, which u32 holds as u64 does.
abbrev version : Text → Text → Option Version
version y m = and_then (parse_u64 y) (λ year. and_then (parse_u64 m) (λ month. some (year, month)))

abbrev spans : ℕ → Text → Bool
spans n s = byte_len s == n

abbrev dated : List Text → Option Version
dated [] = none
dated (y ∷ []) =
    if spans 6 y && all is_ascii_digit y then version (take_bytes 4 y) (drop_bytes 4 y) else none
dated (y ∷ m ∷ []) = if spans 4 y && spans 2 m then version y m else none
dated (y ∷ m ∷ d ∷ []) = if spans 4 y && spans 2 m && spans 2 d then version y m else none
dated (y ∷ m ∷ d ∷ e ∷ rest) = none

unfoldable pub parse_date_tag : Text → Option Version
unfolding split parse_u64 byte_len take_bytes drop_bytes
parse_date_tag s = dated (split b'-' s)

abbrev tagged : Text → Text → Option Version → Text × Option Version
tagged name head none = (name, none)
tagged name head (some v) = (head, some v)

abbrev cut_at : Text → Option ℕ → Text × Option Version
cut_at name none = (name, none)
cut_at name (some pos) =
    tagged name (take_bytes pos name) (parse_date_tag (drop_bytes (pos + 1) name))

unfoldable pub base_and_version : Text → Text × Option Version
unfolding rfind take_bytes drop_bytes parse_date_tag
base_and_version name = cut_at name (rfind b'_' name)

abbrev pub or_zero : Option ℕ → ℕ
or_zero none = 0
or_zero (some n) = n

abbrev month_of : List Text → Version
month_of [] = (0, 0)
month_of (y ∷ []) = (0, 0)
month_of (y ∷ m ∷ []) =
    if spans 4 y && spans 2 m then (or_zero (parse_u64 y), or_zero (parse_u64 m)) else (0, 0)
month_of (y ∷ m ∷ d ∷ rest) = (0, 0)

-- The first seven bytes, back to a boundary.
unfoldable pub prefix7 : Text → Text
unfolding byte_len floor_char_boundary take_bytes
prefix7 u = take_bytes (floor_char_boundary (min (byte_len u) 7) u) u

unfoldable pub candidate_rank : Option Version → Option Text → Version
unfolding split parse_u64 prefix7 byte_len
candidate_rank (some v) updated = v
candidate_rank none none = (0, 0)
candidate_rank none (some u) = month_of (split b'-' (prefix7 u))

abbrev last_piece : List Text → Text
last_piece [] = []
last_piece (p ∷ []) = p
last_piece (p ∷ q ∷ ps) = last_piece (q ∷ ps)

abbrev named : Option Text → Option Text
named none = none
named (some backwards) = if text_eq backwards [] then none else some (reverse backwards)

unfoldable pub catalog_name_from_url : Text → Option Text
unfolding split strip_query_fragment strip_prefix to_ascii_lower text_eq
catalog_name_from_url url =
    let file = strip_query_fragment (last_piece (split b'/' url)) in
    named (strip_prefix (reverse (codes ".zim")) (reverse (map to_ascii_lower file)))

abbrev pub version_gt : Version → Version → Bool
version_gt (a, b) (c, d) = ltb c a || (a == c && ltb d b)

-- Bytes compare as the characters do that they encode.
unfoldable pub text_gt : Text → Text → Bool
text_gt [] t = false
text_gt (c ∷ s) [] = true
text_gt (c ∷ s) (d ∷ t) = ltb d c || (c == d && text_gt s t)
