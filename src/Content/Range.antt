-- ===== src/Content/Range.antt =====
-- src/serve/handlers/content.rs: the `Range` and `If-None-Match` headers of a raw entry.
pub mod Bounds
pub mod Exact
mod Tests
use zimi_rs.Base.{
  ℕ, zero, suc, ◌+◌, ◌-◌, ◌*◌, ◌^◌, min, Bool, true, false, not, ◌&&◌, ◌||◌, Option, none, some,
  List, [], ◌∷◌, ◌==◌, ltb, leb, any, all, if◌then◌else◌, Text, codes, text_eq, trim, strip_prefix,
  contains, split, split_once,
}

pub data ParsedRange : Type 0 where
  slice : ℕ → ℕ → ParsedRange
  unsatisfiable : ParsedRange

pub data RangeNum : Type 0 where
  val : ℕ → RangeNum
  overflow : RangeNum
  invalid : RangeNum

abbrev pub is_ascii_digit : ℕ → Bool
is_ascii_digit c = leb 48 c && leb c 57

-- The number that a text of digits denotes, after those of `n`.
unfoldable pub value_from : ℕ → Text → ℕ
value_from n [] = n
value_from n (c ∷ s) = value_from (n * 10 + (c - 48)) s

abbrev pub value : Text → ℕ
value s = value_from 0 s

abbrev pub in_u64 : ℕ → RangeNum
in_u64 n = if ltb n (2 ^ 64) then val n else overflow

unfoldable pub parse_range_num : Text → RangeNum
parse_range_num s =
    let t = trim s in
    if text_eq t [] || not (all is_ascii_digit t) then invalid else in_u64 (value t)

abbrev pub suffix_range : ℕ → RangeNum → Option ParsedRange
suffix_range total (val suffix) =
    if suffix == 0 then some unsatisfiable else some (slice (total - suffix) (total - 1))
suffix_range total overflow = some (slice 0 (total - 1))
suffix_range total invalid = none

abbrev pub open_range : ℕ → RangeNum → Option ParsedRange
open_range total (val start) =
    if leb total start then some unsatisfiable else some (slice start (total - 1))
open_range total overflow = some unsatisfiable
open_range total invalid = none

abbrev pub closed_from : ℕ → ℕ → ℕ → Option ParsedRange
closed_from total start end =
    if leb total start || ltb end start
    then some unsatisfiable
    else if leb total end
    then some (slice start (total - 1))
    else some (slice start end)

abbrev pub closed_end : ℕ → ℕ → RangeNum → Option ParsedRange
closed_end total start (val end) = closed_from total start end
closed_end total start overflow = closed_from total start (total - 1)
closed_end total start invalid = none

abbrev pub closed_range : ℕ → RangeNum → RangeNum → Option ParsedRange
closed_range total (val start) end = closed_end total start end
closed_range total overflow end = some unsatisfiable
closed_range total invalid end = none

-- The arms of the match on the two sides of the dash.
abbrev pub parse_sides : ℕ → Option (Text × Text) → Option ParsedRange
parse_sides total none = none
parse_sides total (some (start_s, end_s)) =
    if text_eq start_s []
    then suffix_range total (parse_range_num end_s)
    else if text_eq end_s []
    then open_range total (parse_range_num start_s)
    else closed_range total (parse_range_num start_s) (parse_range_num end_s)

abbrev pub parse_spec : ℕ → Option Text → Option ParsedRange
parse_spec total none = none
parse_spec total (some spec) =
    if contains b',' spec
    then none
    else if total == 0
    then some unsatisfiable
    else parse_sides total (split_once b'-' spec)

unfoldable pub parse_single_range : Text → ℕ → Option ParsedRange
parse_single_range header_value total =
    parse_spec total (strip_prefix (codes "bytes=") (trim header_value))

unfoldable pub slice_range_bytes : ℕ → Option ParsedRange → Option (ℕ × ℕ)
slice_range_bytes total none = none
slice_range_bytes total (some unsatisfiable) = none
slice_range_bytes total (some (slice start end)) = some (min start total, min (end + 1) total)

unfoldable pub if_none_match_matches : Text → Text → Bool
if_none_match_matches header_value etag =
    let v = trim header_value in
    text_eq v (codes "*") || any (λ e. text_eq (trim e) etag) (split b',' v)
