-- ===== src/Direct/Headers.antt =====
-- src/torrent/poller/direct.rs: the headers of the answer to a `Range` request.
use zimi_rs.Base.{
  ℕ, ◌^◌, not, ◌||◌, Option, none, some, [], ◌∷◌, ◌==◌, ltb, all, ◌≡◌, refl, if◌then◌else◌, Text,
  codes, text_eq, trim, split_once,
}
use zimi_rs.Content.Range.{is_ascii_digit, value, value_from}

abbrev digits_u64 : Text → Option ℕ
digits_u64 s =
    if text_eq s [] || not (all is_ascii_digit s) || not (ltb (value s) (2 ^ 64))
    then none
    else some (value s)

-- `str::parse::<u64>`, which takes a leading plus sign.
unfoldable pub parse_u64 : Text → Option ℕ
unfolding text_eq value_from
parse_u64 [] = none
parse_u64 (c ∷ s) = if c == b'+' then digits_u64 s else digits_u64 (c ∷ s)

-- The first byte, where the header says it, and the full size.
abbrev pub RangeParts : Type 0
RangeParts = Option ℕ × ℕ

abbrev with_end : ℕ → ℕ → Option ℕ → Option RangeParts
with_end full s none = none
with_end full s (some t) = some (some s, full)

abbrev with_start : ℕ → Text → Option ℕ → Option RangeParts
with_start full t none = none
with_start full t (some s) = with_end full s (parse_u64 t)

abbrev sides : ℕ → Option (Text × Text) → Option RangeParts
sides full none = none
sides full (some (s, t)) = with_start full t (parse_u64 s)

abbrev unit_of : ℕ → Option (Text × Text) → Option RangeParts
unit_of full none = none
unit_of full (some (unit, spec)) =
    if not (text_eq unit (codes "bytes"))
    then none
    else if text_eq spec (codes "*")
    then some (none, full)
    else sides full (split_once b'-' spec)

abbrev with_full : Text → Option ℕ → Option RangeParts
with_full range none = none
with_full range (some full) = unit_of full (split_once b' ' range)

abbrev halves : Option (Text × Text) → Option RangeParts
halves none = none
halves (some (range, full)) = with_full range (parse_u64 (trim full))

unfoldable pub content_range_parts : Text → Option RangeParts
unfolding parse_u64 split_once text_eq trim
content_range_parts val = halves (split_once b'/' val)

abbrev full_of : Option RangeParts → Option ℕ
full_of none = none
full_of (some (start, full)) = some full

abbrev start_of : Option RangeParts → Option ℕ
start_of none = none
start_of (some (start, full)) = start

abbrev parts_of : Option Text → Option RangeParts
parts_of none = none
parts_of (some val) = content_range_parts val

-- Of the header's value, where it is there and is text.
unfoldable pub content_range_total : Option Text → Option ℕ
content_range_total header = full_of (parts_of header)

unfoldable pub content_range_start : Option Text → Option ℕ
content_range_start header = start_of (parts_of header)

parts-total :
    (parts : Option RangeParts) (s : ℕ)
    → start_of parts ≡ some s
    → (t : ℕ) × (full_of parts ≡ some t)
parts-total none s h = cc
parts-total (some (start, full)) s h = (full, refl)

-- A header that says the first byte says the full size.
pub content_range_start-total :
    (header : Option Text) (s : ℕ)
    → content_range_start header ≡ some s
    → (t : ℕ) × (content_range_total header ≡ some t)
unfolding content_range_start content_range_total
content_range_start-total header s h = parts-total (parts_of header) s h

pub data Resume206Decision : Type 0 where
  append fallback_fresh : Resume206Decision

abbrev decided : ℕ → Option ℕ → Resume206Decision
decided from none = fallback_fresh
decided from (some s) = if s == from then append else fallback_fresh

unfoldable pub resume_206_decision : Option Text → ℕ → Resume206Decision
resume_206_decision header from = decided from (content_range_start header)
