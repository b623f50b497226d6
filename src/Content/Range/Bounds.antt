-- ===== src/Content/Range/Bounds.antt =====
-- src/serve/handlers/content.rs: a range that is served lies within the body.
use zimi_rs.Base.{
  ℕ, ◌-◌, ◌≤◌, ◌<◌, ◌≡◌, refl, Bool, true, false, ◌||◌, Option, none, some, [], ltb, leb, ◌==◌,
  if◌then◌else◌, Text, text_eq, contains, split_once, arith, codes, strip_prefix, trim,
}
use zimi_rs.Content.Range.{
  ParsedRange, slice, unsatisfiable, RangeNum, val, overflow, invalid, parse_range_num,
  suffix_range, open_range, closed_from, closed_range, parse_sides, parse_spec, parse_single_range,
}

-- What a parsed range must be against a body of `total` bytes.
abbrev pub Fits : ℕ → Option ParsedRange → Type 0
Fits total none = Unit
Fits total (some unsatisfiable) = Unit
Fits total (some (slice start end)) = (start ≤ end) × (end < total)

Fits-if :
    (total : ℕ) (b : Bool) (x y : Option ParsedRange)
    → (b ≡ true → Fits total x)
    → (b ≡ false → Fits total y)
    → Fits total (if b then x else y)
Fits-if total true x y f g = f refl
Fits-if total false x y f g = g refl

suffix_range-Fits : (total : ℕ) (n : RangeNum) → 0 < total → Fits total (suffix_range total n)
suffix_range-Fits total (val s) h = Fits-if total (s == 0) _ _ (λ e. tt) (λ e. ground arith)
suffix_range-Fits total overflow h = omega arith
suffix_range-Fits total invalid h = tt

open_range-Fits : (total : ℕ) (n : RangeNum) → Fits total (open_range total n)
open_range-Fits total (val s) = Fits-if total (leb total s) _ _ (λ e. tt) (λ e. ground arith)
open_range-Fits total overflow = tt
open_range-Fits total invalid = tt

closed_from-Fits : (total start end : ℕ) → Fits total (closed_from total start end)
closed_from-Fits total start end =
    Fits-if total (leb total start || ltb end start) _ _ (λ e. tt)
      (λ e. Fits-if total (leb total end) _ _ (λ f. ground arith) (λ f. ground arith))

closed_range-Fits : (total : ℕ) (a b : RangeNum) → Fits total (closed_range total a b)
closed_range-Fits total (val s) (val e) = closed_from-Fits total s e
closed_range-Fits total (val s) overflow = closed_from-Fits total s (total - 1)
closed_range-Fits total (val s) invalid = tt
closed_range-Fits total overflow b = tt
closed_range-Fits total invalid b = tt

parse_sides-Fits :
    (total : ℕ) (sides : Option (Text × Text)) → 0 < total → Fits total (parse_sides total sides)
parse_sides-Fits total none h = tt
parse_sides-Fits total (some (a, b)) h =
    Fits-if total (text_eq a []) _ _ (λ e. suffix_range-Fits total (parse_range_num b) h)
      (λ e.
        Fits-if total (text_eq b []) _ _ (λ f. open_range-Fits total (parse_range_num a))
          (λ f. closed_range-Fits total (parse_range_num a) (parse_range_num b)))

parse_spec-Fits : (total : ℕ) (spec : Option Text) → Fits total (parse_spec total spec)
parse_spec-Fits total none = tt
parse_spec-Fits total (some spec) =
    Fits-if total (contains b',' spec) _ _ (λ e. tt)
      (λ e.
        Fits-if total (total == 0) _ _ (λ f. tt)
          (λ f. parse_sides-Fits total (split_once b'-' spec) (ground arith)))

-- Whatever the header says, a range that is to be served is not empty and lies within the body.
pub parse_single_range-Fits :
    (header : Text) (total : ℕ) → Fits total (parse_single_range header total)
unfolding parse_single_range
parse_single_range-Fits header total =
    parse_spec-Fits total (strip_prefix (codes "bytes=") (trim header))
