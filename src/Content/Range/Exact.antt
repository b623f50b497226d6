-- ===== src/Content/Range/Exact.antt =====
-- src/serve/handlers/content.rs: what a range of two positions means, overflows included.
use mathlib.Core.List.{reverse_aux, reverse-reverse}
use zimi_rs.Base.{
  ℕ, ◌-◌, ◌^◌, ◌≤◌, ◌<◌, min, ◌≡◌, refl, ap, ◌∙◌, Bool, true, false, not, ◌&&◌, ◌||◌, some, [], ◌∷◌,
  ◌++◌, reverse, ltb, leb, ◌==◌, all, if◌then◌else◌, Text, codes, text_eq, contains, split_once,
  strip_prefix, is_whitespace, trim, trim_start_by, trim_end_by, arith, Bool-cases, inl, inr,
}
use zimi_rs.Content.Range.{
  ParsedRange, slice, unsatisfiable, is_ascii_digit, value, in_u64, parse_range_num, closed_from,
  closed_range, parse_single_range,
}

abbrev solid : ℕ → Bool
solid c = not (is_whitespace c)

all-reverse_aux : (p : ℕ → Bool) (xs r : Text) → all p (reverse_aux xs r) ≡ (all p xs && all p r)
all-reverse_aux p [] r = refl
all-reverse_aux p (x ∷ xs) r = ground (arith, all-reverse_aux p xs (x ∷ r))

trim_start_by-solid : (s : Text) → all solid s ≡ true → trim_start_by is_whitespace s ≡ s
unfolding trim_start_by
trim_start_by-solid [] h = refl
trim_start_by-solid (c ∷ s) h = ground arith

-- A text without whitespace is not trimmed.
trim-solid : (s : Text) → all solid s ≡ true → trim s ≡ s
unfolding trim trim_end_by
trim-solid s h =
    let back : all solid (reverse s) ≡ true = ground (arith, all-reverse_aux solid s []) in
    rw (trim_start_by-solid s h, trim_start_by-solid (reverse s) back, reverse-reverse s) refl

-- A digit is not whitespace, no dash and no comma.
digit_solid :
    (c : ℕ)
    → is_ascii_digit c ≡ true
    → (solid c ≡ true) × ((c == b'-') ≡ false) × ((c == b',') ≡ false)
unfolding is_whitespace
digit_solid c h = ground arith

all-solid : (s : Text) → all is_ascii_digit s ≡ true → all solid s ≡ true
all-solid [] h = refl
all-solid (c ∷ s) h = ground (arith, digit_solid c, all-solid s)

-- The number of a token, by the value of its digits.
parse_range_num_digits :
    (s : Text)
    → text_eq s [] ≡ false
    → all is_ascii_digit s ≡ true
    → parse_range_num s ≡ in_u64 (value s)
unfolding parse_range_num
parse_range_num_digits s some_digit h = rw (trim-solid s (all-solid s h), some_digit, h) refl

all-append : (p : ℕ → Bool) (xs ys : Text) → all p (xs ++ ys) ≡ (all p xs && all p ys)
all-append p [] ys = refl
all-append p (x ∷ xs) ys = ground (arith, all-append p xs ys)

contains-digits :
    (a : Text) (s : Text) → all is_ascii_digit a ≡ true → contains b',' (a ++ s) ≡ contains b',' s
unfolding contains
contains-digits [] s h = refl
contains-digits (c ∷ a) s h = ground (arith, digit_solid c, contains-digits a s)

contains_digits : (a : Text) → all is_ascii_digit a ≡ true → contains b',' a ≡ false
unfolding contains
contains_digits [] h = refl
contains_digits (c ∷ a) h = ground (arith, digit_solid c, contains_digits a)

contains_digits_after : (b : Text) → all is_ascii_digit b ≡ true → contains b',' (b'-' ∷ b) ≡ false
unfolding contains
contains_digits_after b h = contains_digits b h

split_once-digits :
    (a b : Text) → all is_ascii_digit a ≡ true → split_once b'-' (a ++ (b'-' ∷ b)) ≡ some (a, b)
unfolding split_once
split_once-digits [] b h = refl
split_once-digits (c ∷ a) b h =
    let (_, dash, _) = digit_solid c (ground arith) in
    rw (dash, split_once-digits a b (ground arith)) refl

-- RFC 7233 over unbounded numbers: the positions that a range of the two asks for.
abbrev pub range_of : ℕ → ℕ → ℕ → ParsedRange
range_of total start end =
    if leb total start || ltb end start then unsatisfiable else slice start (min end (total - 1))

closed_from_exact :
    (total start end : ℕ) → closed_from total start end ≡ some (range_of total start end)
closed_from_exact total start end = elim (Bool-cases (leb total start || ltb end start)) [
  | inl refused ↦ rw refused refl
  | inr fine ↦ elim (Bool-cases (leb total end)) [
    | inl long ↦
        let last : min end (total - 1) ≡ total - 1 = ground arith in rw (fine, long, last) refl
    | inr short ↦ let last : min end (total - 1) ≡ end = ground arith in rw (fine, short, last) refl
  ]
]

closed_from_top :
    (total start end : ℕ)
    → 0 < total
    → total ≤ end
    → closed_from total start (total - 1) ≡ some (range_of total start end)
closed_from_top total start end h k =
    let same : range_of total start (total - 1) ≡ range_of total start end =
      elim (Bool-cases (leb total start)) [
        | inl past ↦ rw past refl
        | inr before ↦
            let left : ltb (total - 1) start ≡ false = ground arith in
            let right : ltb end start ≡ false = ground arith in
            let last : min (total - 1) (total - 1) ≡ total - 1 = omega arith in
            let last' : min end (total - 1) ≡ total - 1 = omega arith in
            rw (before, left, right, last, last') refl
      ] in
    closed_from_exact total start (total - 1) ∙ ap some same

closed_range_exact :
    (total start end : ℕ)
    → 0 < total
    → total < 2 ^ 64
    → closed_range total (in_u64 start) (in_u64 end) ≡ some (range_of total start end)
closed_range_exact total start end h fits = elim (Bool-cases (ltb start (2 ^ 64))) [
  | inr huge ↦ let past : leb total start ≡ true = ground arith in rw (huge, past) refl
  | inl small ↦ elim (Bool-cases (ltb end (2 ^ 64))) [
    | inl small' ↦ rw (small, small') (closed_from_exact total start end)
    | inr huge' ↦ rw (small, huge') (closed_from_top total start end h (ground arith))
  ]
]

-- `bytes=a-b`, for positions of any number of digits, asks for what RFC 7233 says over unbounded
-- numbers: nothing when the first is past the body or the last before it, and else the bytes from the
-- first to the last, or to the end of the body.
pub parse_single_range_exact :
    (a b : Text) (total : ℕ)
    → text_eq a [] ≡ false
    → text_eq b [] ≡ false
    → all is_ascii_digit a ≡ true
    → all is_ascii_digit b ≡ true
    → 0 < total
    → total < 2 ^ 64
    → parse_single_range (codes "bytes=" ++ (a ++ (b'-' ∷ b))) total
      ≡ some (range_of total (value a) (value b))
unfolding parse_single_range strip_prefix is_whitespace
parse_single_range_exact a b total some_a some_b digits_a digits_b h fits =
    let sides_solid : all solid (a ++ (b'-' ∷ b)) ≡ true =
      rw (all-append solid a (b'-' ∷ b), all-solid a digits_a, all-solid b digits_b) refl in
    let header_solid : all solid (codes "bytes=" ++ (a ++ (b'-' ∷ b))) ≡ true =
      rw sides_solid refl in
    let no_comma : contains b',' (a ++ (b'-' ∷ b)) ≡ false =
      contains-digits a (b'-' ∷ b) digits_a ∙ contains_digits_after b digits_b in
    let some_total : (total == 0) ≡ false = ground arith in
    rw
      (
        trim-solid (codes "bytes=" ++ (a ++ (b'-' ∷ b))) header_solid,
        no_comma,
        some_total,
        split_once-digits a b digits_a,
        some_a,
        some_b,
        parse_range_num_digits a some_a digits_a,
        parse_range_num_digits b some_b digits_b,
      )
      (closed_range_exact total (value a) (value b) h fits)
