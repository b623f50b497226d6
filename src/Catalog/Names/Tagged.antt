-- ===== src/Catalog/Names/Tagged.antt =====
-- src/torrent/opds.rs, `base_and_version`: a name that carries a date tag is read back.
use zimi_rs.Base.{
  ℕ, ◌+◌, ◌-◌, ◌/◌, ◌%◌, ◌^◌, ◌<◌, ◌≡◌, refl, sym, ap, ◌∙◌, true, false, none, some, [], ◌∷◌, ◌++◌,
  all, contains, split, split-append, split_whole, arith, Text, text_eq, ◌⊎◌, inl,
}
use zimi_rs.Content.Utf8.{len_utf8, byte_len, take_bytes, drop_bytes, rfind}
use zimi_rs.Content.Range.{is_ascii_digit, value, value_from}
use zimi_rs.Direct.Headers.{parse_u64}
use zimi_rs.Catalog.Names.{Version, dated, parse_date_tag, base_and_version}

-- The last decimal digit of a number, and numbers of two and of four digits.
abbrev digit : ℕ → ℕ
digit n = b'0' + n % 10

abbrev pub two : ℕ → Text
two n = digit (n / 10) ∷ digit n ∷ []

abbrev pub four : ℕ → Text
four n = digit (n / 1000) ∷ digit (n / 100) ∷ digit (n / 10) ∷ digit n ∷ []

rfind_absent : (d : ℕ) (t : Text) → contains d t ≡ false → rfind d t ≡ none
unfolding contains rfind
rfind_absent d [] h = refl
rfind_absent d (c ∷ t) h = let e = rfind_absent d t (ground arith) in ground (arith, e)

rfind-append :
    (d : ℕ) (s t : Text) → contains d t ≡ false → rfind d (s ++ (d ∷ t)) ≡ some (byte_len s)
unfolding rfind byte_len
rfind-append d [] t h = let e = rfind_absent d t h in rw e (ground arith)
rfind-append d (c ∷ s) t h = let e = rfind-append d s t h in rw e refl

plus_minus : (a b : ℕ) → a + b - a ≡ b
plus_minus a b = omega arith

between : (a b : ℕ) → a + b + 1 - a ≡ b + 1
between a b = omega arith

drop_bytes_none : (t : Text) → drop_bytes 0 t ≡ t
unfolding drop_bytes
drop_bytes_none [] = refl
drop_bytes_none (c ∷ t) = refl

byte_len-append : (s t : Text) → byte_len (s ++ t) ≡ byte_len s + byte_len t
unfolding byte_len
byte_len-append [] t = omega arith
byte_len-append (c ∷ s) t = omega (arith, byte_len-append s t)

take_bytes-append : (s t : Text) → take_bytes (byte_len s) (s ++ t) ≡ s
unfolding take_bytes byte_len
take_bytes-append [] [] = refl
take_bytes-append [] (c ∷ t) = refl
take_bytes-append (c ∷ s) t =
    ground (arith, take_bytes-append s t, plus_minus (len_utf8 c) (byte_len s))

drop_bytes-append :
    (s : Text) (c : ℕ) (t : Text) → c < 0x80 → drop_bytes (byte_len s + 1) (s ++ (c ∷ t)) ≡ t
unfolding drop_bytes byte_len
drop_bytes-append [] c t h = ground (arith, drop_bytes_none t)
drop_bytes-append (d ∷ s) c t h =
    ground (arith, drop_bytes-append s c t, between (len_utf8 d) (byte_len s))

parse_u64-digits :
    (c : ℕ) (s : Text)
    → all is_ascii_digit (c ∷ s) ≡ true
    → value (c ∷ s) < 2 ^ 64
    → parse_u64 (c ∷ s) ≡ some (value (c ∷ s))
unfolding parse_u64 text_eq value_from
parse_u64-digits c s h k = ground (arith, h, k)

value-four : (n : ℕ) → n < 10000 → value (four n) ≡ n
unfolding value_from
value-four n h = omega (arith, h)

value-two : (n : ℕ) → n < 100 → value (two n) ≡ n
unfolding value_from
value-two n h = omega (arith, h)

parse_u64-four : (n : ℕ) → n < 10000 → parse_u64 (four n) ≡ some n
unfolding value_from
parse_u64-four n h =
    parse_u64-digits (digit (n / 1000)) (digit (n / 100) ∷ digit (n / 10) ∷ digit n ∷ [])
      (ground arith) (omega (arith, h))
    ∙ ap some (value-four n h)

parse_u64-two : (n : ℕ) → n < 100 → parse_u64 (two n) ≡ some n
unfolding value_from
parse_u64-two n h =
    parse_u64-digits (digit (n / 10)) (digit n ∷ []) (ground arith) (omega (arith, h))
    ∙ ap some (value-two n h)

byte_len-four : (n : ℕ) → byte_len (four n) ≡ 4
unfolding byte_len
byte_len-four n = ground arith

byte_len-two : (n : ℕ) → byte_len (two n) ≡ 2
unfolding byte_len
byte_len-two n = ground arith

contains-four : (c n : ℕ) → c < b'0' ⊎ b'9' < c → contains c (four n) ≡ false
unfolding contains
contains-four c n h = ground (arith, h)

contains-two : (c n : ℕ) → c < b'0' ⊎ b'9' < c → contains c (two n) ≡ false
unfolding contains
contains-two c n h = ground (arith, h)

abbrev dash : Text → Text → Text
dash s t = s ++ (b'-' ∷ t)

-- The date forms `YYYY-MM`, `YYYY-MM-DD` and `YYYYMM`.
abbrev pub month_tag : ℕ → ℕ → Text
month_tag y m = dash (four y) (two m)

abbrev pub day_tag : ℕ → ℕ → ℕ → Text
day_tag y m d = dash (four y) (dash (two m) (two d))

abbrev pub digits_tag : ℕ → ℕ → Text
digits_tag y m = four y ++ two m

module _ (y m d : ℕ) (hy : y < 10000) (hm : m < 100) where
  pieces_two : (n : ℕ) → split b'-' (two n) ≡ two n ∷ []
  pieces_two n = split_whole b'-' (two n) (contains-two b'-' n (inl (omega arith)))

  pieces_four : split b'-' (four y) ≡ four y ∷ []
  pieces_four = split_whole b'-' (four y) (contains-four b'-' y (inl (omega arith)))

  parse_date_tag-month : parse_date_tag (month_tag y m) ≡ some (y, m)
  unfolding parse_date_tag
  parse_date_tag-month =
      rw
        (
          split-append b'-' (four y) (two m),
          pieces_four,
          pieces_two m,
          byte_len-four y,
          byte_len-two m,
          parse_u64-four y hy,
          parse_u64-two m hm,
        )
        refl

  parse_date_tag-day : parse_date_tag (day_tag y m d) ≡ some (y, m)
  unfolding parse_date_tag
  parse_date_tag-day =
      rw
        (
          split-append b'-' (four y) (dash (two m) (two d)),
          split-append b'-' (two m) (two d),
          pieces_four,
          pieces_two m,
          pieces_two d,
          byte_len-four y,
          byte_len-two m,
          byte_len-two d,
          parse_u64-four y hy,
          parse_u64-two m hm,
        )
        refl

  taken : take_bytes 4 (digits_tag y m) ≡ four y
  taken =
      ap (λ n. take_bytes n (digits_tag y m)) (sym (byte_len-four y))
      ∙ take_bytes-append (four y) (two m)

  dropped : drop_bytes 4 (digits_tag y m) ≡ two m
  unfolding drop_bytes
  dropped = ground arith

  spans_six : byte_len (digits_tag y m) ≡ 6
  spans_six = omega (arith, byte_len-append (four y) (two m), byte_len-four y, byte_len-two m)

  all_digits : all is_ascii_digit (digits_tag y m) ≡ true
  all_digits = ground arith

  pieces_digits : split b'-' (digits_tag y m) ≡ digits_tag y m ∷ []
  unfolding contains
  pieces_digits = split_whole b'-' (digits_tag y m) (ground arith)

  dated_six : dated (digits_tag y m ∷ []) ≡ some (y, m)
  dated_six =
      rw (spans_six, taken, dropped, parse_u64-four y hy, parse_u64-two m hm)
        (ground (arith, all_digits))

  parse_date_tag-digits : parse_date_tag (digits_tag y m) ≡ some (y, m)
  unfolding parse_date_tag
  parse_date_tag-digits = ap dated pieces_digits ∙ dated_six

read_back :
    (base tail : Text) (v : Version)
    → contains b'_' tail ≡ false
    → parse_date_tag tail ≡ some v
    → base_and_version (base ++ (b'_' ∷ tail)) ≡ (base, some v)
unfolding base_and_version
read_back base tail v h e =
    rw
      (
        rfind-append b'_' base tail h,
        take_bytes-append base (b'_' ∷ tail),
        drop_bytes-append base b'_' tail (omega arith),
        e,
      )
      refl

-- A name that ends in an underscore and a month, a day or a month without its dash is read back as
-- the text before the underscore, whatever it is, with the year and the month.
pub base_and_version-tagged :
    (base : Text) (y m d : ℕ)
    → y < 10000
    → m < 100
    → (base_and_version (base ++ (b'_' ∷ month_tag y m)) ≡ (base, some (y, m)))
      × (base_and_version (base ++ (b'_' ∷ day_tag y m d)) ≡ (base, some (y, m)))
      × (base_and_version (base ++ (b'_' ∷ digits_tag y m)) ≡ (base, some (y, m)))
unfolding contains
base_and_version-tagged base y m d hy hm = (
  read_back base (month_tag y m) (y, m) (ground arith) (parse_date_tag-month y m d hy hm),
  read_back base (day_tag y m d) (y, m) (ground arith) (parse_date_tag-day y m d hy hm),
  read_back base (digits_tag y m) (y, m) (ground arith) (parse_date_tag-digits y m d hy hm),
)
