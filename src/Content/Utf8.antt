-- ===== src/Content/Utf8.antt =====
-- `str` by byte offsets: a text is its code points, and an offset counts the bytes of their UTF-8 form.
use zimi_rs.Base.{
  ℕ, zero, suc, ◌+◌, ◌-◌, ◌≤◌, ◌<◌, ◌≡◌, refl, Bool, true, false, Option, none, some, [], ◌∷◌, ◌==◌,
  ltb, leb, if◌then◌else◌, Text, arith, Option-cases, inl, inr,
}

-- `char::len_utf8`.
abbrev pub len_utf8 : ℕ → ℕ
len_utf8 c = if ltb c 0x80 then 1 else if ltb c 0x800 then 2 else if ltb c 0x10000 then 3 else 4

unfoldable pub byte_len : Text → ℕ
byte_len [] = 0
byte_len (c ∷ s) = len_utf8 c + byte_len s

unfoldable pub is_char_boundary : ℕ → Text → Bool
is_char_boundary n [] = n == 0
is_char_boundary n (c ∷ s) =
    let rest = is_char_boundary (n - len_utf8 c) s in
    if n == 0 then true else if leb (len_utf8 c) n then rest else false

unfoldable pub ceil_char_boundary : ℕ → Text → ℕ
ceil_char_boundary n [] = 0
ceil_char_boundary n (c ∷ s) =
    let rest = ceil_char_boundary (n - len_utf8 c) s in if n == 0 then 0 else len_utf8 c + rest

unfoldable pub floor_char_boundary : ℕ → Text → ℕ
floor_char_boundary n [] = 0
floor_char_boundary n (c ∷ s) =
    let rest = floor_char_boundary (n - len_utf8 c) s in
    if ltb n (len_utf8 c) then 0 else len_utf8 c + rest

unfoldable pub drop_bytes : ℕ → Text → Text
drop_bytes n [] = []
drop_bytes n (c ∷ s) = let rest = drop_bytes (n - len_utf8 c) s in if n == 0 then c ∷ s else rest

unfoldable pub take_bytes : ℕ → Text → Text
take_bytes n [] = []
take_bytes n (c ∷ s) = let rest = take_bytes (n - len_utf8 c) s in if n == 0 then [] else c ∷ rest

-- `&text[a..b]`, for two boundaries.
abbrev pub slice : ℕ → ℕ → Text → Text
slice a b s = take_bytes (b - a) (drop_bytes a s)

abbrev last_of : ℕ → ℕ → Option ℕ → Option ℕ
last_of c d (some p) = some (len_utf8 c + p)
last_of c d none = if c == d then some 0 else none

-- `rfind(d)`.
unfoldable pub rfind : ℕ → Text → Option ℕ
rfind d [] = none
rfind d (c ∷ s) = last_of c d (rfind d s)

pub ceil_char_boundary-ge : (n : ℕ) (s : Text) → n ≤ byte_len s → n ≤ ceil_char_boundary n s
unfolding byte_len ceil_char_boundary
ceil_char_boundary-ge n [] h = omega arith
ceil_char_boundary-ge n (c ∷ s) h = ground (arith, ceil_char_boundary-ge (n - len_utf8 c) s)

pub ceil_char_boundary-le : (n : ℕ) (s : Text) → ceil_char_boundary n s ≤ n + 3
unfolding ceil_char_boundary
ceil_char_boundary-le n [] = omega arith
ceil_char_boundary-le n (c ∷ s) =
    ground (arith, ceil_char_boundary-le (n - len_utf8 c) s, ceil_zero s)
  where
    ceil_zero : (s : Text) → ceil_char_boundary 0 s ≡ 0
    ceil_zero [] = refl
    ceil_zero (c ∷ s) = refl

pub ceil_char_boundary-le_len : (n : ℕ) (s : Text) → ceil_char_boundary n s ≤ byte_len s
unfolding byte_len ceil_char_boundary
ceil_char_boundary-le_len n [] = omega arith
ceil_char_boundary-le_len n (c ∷ s) = ground (arith, ceil_char_boundary-le_len (n - len_utf8 c) s)

pub ceil_char_boundary-is_boundary :
    (n : ℕ) (s : Text) → is_char_boundary (ceil_char_boundary n s) s ≡ true
unfolding is_char_boundary ceil_char_boundary
ceil_char_boundary-is_boundary n [] = refl
ceil_char_boundary-is_boundary n (c ∷ s) = ground (
  arith,
  plus_minus (len_utf8 c) (ceil_char_boundary (n - len_utf8 c) s),
  ceil_char_boundary-is_boundary (n - len_utf8 c) s,
)
  where
    plus_minus : (a b : ℕ) → a + b - a ≡ b
    plus_minus a b = omega arith

pub floor_char_boundary-is_boundary :
    (n : ℕ) (s : Text) → is_char_boundary (floor_char_boundary n s) s ≡ true
unfolding is_char_boundary floor_char_boundary
floor_char_boundary-is_boundary n [] = refl
floor_char_boundary-is_boundary n (c ∷ s) = ground (
  arith,
  plus_minus (len_utf8 c) (floor_char_boundary (n - len_utf8 c) s),
  floor_char_boundary-is_boundary (n - len_utf8 c) s,
)
  where
    plus_minus : (a b : ℕ) → a + b - a ≡ b
    plus_minus a b = omega arith

pub floor_char_boundary-le : (n : ℕ) (s : Text) → floor_char_boundary n s ≤ n
unfolding floor_char_boundary
floor_char_boundary-le n [] = omega arith
floor_char_boundary-le n (c ∷ s) = ground (arith, floor_char_boundary-le (n - len_utf8 c) s)

zero_plus : (b : ℕ) → 0 + b ≡ b
zero_plus b = omega arith

shifted : (a b w : ℕ) → w ≤ suc a → suc a + b - w ≡ suc a - w + b
shifted a b w h = omega arith

-- The boundaries of what follows a boundary.
pub is_char_boundary-add :
    (a b : ℕ) (s : Text)
    → is_char_boundary a s ≡ true
    → is_char_boundary b (drop_bytes a s) ≡ true
    → is_char_boundary (a + b) s ≡ true
unfolding is_char_boundary drop_bytes
is_char_boundary-add a b [] h k = ground arith
is_char_boundary-add zero b (c ∷ s) h k = rw (zero_plus b) k
is_char_boundary-add (suc a) b (c ∷ s) h k =
    ground (arith, shifted a b (len_utf8 c), is_char_boundary-add (suc a - len_utf8 c) b s)

pub boundary_zero : (s : Text) → is_char_boundary 0 s ≡ true
unfolding is_char_boundary
boundary_zero [] = refl
boundary_zero (c ∷ s) = refl

some_injective : {a b : ℕ} → some a ≡ some b → a ≡ b
some_injective h = cc

take_bytes-suc :
    (n c : ℕ) (s : Text) → take_bytes (suc n) (c ∷ s) ≡ c ∷ take_bytes (suc n - len_utf8 c) s
unfolding take_bytes
take_bytes-suc n c s = ground arith

nothing_at : (d n p : ℕ) → rfind d (take_bytes n []) ≡ some p → ⊥
unfolding take_bytes rfind
nothing_at d n p h = cc

nothing_in : (d p c : ℕ) (s : Text) → rfind d (take_bytes 0 (c ∷ s)) ≡ some p → ⊥
unfolding take_bytes rfind
nothing_in d p c s h = cc

-- A one-byte character that `rfind` finds lies in the window, and the byte after it is a boundary.
pub rfind_window :
    (d n p : ℕ) (s : Text)
    → d < 0x80
    → rfind d (take_bytes n s) ≡ some p
    → (is_char_boundary (p + 1) s ≡ true) × (p < n)
unfolding is_char_boundary rfind
rfind_window d n p [] small h = absurd (nothing_at d n p h)
rfind_window d zero p (c ∷ s) small h = absurd (nothing_in d p c s h)
rfind_window d (suc n) p (c ∷ s) small h =
    let h' : last_of c d (rfind d (take_bytes (suc n - len_utf8 c) s)) ≡ some p =
      rw (take_bytes-suc n c s) at h in
    elim (Option-cases (rfind d (take_bytes (suc n - len_utf8 c) s))) [
      | inl nowhere ↦
          let here : last_of c d none ≡ some p = rw nowhere at h' in ground (arith, boundary_zero s)
      | inr (q, found) ↦
          let there : last_of c d (some q) ≡ some p = rw found at h' in
          let p_is : len_utf8 c + q ≡ p = some_injective there in
          let (later, within) = rfind_window d (suc n - len_utf8 c) q s small found in
          let next : p + 1 - len_utf8 c ≡ q + 1 = omega arith in ground (arith, later, next)
    ]
