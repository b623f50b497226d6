-- ===== src/Catalog/Digest.antt =====
-- src/torrent/opds.rs: the digest that a link of the catalog declares, by a hexadecimal or a base64
-- attribute. The base64 decoder (crate base64) is a parameter.
use zimi_rs.Base.{
  ℕ, ◌+◌, ◌-◌, ◌*◌, ◌/◌, ◌%◌, ◌<◌, ◌≡◌, refl, Bool, true, not, ◌&&◌, ◌||◌, Option, none, some, List,
  [], ◌∷◌, ◌==◌, ltb, leb, all, All, keep, length, map, if◌then◌else◌, if-rule, arith, Text,
  text_eq, trim, to_ascii_lower,
}

-- `char::is_ascii_hexdigit`, on a lowered text.
abbrev pub is_ascii_hexdigit : ℕ → Bool
is_ascii_hexdigit c =
    (leb b'0' c && leb c b'9') || (leb b'a' c && leb c b'f') || (leb b'A' c && leb c b'F')

abbrev pub is_lower_hex : ℕ → Bool
is_lower_hex c = (leb b'0' c && leb c b'9') || (leb b'a' c && leb c b'f')

-- The length in bytes is that in characters once every character is a digit.
unfoldable pub hex_sha256 : Text → Option Text
unfolding to_ascii_lower
hex_sha256 s =
    let lower = map to_ascii_lower s in
    if not (length lower == 64) || not (all is_ascii_hexdigit lower) then none else some lower

abbrev nibble : ℕ → ℕ
nibble n = if ltb n 10 then b'0' + n else b'a' + (n - 10)

-- `{b:02x}` for each byte.
unfoldable pub hex_bytes : List ℕ → Text
hex_bytes [] = []
hex_bytes (b ∷ bs) = nibble (b / 16) ∷ nibble (b % 16) ∷ hex_bytes bs

abbrev is_ascii_whitespace : ℕ → Bool
is_ascii_whitespace c = c == 32 || c == 9 || c == 10 || c == 12 || c == 13

abbrev non_empty : Option Text → Option Text
non_empty none = none
non_empty (some s) = let t = trim s in if text_eq t [] then none else some t

abbrev pub and_then {ℓ κ} : {A : Type ℓ} {B : Type κ} → Option A → (A → Option B) → Option B
and_then none f = none
and_then (some a) f = f a

abbrev agreed : Option Text → Option Text → Option Text
agreed none none = none
agreed none (some b) = some b
agreed (some a) none = some a
agreed (some a) (some b) = if text_eq a b then some a else none

module _ (decode : Text → Option (List ℕ)) where
  abbrev b64_decode : Text → Option (List ℕ)
  b64_decode s = decode (keep (λ c. not (is_ascii_whitespace c)) s)

  abbrev exactly_32 : List ℕ → Option (List ℕ)
  exactly_32 bytes = if not (length bytes == 32) then none else some bytes

  abbrev pub b64_decode_32 : Text → Option (List ℕ)
  b64_decode_32 s = and_then (b64_decode s) exactly_32

  -- `ZimDigest::parse`.
  unfoldable pub parse_digest : Option Text → Option Text → Option Text
  unfolding trim text_eq
  parse_digest hash digest =
      agreed (and_then (non_empty hash) hex_sha256)
        (and_then (and_then (non_empty digest) b64_decode_32) (λ b. some (hex_bytes b)))

-- 64 lowercase hexadecimal digits.
abbrev pub IsNormal : Text → Type 0
IsNormal s = (length s ≡ 64) × (all is_lower_hex s ≡ true)

lowered :
    (s : Text)
    → all is_ascii_hexdigit (map to_ascii_lower s) ≡ true
    → all is_lower_hex (map to_ascii_lower s) ≡ true
unfolding to_ascii_lower
lowered [] h = refl
lowered (c ∷ s) h = ground (arith, lowered s)

length-hex_bytes : (bs : List ℕ) → length (hex_bytes bs) ≡ 2 * length bs
unfolding hex_bytes
length-hex_bytes [] = refl
length-hex_bytes (b ∷ bs) = omega (arith, length-hex_bytes bs)

hex_bytes-hex : (bs : List ℕ) → All (λ b. b < 256) bs → all is_lower_hex (hex_bytes bs) ≡ true
unfolding hex_bytes
hex_bytes-hex [] h = refl
hex_bytes-hex (b ∷ bs) h = ground (arith, hex_bytes-hex bs)

abbrev pub IfSome {ℓ κ} : {A : Type ℓ} → (A → Type κ) → Option A → Type κ
IfSome P none = Unit
IfSome P (some a) = P a

hex_part : (o : Option Text) → IfSome IsNormal (and_then o hex_sha256)
unfolding hex_sha256
hex_part none = tt
hex_part (some s) =
    let lower = map to_ascii_lower s in
    if-rule (IfSome IsNormal) (not (length lower == 64) || not (all is_ascii_hexdigit lower)) none
      (some lower) (λ _. tt) (λ good. (ground arith, lowered s (ground arith)))

IsNormal-bytes : (bs : List ℕ) → All (λ b. b < 256) bs → length bs ≡ 32 → IsNormal (hex_bytes bs)
IsNormal-bytes bs small n = (omega (arith, length-hex_bytes bs), hex_bytes-hex bs small)

agreed-IsNormal :
    (a b : Option Text) → IfSome IsNormal a → IfSome IsNormal b → IfSome IsNormal (agreed a b)
agreed-IsNormal none none ha hb = tt
agreed-IsNormal none (some b) ha hb = hb
agreed-IsNormal (some a) none ha hb = ha
agreed-IsNormal (some a) (some b) ha hb =
    if-rule (IfSome IsNormal) (text_eq a b) (some a) none (λ _. ha) (λ _. tt)

module _ (decode : Text → Option (List ℕ))
    (bytes : (s : Text) → IfSome (All (λ b. b < 256)) (decode s)) where
  exact_part :
      (o : Option (List ℕ))
      → IfSome (All (λ b. b < 256)) o
      → IfSome IsNormal (and_then (and_then o (exactly_32 decode)) (λ b. some (hex_bytes b)))
  exact_part none h = tt
  exact_part (some bs) h =
      if-rule (λ o. IfSome IsNormal (and_then o (λ b. some (hex_bytes b)))) (not (length bs == 32))
        none (some bs) (λ _. tt) (λ n. IsNormal-bytes bs h (ground arith))

  base64_part :
      (o : Option Text)
      → IfSome IsNormal (and_then (and_then o (b64_decode_32 decode)) (λ b. some (hex_bytes b)))
  base64_part none = tt
  base64_part (some s) =
      exact_part (b64_decode decode s) (bytes (keep (λ c. not (is_ascii_whitespace c)) s))

  -- A digest that is read, from whichever attribute, is 64 lowercase hexadecimal digits; the base64
  -- decoder yields bytes.
  pub parse_digest-IsNormal :
      (hash digest : Option Text) → IfSome IsNormal (parse_digest decode hash digest)
  unfolding parse_digest
  parse_digest-IsNormal hash digest =
      agreed-IsNormal (and_then (non_empty hash) hex_sha256)
        (and_then (and_then (non_empty digest) (b64_decode_32 decode)) (λ b. some (hex_bytes b)))
        (hex_part (non_empty hash)) (base64_part (non_empty digest))
