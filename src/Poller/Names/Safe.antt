-- ===== src/Poller/Names/Safe.antt =====
-- src/torrent/files.rs, `validate_download_name`: what a valid name keeps out of a path.
use mathlib.Core.List.{reverse-append}
use zimi_rs.Base.{
  ℕ, ◌≡◌, refl, sym, ap, ◌∙◌, inl, inr, Bool, false, [], ◌∷◌, ◌==◌, ==_iff, reverse, arith, Text,
  trim, trim_start_by, trim_end_by, is_whitespace, contains, contains-append, ok, Bool-cases,
}
use zimi_rs.Poller.Names.{validate_trimmed, validate_download_name}

contains-reverse : (d : ℕ) (s : Text) → contains d (reverse s) ≡ contains d s
unfolding contains
contains-reverse d [] = refl
contains-reverse d (c ∷ s) =
    ap (contains d) (reverse-append (c ∷ []) s)
    ∙ contains-append d (reverse s) (c ∷ [])
    ∙ ground (arith, contains-reverse d s)

module _ (p : ℕ → Bool) (d : ℕ) (kept : p d ≡ false) where
  contains-trim_start_by : (s : Text) → contains d (trim_start_by p s) ≡ contains d s
  unfolding contains trim_start_by
  contains-trim_start_by [] = refl
  contains-trim_start_by (c ∷ s) = elim (Bool-cases (c == d)) [
    | inl same ↦
        let stays : p c ≡ false = ap p ((==_iff c d).0 same) ∙ kept in rw (stays, same) refl
    | inr other ↦ ground (arith, other, contains-trim_start_by s)
  ]

  contains-trim_end_by : (s : Text) → contains d (trim_end_by p s) ≡ contains d s
  unfolding trim_end_by
  contains-trim_end_by s =
      contains-reverse d (trim_start_by p (reverse s))
      ∙ contains-trim_start_by (reverse s)
      ∙ contains-reverse d s

-- Trimming takes no other character away.
contains-trim : (d : ℕ) (s : Text) → is_whitespace d ≡ false → contains d (trim s) ≡ contains d s
unfolding trim
contains-trim d s h =
    contains-trim_end_by is_whitespace d h (trim_start_by is_whitespace s)
    ∙ contains-trim_start_by is_whitespace d h s

trimmed_free :
    (s : Text)
    → validate_trimmed s ≡ ok tt
    → (contains b'/' s ≡ false) × (contains b'\\' s ≡ false) × (contains 0 s ≡ false)
unfolding validate_trimmed
trimmed_free s h = ground arith

-- A name that passes, taken as it is given and not trimmed, has no path separator and no NUL, so that the
-- file named after it stands directly in its directory.
pub validate_download_name-free :
    (name : Text)
    → validate_download_name name ≡ ok tt
    → (contains b'/' name ≡ false) × (contains b'\\' name ≡ false) × (contains 0 name ≡ false)
unfolding validate_download_name is_whitespace
validate_download_name-free name h =
    let (slash, backslash, nul) = trimmed_free (trim name) h in
    (
      sym (contains-trim b'/' name refl) ∙ slash,
      sym (contains-trim b'\\' name refl) ∙ backslash,
      sym (contains-trim 0 name refl) ∙ nul,
    )
