-- ===== src/Base/Splits.antt =====
-- Laws of `split` and `contains`.
use Prim.Native.Nat.{ℕ}
use mathlib.Core.Path.{◌≡◌, refl}
use mathlib.Core.Logic.{inl, inr}
use mathlib.Core.Bool.{false, ◌||◌}
use mathlib.Core.List.{List, [], ◌∷◌, ◌++◌}
use native.Mathlib.Omega.{arith}
use zimi_rs.Base.Tests.{◌==◌, Bool-cases}
use zimi_rs.Base.Texts.{Text, split, contains}

pub contains-append : (d : ℕ) (s t : Text) → contains d (s ++ t) ≡ (contains d s || contains d t)
unfolding contains
contains-append d [] t = refl
contains-append d (c ∷ s) t = ground (arith, contains-append d s t)

-- A split is never empty.
split_cons : (d : ℕ) (s : Text) → (p : Text) × (ps : List Text) × (split d s ≡ p ∷ ps)
unfolding split
split_cons d [] = ([], [], refl)
split_cons d (c ∷ s) = elim (Bool-cases (c == d)) [
  | inl here ↦ ([], split d s, rw here refl)
  | inr there ↦ let (p, ps, e) = split_cons d s in (c ∷ p, ps, rw (there, e) refl)
]

pub split-append : (d : ℕ) (a b : Text) → split d (a ++ (d ∷ b)) ≡ split d a ++ split d b
unfolding split
split-append d [] b = ground arith
split-append d (c ∷ a) b = elim (Bool-cases (c == d)) [
  | inl here ↦ rw (here, split-append d a b) refl
  | inr there ↦ let (p, ps, e) = split_cons d a in rw (there, split-append d a b, e) refl
]

pub split_whole : (d : ℕ) (s : Text) → contains d s ≡ false → split d s ≡ s ∷ []
unfolding split contains
split_whole d [] h = refl
split_whole d (c ∷ s) h = elim (Bool-cases (c == d)) [
  | inl here ↦ ground arith
  | inr there ↦ let e = split_whole d s (ground arith) in rw (there, e) refl
]
