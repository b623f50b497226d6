-- ===== src/Catalog/Updates/Newest.antt =====
-- src/torrent/opds.rs, `find_updates`: the update that each local archive gets.
use mathlib.Core.List.{append_assoc, append-nil}
use zimi_rs.Base.{
  ℕ, ◌≡◌, refl, sym, ap, subst, ◌∙◌, ◌⊎◌, inl, inr, true, false, Option, none, some, List, [], ◌∷◌,
  ◌++◌, All, lookup, if◌then◌else◌, if-rule, arith, Text,
}
use zimi_rs.Catalog.Names.{Version, base_and_version, version_gt}
use zimi_rs.Catalog.Updates.{
  OpdsEntry, OpdsUpdate, UpdateCandidate, Local, base_of, is_newer, better, best, update_of,
  push_update, find_updates, candidate_index, updates_from, best_for,
}
use zimi_rs.Catalog.Updates.Indexed.{of_base, listed-index}

All-append {ℓ κ} :
    {A : Type ℓ} (P : A → Type κ) (xs ys : List A) → All P xs → All P ys → All P (xs ++ ys)
All-append P [] ys h k = k
All-append P (x ∷ xs) ys (p, h) k = (p, All-append P xs ys h k)

All-map {ℓ κ ι} :
    {A : Type ℓ} {P : A → Type κ} {Q : A → Type ι} (f : (a : A) → P a → Q a) (xs : List A)
    → All P xs
    → All Q xs
All-map f [] h = tt
All-map f (x ∷ xs) (p, h) = (f x p, All-map f xs h)

module _ (lv : Option Version) (date : Option Text) where
  abbrev pub IsOld : UpdateCandidate → Type 0
  IsOld c = is_newer lv date c ≡ false

  abbrev pub IsBelow : UpdateCandidate → UpdateCandidate → Type 0
  IsBelow c d = is_newer lv date d ≡ true → version_gt c.rank d.rank ≡ true

  abbrev pub IsNotAbove : UpdateCandidate → UpdateCandidate → Type 0
  IsNotAbove c d = is_newer lv date d ≡ true → version_gt d.rank c.rank ≡ false

  -- Newer than the archive, above every newer candidate before it, and below none after it.
  abbrev pub IsNewest : List UpdateCandidate → UpdateCandidate → Type 0
  IsNewest cs c =
      (before after : List UpdateCandidate) × (cs ≡ before ++ (c ∷ after))
      × (is_newer lv date c ≡ true)
      × All (IsBelow c) before
      × All (IsNotAbove c) after

  abbrev Chosen : List UpdateCandidate → Option UpdateCandidate → Type 0
  Chosen cs none = All IsOld cs
  Chosen cs (some c) = IsNewest cs c

  above_old : (c : UpdateCandidate) (cs : List UpdateCandidate) → All IsOld cs → All (IsBelow c) cs
  above_old c cs = All-map (λ d old newer. ground (arith, old, newer)) cs

  gt_trans :
      (u v w : Version) → version_gt u v ≡ true → version_gt v w ≡ true → version_gt u w ≡ true
  gt_trans (a, b) (c, d) (e, f) h k = ground arith

  gt_le_trans :
      (u v w : Version) → version_gt u v ≡ true → version_gt w v ≡ false → version_gt u w ≡ true
  gt_le_trans (a, b) (c, d) (e, f) h k = ground arith

  above-All :
      (c d : UpdateCandidate) (before after : List UpdateCandidate)
      → version_gt d.rank c.rank ≡ true
      → All (IsBelow c) before
      → All (IsNotAbove c) after
      → All (IsBelow d) (before ++ (c ∷ after))
  above-All c d before after gt above below =
      All-append (IsBelow d) before (c ∷ after)
        (All-map (λ x under n. gt_trans d.rank c.rank x.rank gt (under n)) before above)
        (
          (λ _. gt),
          All-map (λ x under n. gt_le_trans d.rank c.rank x.rank gt (under n)) after below,
        )

  skipped :
      (cs : List UpdateCandidate) (acc : Option UpdateCandidate) (d : UpdateCandidate)
      → IsOld d
      → Chosen cs acc
      → Chosen (cs ++ (d ∷ [])) acc
  skipped cs none d old h = All-append IsOld cs (d ∷ []) h (old, tt)
  skipped cs (some c) d old (before, after, e, newer, above, below) = (
    before,
    after ++ (d ∷ []),
    ap (λ l. l ++ (d ∷ [])) e ∙ append_assoc before (c ∷ after) (d ∷ []),
    newer,
    above,
    All-append (IsNotAbove c) after (d ∷ []) below ((λ n. ground (arith, old, n)), tt),
  )

  taken :
      (cs : List UpdateCandidate) (acc : Option UpdateCandidate) (d : UpdateCandidate)
      → is_newer lv date d ≡ true
      → Chosen cs acc
      → Chosen (cs ++ (d ∷ [])) (better acc d)
  taken cs none d newer h = (cs, [], refl, newer, above_old d cs h, tt)
  taken cs (some c) d n (before, after, e, newer, above, below) =
      if-rule (Chosen (cs ++ (d ∷ []))) (version_gt d.rank c.rank) (some d) (some c)
        (λ gt. (
          cs,
          [],
          refl,
          n,
          subst (All (IsBelow d)) (sym e) (above-All c d before after gt above below),
          tt,
        ))
        (λ le. (
          before,
          after ++ (d ∷ []),
          ap (λ l. l ++ (d ∷ [])) e ∙ append_assoc before (c ∷ after) (d ∷ []),
          newer,
          above,
          All-append (IsNotAbove c) after (d ∷ []) below ((λ _. le), tt),
        ))

  best-Chosen :
      (seen cs : List UpdateCandidate) (acc : Option UpdateCandidate)
      → Chosen seen acc
      → Chosen (seen ++ cs) (best lv date acc cs)
  unfolding best
  best-Chosen seen [] acc h = subst (λ l. Chosen l acc) (sym (append-nil seen)) h
  best-Chosen seen (d ∷ cs) acc h =
      let next : Option UpdateCandidate = if is_newer lv date d then better acc d else acc in
      subst (λ l. Chosen l (best lv date next cs)) (append_assoc seen (d ∷ []) cs)
        (best-Chosen (seen ++ (d ∷ [])) cs next (
          if-rule (Chosen (seen ++ (d ∷ []))) (is_newer lv date d) (better acc d) acc
            (λ newer. taken seen acc d newer h) (λ old. skipped seen acc d old h)))

module _ (decode : Text → Option (List ℕ)) (entries : List OpdsEntry) where
  -- The candidates with the archive's base name.
  abbrev pub matching : Local → List UpdateCandidate
  matching l = of_base decode (base_of l.0) entries

  best_for-Chosen :
      (l : Local)
      → Chosen
          (base_and_version l.0).1
          l.1
          (matching l)
          (best_for decode (candidate_index decode entries) l)
  unfolding candidate_index lookup
  best_for-Chosen (name, date) =
      let lv : Option Version = (base_and_version name).1 in
      subst (λ cs. Chosen lv date (matching (name, date)) (best lv date none cs))
        (sym (listed-index decode (base_of name) [] entries))
        (best-Chosen lv date [] (matching (name, date)) none tt)

  -- In order, no update for an archive with no newer candidate, and else the newest one.
  abbrev pub AreNewest : List Local → List OpdsUpdate → Type 0
  AreNewest [] us = us ≡ []
  AreNewest (l ∷ ls) us =
      (All (IsOld (base_and_version l.0).1 l.1) (matching l) × AreNewest ls us)
      ⊎ (c : UpdateCandidate) × (rest : List OpdsUpdate) × IsNewest (base_and_version l.0).1 l.1
          (matching l) c
        × (us ≡ update_of l.0 c ∷ rest)
        × AreNewest ls rest

  push_update-AreNewest :
      (l : Local) (ls : List Local) (o : Option UpdateCandidate) (us : List OpdsUpdate)
      → Chosen (base_and_version l.0).1 l.1 (matching l) o
      → AreNewest ls us
      → AreNewest (l ∷ ls) (push_update l.0 o us)
  push_update-AreNewest l ls none us h k = inl (h, k)
  push_update-AreNewest l ls (some c) us h k = inr (c, us, h, refl, k)

  -- Each archive gets at most one update, in the order of the archives: the candidate of its base name
  -- that is newer than it and has the highest rank, the first such in the feed; an archive
  -- gets none exactly when no candidate of its base name is newer.
  pub find_updates-AreNewest :
      (local : List Local) → AreNewest local (find_updates decode entries local)
  unfolding find_updates updates_from
  find_updates-AreNewest [] = refl
  find_updates-AreNewest (l ∷ ls) =
      push_update-AreNewest l ls (best_for decode (candidate_index decode entries) l)
        (find_updates decode entries ls) (best_for-Chosen l) (find_updates-AreNewest ls)
