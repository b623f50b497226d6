-- ===== src/Catalog/Updates/Indexed.antt =====
-- src/torrent/opds.rs, `find_updates`: the index against the loop over all pairs that it replaces.
use mathlib.Core.List.{append_assoc, append-nil}
use zimi_rs.Base.{
  ℕ, ◌≡◌, refl, sym, ap, ◌∙◌, Option, none, some, List, [], ◌∷◌, ◌++◌, if◌then◌else◌, lookup,
  lookup-insert, Text, text_eq, text_eq_iff, text_keys, inl, inr, Bool-cases,
}
use zimi_rs.Catalog.Names.{base_and_version}
use zimi_rs.Catalog.Updates.{
  OpdsEntry, OpdsUpdate, UpdateCandidate, Index, Local, base_of, is_newer, better, best, listed,
  candidate, push, index_from, candidate_index, best_for, push_update, updates_from, find_updates,
}

-- Every local archive against every entry, in the order of the feed.
module _ (decode : Text → Option (List ℕ)) where
  abbrev pub consider :
      Local → Option UpdateCandidate → Option UpdateCandidate → Option UpdateCandidate
  consider l acc none = acc
  consider (name, date) acc (some c) =
      if text_eq (base_of c.name) (base_of name)
      then if is_newer (base_and_version name).1 date c then better acc c else acc
      else acc

  unfoldable pub scan : Local → Option UpdateCandidate → List OpdsEntry → Option UpdateCandidate
  scan l acc [] = acc
  scan l acc (e ∷ es) = scan l (consider l acc (candidate decode e)) es

  unfoldable pub per_pair : List OpdsEntry → List Local → List OpdsUpdate
  per_pair entries [] = []
  per_pair entries (l ∷ ls) = push_update l.0 (scan l none entries) (per_pair entries ls)

  abbrev at_base : Text → Option UpdateCandidate → List UpdateCandidate
  at_base k none = []
  at_base k (some c) = if text_eq (base_of c.name) k then c ∷ [] else []

  -- The candidates under a name, in the order of the feed.
  unfoldable pub of_base : Text → List OpdsEntry → List UpdateCandidate
  of_base k [] = []
  of_base k (e ∷ es) = at_base k (candidate decode e) ++ of_base k es

  listed-push :
      (k : Text) (m : Index) (o : Option UpdateCandidate)
      → listed (lookup k (push decode m o)) ≡ listed (lookup k m) ++ at_base k o
  listed-push k m none = sym (append-nil (listed (lookup k m)))
  listed-push k m (some c) =
      let j : Text = base_of c.name in
      let before : List UpdateCandidate = listed (lookup j m) in
      ap listed (lookup-insert j k (before ++ (c ∷ [])) m) ∙ elim (Bool-cases (text_eq j k)) [
        | inl same ↦ rw same (ap (λ i. listed (lookup i m) ++ (c ∷ [])) ((text_eq_iff j k).0 same))
        | inr other ↦ rw other (sym (append-nil (listed (lookup k m))))
      ]

  pub listed-index :
      (k : Text) (m : Index) (es : List OpdsEntry)
      → listed (lookup k (index_from decode m es)) ≡ listed (lookup k m) ++ of_base k es
  unfolding index_from of_base
  listed-index k m [] = sym (append-nil (listed (lookup k m)))
  listed-index k m (e ∷ es) =
      listed-index k (push decode m (candidate decode e)) es
      ∙ ap (λ xs. xs ++ of_base k es) (listed-push k m (candidate decode e))
      ∙ append_assoc (listed (lookup k m)) (at_base k (candidate decode e)) (of_base k es)

  best-at_base :
      (name : Text) (date : Option Text) (acc o : Option UpdateCandidate)
      (cs : List UpdateCandidate)
      → best (base_and_version name).1 date acc (at_base (base_of name) o ++ cs)
        ≡ best (base_and_version name).1 date (consider (name, date) acc o) cs
  unfolding best
  best-at_base name date acc none cs = refl
  best-at_base name date acc (some c) cs =
      elim (Bool-cases (text_eq (base_of c.name) (base_of name))) [
        | inl same ↦ rw same refl
        | inr other ↦ rw other refl
      ]

  best-scan :
      (name : Text) (date : Option Text) (acc : Option UpdateCandidate) (es : List OpdsEntry)
      → best (base_and_version name).1 date acc (of_base (base_of name) es)
        ≡ scan (name, date) acc es
  unfolding best scan of_base
  best-scan name date acc [] = refl
  best-scan name date acc (e ∷ es) =
      best-at_base name date acc (candidate decode e) (of_base (base_of name) es)
      ∙ best-scan name date (consider (name, date) acc (candidate decode e)) es

  best_for-scan :
      (entries : List OpdsEntry) (l : Local)
      → best_for decode (candidate_index decode entries) l ≡ scan l none entries
  unfolding candidate_index lookup
  best_for-scan entries (name, date) =
      ap (best (base_and_version name).1 date none) (listed-index (base_of name) [] entries)
      ∙ best-scan name date none entries

  -- The updates found by the index are those that a loop over all pairs of a local archive and an
  -- entry finds, in the same order, whatever the feed holds.
  pub find_updates-per_pair :
      (entries : List OpdsEntry) (local : List Local)
      → find_updates decode entries local ≡ per_pair entries local
  unfolding find_updates updates_from per_pair
  find_updates-per_pair entries [] = refl
  find_updates-per_pair entries (l ∷ ls) =
      ap (λ o. push_update l.0 o (updates_from decode (candidate_index decode entries) ls))
        (best_for-scan entries l)
      ∙ ap (push_update l.0 (scan l none entries)) (find_updates-per_pair entries ls)
