-- ===== src/Search/QueryCache/Distinct.antt =====
-- src/search/query_cache.rs: association lists without a key twice, as queues.
use zimi_rs.Base.{
  ◌+◌, ◌≡◌, refl, ap, ◌∙◌, Bool, true, false, not, ◌&&◌, none, some, List, [], ◌∷◌, ◌++◌, length,
  is_some, Eq, ◌=?◌, lookup, insert, remove, lookup-insert, lookup-remove, arith, Bool-cases,
  Option-cases, inl, inr,
}

-- The queue that the cache stands for, the oldest entry first.
abbrev pub Queue : Type 0 → Type 0 → Type 0
Queue K V = List (K × V)

abbrev pub keys : {K V : Type 0} → Queue K V → List K
keys [] = []
keys ((k, _) ∷ q) = k ∷ keys q

module _ {K V : Type 0} ⦃e : Eq K⦄ where
  -- No key twice.
  unfoldable pub is_distinct : Queue K V → Bool
  is_distinct [] = true
  is_distinct ((k, v) ∷ q) = not (is_some (lookup k q)) && is_distinct q

  pub insert-is_distinct :
      (k : K) (v : V) (q : Queue K V) → is_distinct q ≡ true → is_distinct (insert k v q) ≡ true
  unfolding is_distinct insert lookup
  insert-is_distinct k v [] h = refl
  insert-is_distinct k v ((j, w) ∷ q) h =
      ground (arith, lookup-insert k j v q, e.beq_iff j k, e.beq_iff k j, insert-is_distinct k v q)

  pub remove-is_distinct :
      (k : K) (q : Queue K V) → is_distinct q ≡ true → is_distinct (remove k q) ≡ true
  unfolding is_distinct remove
  remove-is_distinct k [] h = refl
  remove-is_distinct k ((j, w) ∷ q) h =
      ground (arith, lookup-remove k j q, e.beq_iff k j, remove-is_distinct k q)

  pub length-remove-none :
      (k : K) (q : Queue K V) → lookup k q ≡ none → length (remove k q) ≡ length q
  unfolding lookup remove
  length-remove-none k [] h = refl
  length-remove-none k ((j, w) ∷ q) h = ground (arith, length-remove-none k q)

  pub first_only :
      (j k : K) (w : V) (q : Queue K V)
      → j ≡ k
      → is_distinct ((j, w) ∷ q) ≡ true
      → lookup k q ≡ none
  unfolding is_distinct
  first_only j k w q same h = elim (Option-cases (lookup k q)) [
    | inl absent ↦ absent
    | inr (u, found) ↦
        let found' : lookup j q ≡ some u = ap (λ i. lookup i q) same ∙ found in
        let h' : false ≡ true = rw found' at h in cc
  ]

  pub length-remove_one :
      (k : K) (v : V) (q : Queue K V)
      → is_distinct q ≡ true
      → lookup k q ≡ some v
      → length (remove k q) + 1 ≡ length q
  unfolding is_distinct lookup remove
  length-remove_one k v [] h found = cc
  length-remove_one k v ((j, w) ∷ q) h found = elim (Bool-cases (j =? k)) [
    | inl here ↦
        let j_is : j ≡ k = (e.beq_iff j k).0 here in
        let absent : lookup k q ≡ none = first_only j k w q j_is h in
        rw here (omega (arith, length-remove-none k q absent))
    | inr there ↦
        let found' : lookup k q ≡ some v = rw there at found in
        let h' : is_distinct q ≡ true = ground arith in
        rw there (omega (arith, length-remove_one k v q h' found'))
  ]

  pub length-insert_new :
      (k : K) (v : V) (q : Queue K V) → lookup k q ≡ none → length (insert k v q) ≡ length q + 1
  unfolding lookup insert
  length-insert_new k v [] h = omega arith
  length-insert_new k v ((j, w) ∷ q) h = ground (arith, length-insert_new k v q)

  pub keys-insert_new :
      (k : K) (v : V) (q : Queue K V) → lookup k q ≡ none → keys (insert k v q) ≡ keys q ++ (k ∷ [])
  unfolding lookup insert
  keys-insert_new k v [] h = refl
  keys-insert_new k v ((j, w) ∷ q) h = elim (Bool-cases (j =? k)) [
    | inl here ↦ let h' : some w ≡ none = rw here at h in cc
    | inr there ↦
        let h' : lookup k q ≡ none = rw there at h in rw (there, keys-insert_new k v q h') refl
  ]

  pub keys-insert_old :
      (k : K) (v w : V) (q : Queue K V) → lookup k q ≡ some w → keys (insert k v q) ≡ keys q
  unfolding lookup insert
  keys-insert_old k v w [] h = cc
  keys-insert_old k v w ((j, u) ∷ q) h = elim (Bool-cases (j =? k)) [
    | inl here ↦ rw here refl
    | inr there ↦
        let h' : lookup k q ≡ some w = rw there at h in rw (there, keys-insert_old k v w q h') refl
  ]
