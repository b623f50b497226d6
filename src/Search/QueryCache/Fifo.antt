-- ===== src/Search/QueryCache/Fifo.antt =====
-- src/search/query_cache.rs: the map and the order together are a queue of bounded length.
use zimi_rs.Base.{
  ℕ, suc, ◌≤◌, ◌<◌, ◌≡◌, refl, sym, ap, ◌∙◌, true, false, none, some, List, [], ◌∷◌, ◌++◌, ltb,
  length, if◌then◌else◌, Eq, ◌=?◌, lookup, insert, remove, lookup-insert, lookup-remove,
  length-insert_old, beq_refl, arith, Bool-cases, Option-cases, inl, inr,
}
use zimi_rs.Search.QueryCache.{QueryEmbedCache, insert_query}
use zimi_rs.Search.QueryCache.Distinct.{
  Queue, keys, is_distinct, insert-is_distinct, remove-is_distinct, length-remove_one, first_only,
  length-insert_new, keys-insert_new, keys-insert_old,
}

abbrev drop_first : {A : Type 0} → List A → List A
drop_first [] = []
drop_first (_ ∷ q) = q

module _ {K V : Type 0} ⦃e : Eq K⦄ where
  -- What `insert` promises: an old key keeps its place, and a new one at capacity pushes the oldest
  -- entry out. The association list's own `insert` appends a new key.
  unfoldable pub enqueue : ℕ → K → V → Queue K V → Queue K V
  enqueue size k v q =
      if ltb size (length (insert k v q)) then drop_first (insert k v q) else insert k v q

  pub record Represents (c : QueryEmbedCache K V) (q : Queue K V) : Type 0 where
    pub some_cap : 1 ≤ c.cap
    pub fits : length q ≤ c.cap
    pub distinct : is_distinct q ≡ true
    pub distinct_map : is_distinct c.map ≡ true
    pub same_length : length c.map ≡ length q
    pub in_order : c.order ≡ keys q
    pub same : (k : K) → lookup k c.map ≡ lookup k q

  module _ (c : QueryEmbedCache K V) (k : K) (v : V) where
    -- An old key keeps its place.
    insert_old :
        (q : Queue K V) (w : V)
        → Represents c q
        → lookup k q ≡ some w
        → Represents (insert_query k v c) (enqueue c.cap k v q)
    unfolding insert_query enqueue
    insert_old q w r found =
        let in_map : lookup k c.map ≡ some w = r.same k ∙ found in
        let size = length-insert_old k v w q found in
        let size_map = length-insert_old k v w c.map in_map in
        let fit : ltb c.cap (length (insert k v q)) ≡ false = ground (arith, size, r.fits) in
        rw (in_map, fit)
          (record {
            some_cap = r.some_cap;
            fits = omega (arith, size, r.fits);
            distinct = insert-is_distinct k v q r.distinct;
            distinct_map = insert-is_distinct k v c.map r.distinct_map;
            same_length = omega (arith, size, size_map, r.same_length);
            in_order = r.in_order ∙ sym (keys-insert_old k v w q found);
            same = λ j. rw (lookup-insert k j v c.map, lookup-insert k j v q, r.same j) refl;
          })

    -- A new key below the capacity goes to the end.
    insert_spare :
        (q : Queue K V)
        → Represents c q
        → lookup k q ≡ none
        → length q < c.cap
        → Represents (insert_query k v c) (enqueue c.cap k v q)
    unfolding insert_query enqueue
    insert_spare q r absent spare =
        let not_in_map : lookup k c.map ≡ none = r.same k ∙ absent in
        let size = length-insert_new k v q absent in
        let size_map = length-insert_new k v c.map not_in_map in
        let fit : ltb c.cap (length (insert k v q)) ≡ false = ground (arith, size) in
        let fit_map : ltb c.cap (length (insert k v c.map)) ≡ false =
          ground (arith, size_map, r.same_length) in
        rw (not_in_map, fit, fit_map)
          (record {
            some_cap = r.some_cap;
            fits = omega (arith, size);
            distinct = insert-is_distinct k v q r.distinct;
            distinct_map = insert-is_distinct k v c.map r.distinct_map;
            same_length = omega (arith, size, size_map, r.same_length);
            in_order = ap (λ o. o ++ (k ∷ [])) r.in_order ∙ sym (keys-insert_new k v q absent);
            same = λ j. rw (lookup-insert k j v c.map, lookup-insert k j v q, r.same j) refl;
          })

    same_after :
        (f : K) (u : V) (q : Queue K V)
        → Represents c ((f, u) ∷ q)
        → lookup f q ≡ none
        → (k =? f) ≡ false
        → (j : K) → lookup j (remove f (insert k v c.map)) ≡ lookup j (insert k v q)
    unfolding lookup
    same_after f u q r gone apart j = elim (Bool-cases (f =? j)) [
      | inl oldest ↦
          let j_is : f ≡ j = (e.beq_iff f j).0 oldest in
          let gone' : lookup j q ≡ none = ap (λ i. lookup i q) (sym j_is) ∙ gone in
          let apart' : (k =? j) ≡ false = ap (λ i. k =? i) (sym j_is) ∙ apart in
          rw (lookup-remove f j (insert k v c.map), oldest, lookup-insert k j v q, apart', gone')
            refl
      | inr newer ↦
          rw
            (
              lookup-remove f j (insert k v c.map),
              newer,
              lookup-insert k j v c.map,
              lookup-insert k j v q,
              r.same j,
              newer,
            )
            refl
    ]

    -- A new key at capacity pushes the oldest entry out.
    insert_full :
        (f : K) (u : V) (q : Queue K V)
        → Represents c ((f, u) ∷ q)
        → lookup k ((f, u) ∷ q) ≡ none
        → c.cap ≤ length ((f, u) ∷ q)
        → Represents (insert_query k v c) (enqueue c.cap k v ((f, u) ∷ q))
    unfolding insert_query enqueue insert lookup is_distinct
    insert_full f u q r absent full =
        let not_in_map : lookup k c.map ≡ none = r.same k ∙ absent in
        let apart : (f =? k) ≡ false = ground arith in
        let apart' : (k =? f) ≡ false = ground (arith, e.beq_iff f k, e.beq_iff k f) in
        let absent' : lookup k q ≡ none = rw apart at absent in
        let size = length-insert_new k v q absent' in
        let size_map = length-insert_new k v c.map not_in_map in
        let over : ltb c.cap (suc (length (insert k v q))) ≡ true = ground (arith, size) in
        let over_map : ltb c.cap (length (insert k v c.map)) ≡ true =
          ground (arith, size_map, r.same_length) in
        let oldest : lookup f (insert k v c.map) ≡ some u =
          rw (lookup-insert k f v c.map, apart', r.same f, beq_refl f) refl in
        let dropped =
          length-remove_one f u (insert k v c.map) (insert-is_distinct k v c.map r.distinct_map)
            oldest in
        let gone : lookup f q ≡ none = first_only f f u q refl r.distinct in
        let rest : is_distinct q ≡ true = ground (arith, r.distinct) in
        rw (not_in_map, apart, over, over_map, r.in_order)
          (record {
            some_cap = r.some_cap;
            fits = omega (arith, size, r.fits);
            distinct = insert-is_distinct k v q rest;
            distinct_map =
                remove-is_distinct f (insert k v c.map)
                  (insert-is_distinct k v c.map r.distinct_map);
            same_length = omega (arith, size, size_map, dropped, r.same_length);
            in_order = sym (keys-insert_new k v q absent');
            same = λ j. same_after f u q r gone apart' j;
          })

    -- The cache stands for a queue of at most its capacity, the oldest insertion first: an old key
    -- keeps its place, and a new key at capacity pushes the oldest entry out.
    pub insert_query-Represents :
        (q : Queue K V) → Represents c q → Represents (insert_query k v c) (enqueue c.cap k v q)
    insert_query-Represents q r = elim (Option-cases (lookup k q)) [
      | inr (w, found) ↦ insert_old q w r found
      | inl absent ↦ elim (Bool-cases (ltb (length q) c.cap)) [
        | inl spare ↦ insert_spare q r absent (ground arith)
        | inr full ↦ crowded q r absent (ground arith)
      ]
    ]
      where
        crowded :
            (q : Queue K V)
            → Represents c q
            → lookup k q ≡ none
            → c.cap ≤ length q
            → Represents (insert_query k v c) (enqueue c.cap k v q)
        crowded [] r absent full = absurd (omega (arith, r.some_cap))
        crowded ((f, u) ∷ q) r absent full = insert_full f u q r absent full
