-- ===== src/Search/QueryCache/History.antt =====
-- src/search/query_cache.rs: the cache after a history of insertions.
use zimi_rs.Base.{
  ℕ, ◌≤◌, max, ◌≡◌, refl, subst, ◌∙◌, Bool, true, false, List, [], ◌∷◌, ltb, length, is_some, Eq,
  lookup, insert, arith, Bool-cases, inl, inr,
}
use zimi_rs.Search.QueryCache.{QueryEmbedCache, new_cache, get, evict, store, insert_query}
use zimi_rs.Search.QueryCache.Distinct.{Queue, is_distinct}
use zimi_rs.Search.QueryCache.Fifo.{enqueue, Represents, insert_query-Represents}

module _ {K V : Type 0} ⦃e : Eq K⦄ where
  new_cache-Represents : (size : ℕ) → Represents {K = K} {V = V} (new_cache size) []
  unfolding new_cache is_distinct
  new_cache-Represents size = record {
    some_cap = omega arith;
    fits = omega arith;
    distinct = refl;
    distinct_map = refl;
    same_length = refl;
    in_order = refl;
    same = λ j. refl;
  }

  -- The cache and the queue after a list of insertions.
  unfoldable pub insert_all : List (K × V) → QueryEmbedCache K V → QueryEmbedCache K V
  insert_all [] c = c
  insert_all ((k, v) ∷ es) c = insert_all es (insert_query k v c)

  unfoldable pub enqueue_all : ℕ → List (K × V) → Queue K V → Queue K V
  enqueue_all size [] q = q
  enqueue_all size ((k, v) ∷ es) q = enqueue_all size es (enqueue size k v q)

  cap_kept : (k : K) (v : V) (c : QueryEmbedCache K V) → (insert_query k v c).cap ≡ c.cap
  unfolding insert_query
  cap_kept k v c = stored (is_some (lookup k c.map))
    where
      evicted : (map : List (K × V)) (order : List K) → (evict c map order).cap ≡ c.cap
      evicted map [] = refl
      evicted map (oldest ∷ order) = refl

      stored : (b : Bool) → (store b k v c).cap ≡ c.cap
      stored true = refl
      stored false = elim (Bool-cases (ltb c.cap (length (insert k v c.map)))) [
        | inl over ↦ rw over (evicted (insert k v c.map) c.order)
        | inr fits ↦ rw fits refl
      ]

  cap_kept_all : (es : List (K × V)) (c : QueryEmbedCache K V) → (insert_all es c).cap ≡ c.cap
  unfolding insert_all
  cap_kept_all [] c = refl
  cap_kept_all ((k, v) ∷ es) c = cap_kept_all es (insert_query k v c) ∙ cap_kept k v c

  insert_all-Represents :
      (es : List (K × V)) (c : QueryEmbedCache K V) (q : Queue K V)
      → Represents c q
      → Represents (insert_all es c) (enqueue_all c.cap es q)
  unfolding insert_all enqueue_all
  insert_all-Represents [] c q r = r
  insert_all-Represents ((k, v) ∷ es) c q r =
      subst
        (λ n.
          Represents (insert_all es (insert_query k v c)) (enqueue_all n es (enqueue c.cap k v q)))
        (cap_kept k v c)
        (insert_all-Represents es (insert_query k v c) (enqueue c.cap k v q)
          (insert_query-Represents c k v q r))

  -- After any insertions into a new cache, a lookup answers as a queue of bounded length would in
  -- which an old key keeps its place and a new key at capacity pushes the oldest insertion out; and
  -- the cache holds no more than its capacity.
  pub insert_all-get :
      (size : ℕ) (es : List (K × V)) (k : K)
      → (get k (insert_all es (new_cache size)) ≡ lookup k (enqueue_all (max size 1) es []))
        × (length (insert_all es (new_cache size)).map ≤ max size 1)
  unfolding get new_cache
  insert_all-get size es k =
      let r = insert_all-Represents es (new_cache size) [] (new_cache-Represents size) in
      (r.same k, omega (arith, r.same_length, r.fits, cap_kept_all es (new_cache size)))
