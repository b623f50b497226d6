-- ===== src/Search/QueryCache/Tests.antt =====
-- Runs of the cache, and its theorem at a list of insertions.
use zimi_rs.Base.{
  ℕ, ◌≤◌, max, ◌≡◌, refl, none, some, List, [], ◌∷◌, length, lookup, insert, remove, nat_keys,
}
use zimi_rs.Search.QueryCache.{new_cache, get, insert_query}
use zimi_rs.Search.QueryCache.Fifo.{enqueue}
use zimi_rs.Search.QueryCache.History.{enqueue_all, insert_all, insert_all-get}

cache_runs : Unit {0}
unfolding new_cache get insert_query enqueue enqueue_all insert_all lookup insert remove
cache_runs = tt

-- Key 1 is written again, and is pushed out all the same.
abbrev inserted_keys : List (ℕ × ℕ)
inserted_keys = (1, 10) ∷ (2, 20) ∷ (1, 11) ∷ (3, 30) ∷ []

oldest_gone : get 1 (insert_all inserted_keys (new_cache 2)) ≡ none
unfolding cache_runs
oldest_gone = refl

newer_kept : get 2 (insert_all inserted_keys (new_cache 2)) ≡ some 20
unfolding cache_runs
newer_kept = refl

insert_all-get_example :
    (get 2 (insert_all inserted_keys (new_cache 2))
      ≡ lookup 2 (enqueue_all (max 2 1) inserted_keys []))
    × (length (insert_all inserted_keys (new_cache 2)).map ≤ max 2 1)
insert_all-get_example = insert_all-get 2 inserted_keys 2
