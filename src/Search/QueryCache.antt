-- ===== src/Search/QueryCache.antt =====
-- src/search/query_cache.rs: the bounded first-in first-out cache of query embeddings, over any
-- comparable key. The hash map is an association list.
pub mod Distinct
pub mod Fifo
pub mod History
mod Tests
use zimi_rs.Base.{
  ℕ, ◌≤◌, max, Bool, true, false, Option, none, some, List, [], ◌∷◌, ◌++◌, ltb, length,
  if◌then◌else◌, is_some, Eq, lookup, insert, remove,
}

abbrev pub query_embed_cache_cap : ℕ
query_embed_cache_cap = 256

pub record QueryEmbedCache (K V : Type 0) : Type 0 where
  pub cap : ℕ
  pub map : List (K × V)
  -- The oldest insertion first.
  pub order : List K

module _ {K V : Type 0} ⦃e : Eq K⦄ where
  unfoldable pub new_cache : ℕ → QueryEmbedCache K V
  new_cache cap = record { cap = max cap 1; map = []; order = [] }

  unfoldable pub get : K → QueryEmbedCache K V → Option V
  get key c = lookup key c.map

  -- `order.pop_front()`, and the removal of what it gives.
  abbrev pub evict : QueryEmbedCache K V → List (K × V) → List K → QueryEmbedCache K V
  evict c map [] = record c { map = map; order = [] }
  evict c map (oldest ∷ order) = record c { map = remove oldest map; order = order }

  abbrev pub push : K → QueryEmbedCache K V → QueryEmbedCache K V
  push key c = record c { order = c.order ++ (key ∷ []) }

  abbrev pub store : Bool → K → V → QueryEmbedCache K V → QueryEmbedCache K V
  store true key vec c = record c { map = insert key vec c.map }
  store false key vec c =
      let map = insert key vec c.map in
      push key (if ltb c.cap (length map) then evict c map c.order else record c { map = map })

  -- `insert`, by whether the key was there.
  unfoldable pub insert_query : K → V → QueryEmbedCache K V → QueryEmbedCache K V
  insert_query key vec c = store (is_some (lookup key c.map)) key vec c
