-- ===== src/Downloads/Requeue/Names.antt =====
-- src/torrent/poller/requeue.rs: which of the failed rows that share a name goes back to the queue.
use zimi_rs.Base.{
  ℕ, ◌≡◌, refl, inl, inr, Bool, true, false, not, ◌&&◌, ◌||◌, Option, none, some, List, [], ◌∷◌,
  ◌==◌, leb, ltb, max, any, all, keep, All, if◌then◌else◌, Text, text_eq, text_eq_iff, text_keys,
  lookup, insert, lookup-insert, arith, Bool-cases,
}
use zimi_rs.Downloads.Requeue.{
  Stale, name_of, raise, best_ids, is_best, filter_requeue_name_collisions,
}

-- The largest id of the rows with this name, and of `o`.
unfoldable highest : Text → List Stale → Option ℕ → Option ℕ
highest name [] o = o
highest name ((id, n, _) ∷ stale) o =
    highest name stale (if text_eq n name then some (raise o id) else o)

lookup-best_ids :
    (active : List Text) (name : Text) (stale : List Stale) (best : List (Text × ℕ))
    → any (text_eq name) active ≡ false
    → lookup name (best_ids active stale best) ≡ highest name stale (lookup name best)
unfolding best_ids highest
lookup-best_ids active name [] best free = refl
lookup-best_ids active name ((id, n, msg) ∷ stale) best free = elim (Bool-cases (text_eq n name)) [
  | inl same ↦
      let n_is : n ≡ name = (text_eq_iff n name).0 same in
      rw
        (
          n_is,
          free,
          lookup-best_ids active name stale (insert name (raise (lookup name best) id) best) free,
          lookup-insert name name (raise (lookup name best) id) best,
          (text_eq_iff name name).1 refl,
        )
        refl
  | inr other ↦ elim (Bool-cases (any (text_eq n) active)) [
    | inl held ↦ rw (other, held, lookup-best_ids active name stale best free) refl
    | inr clear ↦
        rw
          (
            other,
            clear,
            lookup-best_ids active name stale (insert n (raise (lookup n best) id) best) free,
            lookup-insert n name (raise (lookup n best) id) best,
            other,
          )
          refl
  ]
]

false_ne : {b : Bool} → b ≡ false → b ≡ true → ⊥
false_ne h k = ground arith

differs :
    (n name : Text) (active : List Text)
    → any (text_eq n) active ≡ false
    → any (text_eq name) active ≡ true
    → text_eq n name ≡ false
differs n name active clear held = elim (Bool-cases (text_eq n name)) [
  | inl same ↦
      let held' : any (text_eq n) active ≡ true = rw ((text_eq_iff n name).0 same) held in
      absurd (false_ne clear held')
  | inr other ↦ other
]

lookup-best_ids_active :
    (active : List Text) (name : Text) (stale : List Stale) (best : List (Text × ℕ))
    → any (text_eq name) active ≡ true
    → lookup name best ≡ none
    → lookup name (best_ids active stale best) ≡ none
unfolding best_ids
lookup-best_ids_active active name [] best held absent = absent
lookup-best_ids_active active name ((id, n, msg) ∷ stale) best held absent =
    elim (Bool-cases (any (text_eq n) active)) [
      | inl skip ↦ rw skip (lookup-best_ids_active active name stale best held absent)
      | inr clear ↦
          let apart : text_eq n name ≡ false = differs n name active clear held in
          rw clear (
            lookup-best_ids_active active name stale (insert n (raise (lookup n best) id) best) held
              (rw (lookup-insert n name (raise (lookup n best) id) best, apart) absent))
    ]

-- No row with the name stands above the id.
abbrev pub tops : Text → ℕ → List Stale → Bool
tops name id stale = all (λ r. not (text_eq (name_of r) name) || leb r.0 id) stale

abbrev above : Option ℕ → ℕ → Bool
above none id = false
above (some b) id = ltb id b

-- `highest` is `id` exactly when some row, or `o`, gives it and none is above.
highest-top :
    (name : Text) (id : ℕ) (stale : List Stale) (o : Option ℕ)
    → is_best (highest name stale o) id ≡ (
        tops name id stale
        && not (above o id)
        && (is_best o id || any (λ r. text_eq (name_of r) name && r.0 == id) stale))
unfolding highest
highest-top name id [] none = ground arith
highest-top name id [] (some b) = ground arith
highest-top name id ((i, n, m) ∷ stale) none =
    ground (arith, highest-top name id stale none, highest-top name id stale (some i))
highest-top name id ((i, n, m) ∷ stale) (some b) =
    ground (arith, highest-top name id stale (some b), highest-top name id stale (some (max b i)))

-- The row's name belongs to no active row, and to no row of the pass with a larger id.
abbrev pub admitted : List Text → List Stale → Stale → Bool
admitted active stale r = not (any (text_eq (name_of r)) active) && tops (name_of r) r.0 stale

abbrev is_row : Stale → Stale → Bool
is_row r s = text_eq (name_of s) (name_of r) && s.0 == r.0

kept_iff :
    (active : List Text) (stale : List Stale) (r : Stale)
    → any (is_row r) stale ≡ true
    → is_best (lookup (name_of r) (best_ids active stale [])) r.0 ≡ admitted active stale r
unfolding lookup
kept_iff active stale (id, name, msg) listed = elim (Bool-cases (any (text_eq name) active)) [
  | inl held ↦ rw (held, lookup-best_ids_active active name stale [] held refl) refl
  | inr clear ↦
      rw (clear, lookup-best_ids active name stale [] clear, highest-top name id stale none, listed)
        (ground arith)
]

keep-cong : (p q : Stale → Bool) (xs : List Stale) → All (λ x. p x ≡ q x) xs → keep p xs ≡ keep q xs
keep-cong p q [] h = refl
keep-cong p q (x ∷ xs) (h, hs) = rw (h, keep-cong p q xs hs) refl

is_row_refl : (r : Stale) → is_row r r ≡ true
is_row_refl (id, name, msg) = rw ((text_eq_iff name name).1 refl) (ground arith)

-- Every row of a list is a row of it.
All-listed :
    (xs stale : List Stale)
    → ((r : Stale) → any (is_row r) xs ≡ true → any (is_row r) stale ≡ true)
    → All (λ r. any (is_row r) stale ≡ true) xs
All-listed [] stale sub = tt
All-listed (x ∷ xs) stale sub =
    (sub x (ground (arith, is_row_refl x)), All-listed xs stale (λ r h. sub r (ground arith)))

All-map : (P Q : Stale → Type 0) (xs : List Stale) → ((x : Stale) → P x → Q x) → All P xs → All Q xs
All-map P Q [] f h = tt
All-map P Q (x ∷ xs) f (h, hs) = (f x h, All-map P Q xs f hs)

-- The filter keeps a row exactly when its name belongs to no active row, and to no row of the pass
-- with a larger id.
pub filter_requeue_name_collisions_exact :
    (stale : List Stale) (active : List Text)
    → filter_requeue_name_collisions stale active ≡ keep (admitted active stale) stale
unfolding filter_requeue_name_collisions
filter_requeue_name_collisions_exact stale active =
    keep-cong _ _ stale
      (All-map _ _ stale (kept_iff active stale) (All-listed stale stale (λ r h. h)))
