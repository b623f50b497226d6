-- ===== src/Downloads/Unique/Outcomes.antt =====
-- src/db/downloads.rs and src/db/downloads_lifecycle.rs: what the answers of the operations mean for
-- the caller that gets them.
use zimi_rs.Base.{
  ℕ, ◌+◌, ◌≡◌, refl, ap, ◌∙◌, Bool, true, false, ◌||◌, some, none, List, [], ◌∷◌, ◌++◌, arith,
  if◌then◌else◌, Bool-cases, any, keep, find, length, inl, inr, Text, ok,
}
use zimi_rs.Downloads.Status.{queued, downloading}
use zimi_rs.Downloads.Table.{
  Row, Db, Env, clash, has_clash, update_rows, execute, insert_row, commit_unless, blank_row,
}
use zimi_rs.Downloads.Lifecycle.{claim_direct, with_id}
use zimi_rs.Downloads.Queue.{insert_download, insert_outcome, inserted, duplicate, holds}
use zimi_rs.Downloads.Unique.{IsQuiet, execute_quiet, update_rows_unique}

module _ (env : Env) (part : Text) where
  abbrev claim_row : Row → Row
  claim_row r = record r { status = downloading; file_path = some part; updated_at = env.now }

  claim-IsQuiet : (id : ℕ) → IsQuiet (with_id id (queued ∷ [])) claim_row
  claim-IsQuiet id = record { name = λ r. refl; url = λ r. refl; active = λ r h k. ground arith }

  claimed_away :
      (id : ℕ) (rs : List Row)
      → keep (with_id id (queued ∷ [])) (update_rows (with_id id (queued ∷ [])) claim_row rs) ≡ []
  unfolding update_rows
  claimed_away id [] = refl
  claimed_away id (r ∷ rs) = ground (arith, claimed_away id rs)

-- The claim of a direct download is exclusive: the first caller is told how many queued rows it took,
-- and whoever claims the same row next, whenever, takes none.
pub claim_direct_once :
    (env env' : Env) (id : ℕ) (part part' : Text) (db : Db)
    → env.outage ≡ none
    → env'.outage ≡ none
    → has_clash db.rows ≡ false
    → ((claim_direct env id part db).1 ≡ ok (length (keep (with_id id (queued ∷ [])) db.rows)))
      × ((claim_direct env' id part' (claim_direct env id part db).0).1 ≡ ok 0)
unfolding claim_direct
claim_direct_once env env' id part part' db up up' unique =
    let first = execute_quiet _ _ (claim-IsQuiet env part id) env db up unique in
    let db' : Db = record db {
      rows = update_rows (with_id id (queued ∷ [])) (claim_row env part) db.rows;
    } in
    let unique' = update_rows_unique _ _ (claim-IsQuiet env part id) db.rows unique in
    let second = execute_quiet _ _ (claim-IsQuiet env' part' id) env' db' up' unique' in
    let count : length (keep (with_id id (queued ∷ [])) db'.rows) ≡ 0 =
      ap length (claimed_away env part id db.rows) in
    (
      ap (λ a. a.1) first,
      ap (λ a. (execute env' (with_id id (queued ∷ [])) (claim_row env' part') a.0).1) first
          ∙ ap (λ a. a.1) second
          ∙ ap ok count,
    )

module _ (env : Env) (id : ℕ) (name url : Text) where
  abbrev new_row : Row
  new_row = blank_row env id name url queued

  holds-clash : (r : Row) → clash r new_row ≡ holds name url r
  unfolding clash
  holds-clash r = ground arith

  has_clash-append :
      (rs : List Row) → has_clash (rs ++ (new_row ∷ [])) ≡ (has_clash rs || any (holds name url) rs)
  unfolding has_clash
  has_clash-append [] = refl
  has_clash-append (r ∷ rs) = ground (arith, has_clash-append rs, any_last rs r)
    where
      any_last :
          (rs : List Row) (r : Row)
          → any (clash r) (rs ++ (new_row ∷ [])) ≡ (any (clash r) rs || holds name url r)
      any_last [] r = rw (holds-clash r) (ground arith)
      any_last (s ∷ rs) r = ground (arith, any_last rs r)

find-none-any : {A : Type 0} (p : A → Bool) (xs : List A) → any p xs ≡ false → find p xs ≡ none
find-none-any p [] h = refl
find-none-any p (x ∷ xs) h = ground (arith, find-none-any p xs)

find-some-any :
    {A : Type 0} (p : A → Bool) (xs : List A) → any p xs ≡ true → (x : A) × (find p xs ≡ some x)
find-some-any p [] h = cc
find-some-any p (x ∷ xs) h = elim (Bool-cases (p x)) [
  | inl here ↦ (x, rw here refl)
  | inr there ↦ let (y, found) = find-some-any p xs (ground arith) in (y, rw there found)
]

-- Whatever the pre-check has read, a request for a URL or a name that an active row holds when the
-- INSERT runs is answered `Duplicate` and changes nothing, and one that the pre-check lets through
-- and no active row stands against is queued under the next id.
pub insert_download_race :
    (env env' : Env) (name url : Text) (before db : Db)
    → env.outage ≡ none
    → env'.outage ≡ none
    → has_clash db.rows ≡ false
    → insert_download env env' name url before db ≡ (
        if any (holds name url) before.rows || any (holds name url) db.rows
        then (db, ok duplicate)
        else (
          record {
            rows = db.rows ++ (blank_row env' db.next_id name url queued ∷ []);
            next_id = db.next_id + 1;
          },
          ok (inserted db.next_id),
        ))
unfolding insert_download insert_row
insert_download_race env env' name url before db up up' unique =
    elim (Bool-cases (any (holds name url) before.rows)) [
      | inl seen ↦
          let (r, found) = find-some-any (holds name url) before.rows seen in rw (up, found, seen)
      | inr unseen ↦
          rw
            (
              up,
              up',
              find-none-any (holds name url) before.rows unseen,
              unseen,
              has_clash-append env' db.next_id name url db.rows,
              unique,
            )
            (settled (any (holds name url) db.rows))
    ]
  where
    settled :
        (b : Bool)
        → insert_outcome (
            commit_unless b db
              (record {
                rows = db.rows ++ (blank_row env' db.next_id name url queued ∷ []);
                next_id = db.next_id + 1;
              })
              db.next_id)
          ≡ (if b then (db, ok duplicate) else (
            record {
              rows = db.rows ++ (blank_row env' db.next_id name url queued ∷ []);
              next_id = db.next_id + 1;
            },
            ok (inserted db.next_id),
          ))
    settled true = refl
    settled false = refl
