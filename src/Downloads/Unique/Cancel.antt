-- ===== src/Downloads/Unique/Cancel.antt =====
-- src/db/downloads.rs, `cancel_download`: what its three answers mean.
use zimi_rs.Base.{
  ℕ, ◌≡◌, refl, sym, ap, ◌∙◌, inl, inr, Bool, true, false, ◌||◌, Option, none, some, List, [], ◌∷◌,
  any, keep, length, ltb, ◌==◌, ==_iff, arith, if◌then◌else◌, Bool-cases, Option-cases, Result, ok,
}
use zimi_rs.Downloads.Table.{
  Row, Db, DbError, Env, has_clash, is_active, active_statuses, update_rows, find_row,
}
use zimi_rs.Downloads.Lifecycle.{with_id}
use zimi_rs.Downloads.Queue.{
  cancel_download, cancel_row, CancelOutcome, was_cancelled, not_found, not_cancellable,
}
use zimi_rs.Downloads.Unique.{IsQuiet, execute_quiet}

-- The primary key: no id twice.
unfoldable pub has_twin : List Row → Bool
has_twin [] = false
has_twin (r ∷ rs) = any (λ s. s.id == r.id) rs || has_twin rs

abbrev pub is_active_in : Option Row → Bool
is_active_in none = false
is_active_in (some r) = is_active r

-- What cancelling answers, by the row that has the id.
abbrev pub cancel_answer : Env → ℕ → Db → Option Row → Db × Result CancelOutcome DbError
cancel_answer env id db none = (db, ok not_found)
cancel_answer env id db (some r) =
    if is_active r
    then (
      record db { rows = update_rows (with_id id active_statuses) (cancel_row env) db.rows },
      ok (was_cancelled id),
    )
    else (db, ok (not_cancellable r.status))

ltb-length-keep : {A : Type 0} (p : A → Bool) (xs : List A) → ltb 0 (length (keep p xs)) ≡ any p xs
ltb-length-keep p [] = refl
ltb-length-keep p (x ∷ xs) = ground (arith, ltb-length-keep p xs)

update_rows-none :
    (p : Row → Bool) (f : Row → Row) (rs : List Row) → any p rs ≡ false → update_rows p f rs ≡ rs
unfolding update_rows
update_rows-none p f [] h = refl
update_rows-none p f (r ∷ rs) h =
    let miss : p r ≡ false = ground arith in
    let rest = update_rows-none p f rs (ground arith) in rw (miss, rest) refl

module _ (id : ℕ) where
  nobody :
      (rs : List Row)
      → any (λ s. s.id == id) rs ≡ false
      → any (with_id id active_statuses) rs ≡ false
  nobody [] h = refl
  nobody (r ∷ rs) h = ground (arith, nobody rs)

  -- With ids unique, the statement matches exactly when the row with the id is active.
  matches_row :
      (rs : List Row)
      → has_twin rs ≡ false
      → any (with_id id active_statuses) rs ≡ is_active_in (find_row id rs)
  unfolding has_twin find_row
  matches_row [] h = refl
  matches_row (r ∷ rs) h = elim (Bool-cases (r.id == id)) [
    | inl here ↦
        let same : r.id ≡ id = (==_iff r.id id).0 here in
        let apart : any (λ s. s.id == r.id) rs ≡ false = ground arith in
        let apart' : any (λ s. s.id == id) rs ≡ false =
          ap (λ i. any (λ s. s.id == i) rs) (sym same) ∙ apart in
        rw (here, nobody rs apart') (ground arith)
    | inr there ↦ rw (there, matches_row rs (ground arith)) refl
  ]

cancel-IsQuiet : (env : Env) (id : ℕ) → IsQuiet (with_id id active_statuses) (cancel_row env)
cancel-IsQuiet env id = record { name = λ r. refl; url = λ r. refl; active = λ r h k. cc }

-- Cancelling answers by the state of the row with the id: it cancels an active row, says of any other
-- row that it cannot be cancelled, with its status, and says so when there is no such row; in the
-- last two cases the table stays as it is; the database is up, no active rows clash and no id stands
-- twice.
pub cancel_download_exact :
    (env env' : Env) (id : ℕ) (db : Db)
    → env.outage ≡ none
    → env'.outage ≡ none
    → has_clash db.rows ≡ false
    → has_twin db.rows ≡ false
    → cancel_download env env' id db ≡ cancel_answer env id db (find_row id db.rows)
unfolding cancel_download
cancel_download_exact env env' id db up up' unique keyed =
    let updated = execute_quiet _ _ (cancel-IsQuiet env id) env db up unique in
    let count = ltb-length-keep (with_id id active_statuses) db.rows in
    let row = matches_row id db.rows keyed in
    elim (Option-cases (find_row id db.rows)) [
      | inl absent ↦
          let unmatched : any (with_id id active_statuses) db.rows ≡ false =
            row ∙ ap is_active_in absent in
          let unchanged =
            update_rows-none (with_id id active_statuses) (cancel_row env) db.rows unmatched in
          rw (updated, count, unmatched, unchanged, up', absent) refl
      | inr (r, found) ↦ elim (Bool-cases (is_active r)) [
        | inl active ↦
            let matched : any (with_id id active_statuses) db.rows ≡ true =
              row ∙ ap is_active_in found ∙ active in
            rw (updated, count, matched, found, active) refl
        | inr settled ↦
            let unmatched : any (with_id id active_statuses) db.rows ≡ false =
              row ∙ ap is_active_in found ∙ settled in
            let unchanged =
              update_rows-none (with_id id active_statuses) (cancel_row env) db.rows unmatched in
            rw (updated, count, unmatched, unchanged, up', found, settled) refl
      ]
    ]
