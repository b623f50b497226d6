-- ===== src/Downloads/Unique.antt =====
-- src/db/downloads.rs and src/db/downloads_lifecycle.rs: at most one active row for a URL or a name,
-- and what the answers of the guarded statements say.
pub mod Outcomes
pub mod Kept
pub mod Cancel
pub mod Granted
mod Tests
use zimi_rs.Base.{
  ℕ, ◌+◌, ◌<◌, ◌≤◌, ◌≡◌, refl, sym, ap, ◌∙◌, Bool, true, false, not, ◌&&◌, ◌||◌, Option, some, none,
  List, [], ◌∷◌, ◌++◌, ◌==◌, ==_iff, arith, if◌then◌else◌, Bool-cases, Option-cases, any, all, keep,
  find, length, inl, inr, Text, text_eq, text_eq_iff, Result, ok, err,
}
use zimi_rs.Downloads.Status.{
  DownloadStatus, queued, downloading, error, cancelled, is_in, same_status,
}
use zimi_rs.Downloads.Table.{
  Row, Db, DbError, Env, unique_violation, clash, has_clash, is_active, active_statuses,
  update_rows, execute, insert_row, statement, commit_unless, find_row, blank_row,
}
use zimi_rs.Downloads.Lifecycle.{claim_direct, with_id}
use zimi_rs.Downloads.Queue.{
  insert_download, insert_after, insert_outcome, InsertOutcome, inserted, duplicate, holds, fetch,
  cancel_download, cancel_after, cancel_row, CancelOutcome, was_cancelled, not_found,
  not_cancellable,
}

-- A change that activates no row and leaves names and URLs alone.
pub record IsQuiet (guard : Row → Bool) (change : Row → Row) : Type 0 where
  pub name : (r : Row) → (change r).name ≡ r.name
  pub url : (r : Row) → (change r).url ≡ r.url
  pub active : (r : Row) → guard r ≡ true → is_active (change r) ≡ true → is_active r ≡ true

module _ (guard : Row → Bool) (change : Row → Row) (quiet : IsQuiet guard change) where
  abbrev after : Row → Row
  after r = if guard r then change r else r

  after-clash : (r s : Row) → clash (after r) (after s) ≡ true → clash r s ≡ true
  unfolding clash
  after-clash r s h =
      ground (
        arith,
        quiet.name r,
        quiet.name s,
        quiet.url r,
        quiet.url s,
        quiet.active r,
        quiet.active s,
      )

  any-after :
      (r : Row) (rs : List Row)
      → any (clash r) rs ≡ false
      → any (clash (after r)) (update_rows guard change rs) ≡ false
  unfolding update_rows
  any-after r [] h = refl
  any-after r (s ∷ rs) h = ground (arith, after-clash r s, any-after r rs)

  -- Such a statement never meets the indexes.
  pub update_rows_unique :
      (rs : List Row) → has_clash rs ≡ false → has_clash (update_rows guard change rs) ≡ false
  unfolding update_rows has_clash
  update_rows_unique [] h = refl
  update_rows_unique (r ∷ rs) h = ground (arith, any-after r rs, update_rows_unique rs)

  pub execute_quiet :
      (env : Env) (db : Db)
      → env.outage ≡ none
      → has_clash db.rows ≡ false
      → execute env guard change db
        ≡ (record db { rows = update_rows guard change db.rows }, ok (length (keep guard db.rows)))
  unfolding execute
  execute_quiet env db up unique = rw (up, update_rows_unique db.rows unique) refl
