-- ===== src/Downloads/Unique/Granted.antt =====
-- src/db/downloads_lifecycle.rs: the statements that the unique indexes never refuse.
use zimi_rs.Base.{ℕ, Option, Text, Result, ok, err}
use zimi_rs.Downloads.Status.{DownloadStatus}
use zimi_rs.Downloads.Table.{Db, DbError, Env}
use zimi_rs.Downloads.Lifecycle.{
  claim_direct, mark_fatal_error, finalize_direct, mark_complete, mark_downloading,
  touch_downloading, settle_seeding, refresh_seeding_stats, refresh_progress,
  retry_interrupted_directs,
}

-- The statement has taken effect.
abbrev pub IsDone : Db × Result ℕ DbError → Type 0
IsDone (db, ok n) = Unit
IsDone (db, err e) = ⊥

-- The statements that claim, settle or refresh a row, each on any arguments.
module _ (env : Env) (id : ℕ) (text : Text) (msg digest : Option Text) (st : DownloadStatus)
    (a b c : Option ℕ) (x y z v : ℕ) where
  abbrev pub AllDone : Db → Type 0
  AllDone db =
      IsDone (claim_direct env id text db)
      × IsDone (mark_downloading env id db)
      × IsDone (mark_fatal_error env id text db)
      × IsDone (finalize_direct env id text digest db)
      × IsDone (mark_complete env id text st a b c db)
      × IsDone (settle_seeding env id msg db)
      × IsDone (retry_interrupted_directs env db)
      × IsDone (touch_downloading env id db)
      × IsDone (refresh_progress env id x y db)
      × IsDone (refresh_seeding_stats env id x y z v db)
