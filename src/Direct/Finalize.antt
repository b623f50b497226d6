-- ===== src/Direct/Finalize.antt =====
-- src/torrent/poller/direct.rs: what follows the stream, from the re-check of the row to the installed
-- file. What other tasks do between two steps is `between`, any function of the state.
pub mod Settles
pub mod Idle
pub mod Ended
use zimi_rs.Base.{
  ℕ, Bool, true, false, not, Option, none, some, List, [], ◌∷◌, ◌==◌, if◌then◌else◌, lookup, insert,
  remove, Text, text_keys, codes, ◌++◌, eq_ignore_ascii_case, Result, ok, err,
}
use zimi_rs.Downloads.Status.{DownloadStatus, downloading, cancelled, same_status}
use zimi_rs.Downloads.Table.{Db, DbError, Env, find_row, Row}
use zimi_rs.Downloads.Lifecycle.{mark_error, finalize_direct}
use zimi_rs.Downloads.Queue.{
  StatusError, status_checked, status_if_changed, claim_digest, find_live_row_owns_path,
  drift_decision, prior_observed_digest_by_url,
}
use zimi_rs.Direct.Stream.{Bytes}

pub record World : Type 0 where
  pub db : Db
  pub files : List (Text × Bytes)

-- The points at which other tasks may have run.
pub data Site : Type 0 where
  recheck read_claim verify mark_mismatch recheck_again own mark_owned rename resync finish : Site
  owned_again : Site

pub data FinalizeError : Type 0 where
  database : DbError → FinalizeError
  row : StatusError → FinalizeError
  task_failed bad_zim unreadable bad_name rename_failed resync_failed : FinalizeError

pub data Outcome : Type 0 where
  changed : DownloadStatus → Outcome
  digest_mismatch : Outcome
  cancelled_before : Outcome
  owned_by : ℕ → Outcome
  cancelled_late : Outcome
  installed : Outcome

abbrev pub Finished : Type 0
Finished = World × Result Outcome FinalizeError

pub record Setting : Type 0 where
  pub between : Site → World → World
  pub env : Site → Env
  -- SHA-256, and libzim's check.
  pub sha256 : Bytes → Text
  pub verify_zim : Bytes → Bool
  pub joins : Bool
  pub removes : Bool
  pub renames : Bool
  pub resyncs : Bool
  pub message : Text

abbrev pub is_cancelled : DownloadStatus → Bool
is_cancelled status = same_status status cancelled

abbrev pub mismatches : Option Text → Text → Bool
mismatches none digest = false
mismatches (some c) digest = not (eq_ignore_ascii_case digest c)

module _ (set : Setting) (id : ℕ) (part : Text) where
  open set use {between, env}

  abbrev pub remove_file : Text → World → World
  remove_file path w = if set.removes then record w { files = remove path w.files } else w

  abbrev pub mark_at : Site → World → World
  mark_at site w = record w { db = mark_error (env site) id set.message w.db }

  -- `discard_if_unowned`, which keeps the file when the check fails.
  abbrev pub discard_unless : Text → Result (Option ℕ) DbError → World → World
  discard_unless dst (ok (some other)) w = w
  discard_unless dst (ok none) w = remove_file dst w
  discard_unless dst (err e) w = w

  unfoldable pub discard_if_unowned : Text → World → World
  discard_if_unowned dst w =
      discard_unless dst (find_live_row_owns_path (env owned_again) dst id w.db) w

  abbrev pub after_update : Text → World → Db × Result ℕ DbError → Finished
  after_update dst w (db, err e) = (record w { db = db }, err (database e))
  after_update dst w (db, ok updated) =
      if updated == 0
      then (discard_if_unowned dst (between owned_again (record w { db = db })), ok cancelled_late)
      else (record w { db = db }, ok installed)

  abbrev pub update_row : Text → Text → World → Finished
  update_row dst digest w =
      after_update dst w (finalize_direct (env finish) id dst (some digest) w.db)

  abbrev pub resynced : Text → Text → World → Finished
  resynced dst digest w =
      if set.resyncs then update_row dst digest (between finish w) else (w, err resync_failed)

  -- `std::fs::rename`, which replaces the destination.
  abbrev pub renamed : Text → Text → World → Option Bytes → Finished
  renamed dst digest w none = (w, err rename_failed)
  renamed dst digest w (some bytes) =
      if set.renames
      then resynced dst digest
          (between resync (record w { files = insert dst bytes (remove part w.files) }))
      else (w, err rename_failed)

  abbrev pub rename_to : Text → Text → World → Finished
  rename_to dst digest w = renamed dst digest w (lookup part w.files)

  abbrev pub unless_owned : Text → Text → World → Result (Option ℕ) DbError → Finished
  unless_owned dst digest w (err e) = (w, err (database e))
  unless_owned dst digest w (ok (some other)) =
      (remove_file part (mark_at mark_owned (between mark_owned w)), ok (owned_by other))
  unless_owned dst digest w (ok none) = rename_to dst digest (between rename w)

  abbrev pub publish : Text → Option Text → World → Finished
  publish digest none w = (w, err bad_name)
  publish digest (some dst) w =
      let w' = between own w in
      unless_owned dst digest w' (find_live_row_owns_path (env own) dst id w'.db)

  abbrev pub unless_cancelled :
      Text → Option Text → World → Result DownloadStatus StatusError → Finished
  unless_cancelled digest dst w (err e) = (w, err (row e))
  unless_cancelled digest dst w (ok status) =
      if is_cancelled status
      then (remove_file part w, ok cancelled_before)
      else publish digest dst w

  abbrev pub recheck_row : Text → Option Text → World → Finished
  recheck_row digest dst w =
      unless_cancelled digest dst w (status_checked (env recheck_again) id w.db)

  abbrev pub verified : Option Text → Option Text → World → Option Bytes → Finished
  verified claim dst w none = (w, err unreadable)
  verified claim dst w (some bytes) =
      if mismatches claim (set.sha256 bytes)
      then (remove_file part (mark_at mark_mismatch (between mark_mismatch w)), ok digest_mismatch)
      else if not (set.verify_zim bytes)
      then (w, err bad_zim)
      else recheck_row (set.sha256 bytes) dst (between recheck_again w)

  abbrev pub check_file : Option Text → World → Result (Option Text) DbError → Finished
  check_file dst w (err e) = (w, err (database e))
  check_file dst w (ok claim) =
      let w' = between verify w in
      if set.joins then verified claim dst w' (lookup part w'.files) else (w', err task_failed)

  abbrev pub unless_changed : Option Text → World → Option DownloadStatus → Finished
  unless_changed dst w (some status) = (remove_file part w, ok (changed status))
  unless_changed dst w none =
      let w' = between read_claim w in check_file dst w' (claim_digest (env read_claim) id w'.db)

  -- `dst` is the path that the part's stem names, if it has one.
  unfoldable pub finalize_direct_download : Option Text → World → Finished
  finalize_direct_download dst w =
      let w' = between recheck w in
      unless_changed dst w' (status_if_changed (env recheck) id downloading w'.db)
