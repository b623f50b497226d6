-- ===== src/Downloads/Transitions/Ops.antt =====
-- src/db/downloads_lifecycle.rs and src/db/downloads.rs: every operation on the table, as a step.
use zimi_rs.Base.{ℕ, Option, List, Text}
use zimi_rs.Downloads.Status.{DownloadStatus}
use zimi_rs.Downloads.Table.{Db, Env}
use zimi_rs.Downloads.Lifecycle.{
  claim_direct, mark_error, mark_fatal_error, requeue_stale_errors, finalize_direct,
  record_observed_digest, mark_complete, mark_downloading, bind_hash, touch_downloading, clear_hash,
  drain_cancelled_hashes, settle_seeding, refresh_seeding_stats, refresh_progress,
  retry_interrupted_directs, adopt_torrent,
}
use zimi_rs.Downloads.Queue.{insert_download, cancel_download}

pub data Op : Type 0 where
  claim_direct_op : ℕ → Text → Op
  mark_error_op : ℕ → Text → Op
  mark_fatal_error_op : ℕ → Text → Op
  requeue_stale_errors_op : List ℕ → Op
  finalize_direct_op : ℕ → Text → Option Text → Op
  record_observed_digest_op : ℕ → Text → Op
  mark_complete_op : ℕ → Text → DownloadStatus → Option ℕ → Option ℕ → Option ℕ → Op
  mark_downloading_op : ℕ → Op
  bind_hash_op : ℕ → Text → Op
  touch_downloading_op : ℕ → Op
  clear_hash_op : ℕ → Op
  drain_cancelled_hashes_op : Op
  settle_seeding_op : ℕ → Option Text → Op
  refresh_seeding_stats_op : ℕ → ℕ → ℕ → ℕ → ℕ → Op
  refresh_progress_op : ℕ → ℕ → ℕ → Op
  retry_interrupted_directs_op : Op
  adopt_torrent_op : Text → Text → DownloadStatus → ℕ → Op
  insert_download_op : Env → Text → Text → Db → Op
  cancel_download_op : Env → ℕ → Op

-- The table after an operation.
unfoldable pub run : Env → Op → Db → Db
run env (claim_direct_op id part) db = (claim_direct env id part db).0
run env (mark_error_op id msg) db = mark_error env id msg db
run env (mark_fatal_error_op id msg) db = (mark_fatal_error env id msg db).0
run env (requeue_stale_errors_op ids) db = (requeue_stale_errors env ids db).0
run env (finalize_direct_op id dst sha256) db = (finalize_direct env id dst sha256 db).0
run env (record_observed_digest_op id sha256) db = (record_observed_digest env id sha256 db).0
run env (mark_complete_op id dst st ratio up num) db =
    (mark_complete env id dst st ratio up num db).0
run env (mark_downloading_op id) db = (mark_downloading env id db).0
run env (bind_hash_op id hash) db = (bind_hash env id hash db).0
run env (touch_downloading_op id) db = (touch_downloading env id db).0
run env (clear_hash_op id) db = clear_hash env id db
run env drain_cancelled_hashes_op db = (drain_cancelled_hashes env db).0
run env (settle_seeding_op id msg) db = (settle_seeding env id msg db).0
run env (refresh_seeding_stats_op id ratio up num speed) db =
    (refresh_seeding_stats env id ratio up num speed db).0
run env (refresh_progress_op id progress speed) db = (refresh_progress env id progress speed db).0
run env retry_interrupted_directs_op db = (retry_interrupted_directs env db).0
run env (adopt_torrent_op name hash st progress) db = (adopt_torrent env name hash st progress db).0
run env (insert_download_op env' name url before) db =
    (insert_download env' env name url before db).0
run env (cancel_download_op env' id) db = (cancel_download env env' id db).0
