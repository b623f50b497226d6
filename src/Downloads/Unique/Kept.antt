-- ===== src/Downloads/Unique/Kept.antt =====
-- src/db: every operation keeps the active rows apart, whatever interleaves.
use zimi_rs.Base.{
  ℕ, ◌≡◌, refl, Bool, true, false, Option, some, none, List, [], ◌∷◌, any, ltb, if◌then◌else◌,
  Bool-cases, inl, inr, Text, Result, ok, err, find,
}
use zimi_rs.Downloads.Table.{
  Row, Db, DbError, Env, pool_timed_out, pool_closed, other_error, unique_violation, has_clash,
  statement, commit_unless, execute, insert_row, execute_best_effort, insert_best_effort, swallow,
  active_statuses,
}
use zimi_rs.Downloads.Lifecycle.{
  claim_direct, mark_error, mark_fatal_error, requeue_stale_errors, requeue_batch, finalize_direct,
  record_observed_digest, mark_complete, mark_downloading, bind_hash, touch_downloading, clear_hash,
  drain_cancelled_hashes, settle_seeding, refresh_seeding_stats, refresh_progress,
  retry_interrupted_directs, adopt_torrent, owns_hash, with_id,
}
use zimi_rs.Downloads.Queue.{
  insert_download, cancel_download, insert_after, insert_outcome, cancel_after, cancel_row, fetch,
  holds,
}
use zimi_rs.Downloads.Transitions.Ops.{
  Op, run, claim_direct_op, mark_error_op, mark_fatal_error_op, requeue_stale_errors_op,
  finalize_direct_op, record_observed_digest_op, mark_complete_op, mark_downloading_op,
  bind_hash_op, touch_downloading_op, clear_hash_op, drain_cancelled_hashes_op, settle_seeding_op,
  refresh_seeding_stats_op, refresh_progress_op, retry_interrupted_directs_op, adopt_torrent_op,
  insert_download_op, cancel_download_op,
}
use zimi_rs.Downloads.Transitions.Cancelled.{run_all}

-- No two active rows share a URL or a name.
abbrev pub IsUnique : Db → Type 0
IsUnique db = has_clash db.rows ≡ false

module _ (db : Db) (u : IsUnique db) where
  statement-IsUnique :
      (outage : Option DbError) (db' : Db) (n : ℕ) → IsUnique (statement outage db db' n).0
  statement-IsUnique (some e) db' n = u
  statement-IsUnique none db' n = decided (has_clash db'.rows) refl
    where
      decided : (b : Bool) → has_clash db'.rows ≡ b → IsUnique (commit_unless b db db' n).0
      decided true h = u
      decided false h = h

  swallow-IsUnique : (a : Db × Result ℕ DbError) → IsUnique a.0 → IsUnique (swallow a).0
  swallow-IsUnique (d, ok n) h = h
  swallow-IsUnique (d, err pool_timed_out) h = h
  swallow-IsUnique (d, err pool_closed) h = h
  swallow-IsUnique (d, err unique_violation) h = h
  swallow-IsUnique (d, err other_error) h = h

  module _ (env : Env) where
    updated : (guard : Row → Bool) (change : Row → Row) → IsUnique (execute env guard change db).0
    unfolding execute
    updated guard change = statement-IsUnique env.outage _ _

    tried :
        (guard : Row → Bool) (change : Row → Row)
        → IsUnique (execute_best_effort env guard change db).0
    unfolding execute_best_effort
    tried guard change = swallow-IsUnique (execute env guard change db) (updated guard change)

    added : (new : ℕ → Row) → IsUnique (insert_row env new db).0
    unfolding insert_row
    added new = statement-IsUnique env.outage _ _

    adopted : (new : ℕ → Row) → IsUnique (insert_best_effort env new db).0
    unfolding insert_best_effort
    adopted new = swallow-IsUnique (insert_row env new db) (added new)

    requeued : (ids : List ℕ) → IsUnique (requeue_batch env ids db).0
    requeued [] = u
    requeued (i ∷ ids) = updated _ _

    settled : (id : ℕ) (msg : Option Text) → IsUnique (settle_seeding env id msg db).0
    unfolding settle_seeding
    settled id none = tried _ _
    settled id (some msg) = tried _ _

    adopted_if :
        (b : Bool) (new : ℕ → Row)
        → IsUnique
            (if b
              then execute_best_effort env (λ r. false) (λ r. r) db
              else insert_best_effort env new db).0
    adopted_if true new = tried _ _
    adopted_if false new = adopted new

    insert_outcome-IsUnique :
        (a : Db × Result ℕ DbError) → IsUnique a.0 → IsUnique (insert_outcome a).0
    insert_outcome-IsUnique (d, ok n) h = h
    insert_outcome-IsUnique (d, err pool_timed_out) h = h
    insert_outcome-IsUnique (d, err pool_closed) h = h
    insert_outcome-IsUnique (d, err unique_violation) h = h
    insert_outcome-IsUnique (d, err other_error) h = h

    inserted_after :
        (name url : Text) (found : Result (Option Row) DbError)
        → IsUnique (insert_after env name url db found).0
    inserted_after name url (err e) = u
    inserted_after name url (ok (some r)) = u
    inserted_after name url (ok none) = insert_outcome-IsUnique _ (added _)

    cancelled_after :
        (id : ℕ) (a : Db × Result ℕ DbError) → IsUnique a.0 → IsUnique (cancel_after env id a).0
    cancelled_after id (d, err e) h = h
    cancelled_after id (d, ok n) h = elim (Bool-cases (ltb 0 n)) [
      | inl some_row ↦ rw some_row h
      | inr no_row ↦ rw no_row h
    ]

pub run-IsUnique : (env : Env) (op : Op) (db : Db) → IsUnique db → IsUnique (run env op db)
unfolding run claim_direct mark_error mark_fatal_error requeue_stale_errors finalize_direct
    record_observed_digest mark_complete mark_downloading bind_hash touch_downloading clear_hash
    drain_cancelled_hashes refresh_seeding_stats refresh_progress retry_interrupted_directs
    adopt_torrent insert_download cancel_download
run-IsUnique env (claim_direct_op id part) db u = updated db u env _ _
run-IsUnique env (mark_error_op id msg) db u = updated db u env _ _
run-IsUnique env (mark_fatal_error_op id msg) db u = tried db u env _ _
run-IsUnique env (requeue_stale_errors_op ids) db u = requeued db u env ids
run-IsUnique env (finalize_direct_op id dst sha256) db u = updated db u env _ _
run-IsUnique env (record_observed_digest_op id sha256) db u = updated db u env _ _
run-IsUnique env (mark_complete_op id dst st ratio up num) db u = updated db u env _ _
run-IsUnique env (mark_downloading_op id) db u = tried db u env _ _
run-IsUnique env (bind_hash_op id hash) db u = tried db u env _ _
run-IsUnique env (touch_downloading_op id) db u = tried db u env _ _
run-IsUnique env (clear_hash_op id) db u = updated db u env _ _
run-IsUnique env drain_cancelled_hashes_op db u = updated db u env _ _
run-IsUnique env (settle_seeding_op id msg) db u = settled db u env id msg
run-IsUnique env (refresh_seeding_stats_op id ratio up num speed) db u = tried db u env _ _
run-IsUnique env (refresh_progress_op id progress speed) db u = tried db u env _ _
run-IsUnique env retry_interrupted_directs_op db u = updated db u env _ _
run-IsUnique env (adopt_torrent_op name hash st progress) db u =
    adopted_if db u env (any (owns_hash env hash) db.rows) _
run-IsUnique env (insert_download_op env' name url before) db u =
    inserted_after db u env name url (fetch env' (find (holds name url) before.rows))
run-IsUnique env (cancel_download_op env' id) db u =
    cancelled_after db u env' id (execute env (with_id id active_statuses) (cancel_row env) db)
      (updated db u env (with_id id active_statuses) (cancel_row env))

-- The unique indexes still hold after any operations, since the database enforces them.
pub run_all-IsUnique : (ops : List (Env × Op)) (db : Db) → IsUnique db → IsUnique (run_all ops db)
unfolding run_all
run_all-IsUnique [] db u = u
run_all-IsUnique ((env, op) ∷ later) db u =
    run_all-IsUnique later (run env op db) (run-IsUnique env op db u)
