-- ===== src/Downloads/Transitions/Steps.antt =====
-- src/db/downloads_lifecycle.rs and src/db/downloads.rs: what every operation does to a row.
use zimi_rs.Base.{
  ℕ, ◌≡◌, refl, subst, inl, inr, Bool, true, not, ◌&&◌, ◌||◌, Option, none, some, List, [], ◌∷◌,
  any, all, arith, Text, Result, ok, err, Bool-cases, ltb, find,
}
use zimi_rs.Downloads.Status.{
  DownloadStatus, queued, downloading, complete, seeding, error, cancelled, is_in, same_status,
  same_status_eq, can_transition_to,
}
use zimi_rs.Downloads.Table.{
  Row, Db, DbError, Env, execute, active_statuses, unique_violation, pool_timed_out, pool_closed,
  other_error,
}
use zimi_rs.Downloads.Lifecycle.{
  claim_direct, mark_error, mark_fatal_error, requeue_stale_errors, finalize_direct,
  record_observed_digest, settle_as, mark_complete, mark_downloading, bind_hash, touch_downloading,
  clear_hash, drain_cancelled_hashes, settle_seeding, refresh_seeding_stats, refresh_progress,
  retry_interrupted_directs, adopt_torrent, with_id, owns_hash, completion_guard_statuses,
  fatal_guard_statuses,
}
use zimi_rs.Downloads.Queue.{
  cancel_row, insert_download, cancel_download, insert_after, insert_outcome, cancel_after, fetch,
  holds,
}
use zimi_rs.Downloads.Transitions.{
  Moves, IsStep, Evolved, still, Evolved-refl, execute-Evolved, execute_best_effort-Evolved,
  insert_row-Evolved, insert_best_effort-Evolved,
}
use zimi_rs.Downloads.Transitions.Ops.{
  Op, run, claim_direct_op, mark_error_op, mark_fatal_error_op, requeue_stale_errors_op,
  finalize_direct_op, record_observed_digest_op, mark_complete_op, mark_downloading_op,
  bind_hash_op, touch_downloading_op, clear_hash_op, drain_cancelled_hashes_op, settle_seeding_op,
  refresh_seeding_stats_op, refresh_progress_op, retry_interrupted_directs_op, adopt_torrent_op,
  insert_download_op, cancel_download_op,
}

abbrev allows : DownloadStatus → DownloadStatus → Bool
allows s t =
    can_transition_to s t || same_status s t || (same_status s complete && same_status t seeding)

allows-Moves : (s t : DownloadStatus) → allows s t ≡ true → Moves s t
allows-Moves s t h = elim (Bool-cases (can_transition_to s t)) [
  | inl listed ↦ inr (inl listed)
  | inr unlisted ↦ elim (Bool-cases (same_status s t)) [
    | inl same ↦ inl (same_status_eq s t same)
    | inr other ↦
        inr
          (inr (same_status_eq s complete (ground arith), same_status_eq t seeding (ground arith)))
  ]
]

-- A guard's list of statuses that may all move to the target.
guard-Moves :
    (s t : DownloadStatus) (guard : List DownloadStatus)
    → all (λ g. allows g t) guard ≡ true
    → is_in guard s ≡ true
    → Moves s t
guard-Moves s t [] fine h = cc
guard-Moves s t (g ∷ guard) fine h = elim (Bool-cases (same_status g s)) [
  | inl same ↦ subst (λ x. Moves x t) (same_status_eq g s same) (allows-Moves g t (ground arith))
  | inr other ↦ guard-Moves s t guard (ground arith) (ground arith)
]

-- A row that keeps its identity and goes to a status that its guard allows.
moved :
    (r r' : Row) (guard : List DownloadStatus)
    → r.id ≡ r'.id
    → r.name ≡ r'.name
    → r.url ≡ r'.url
    → all (λ g. allows g r'.status) guard ≡ true
    → is_in guard r.status ≡ true
    → IsStep r r'
moved r r' guard i n u fine h = record {
  same_id = i;
  same_name = n;
  same_url = u;
  moves = guard-Moves r.status r'.status guard fine h;
}

and_right : (a b : Bool) → (a && b) ≡ true → b ≡ true
and_right a b h = ground arith

and_left : (a b : Bool) → (a && b) ≡ true → a ≡ true
and_left a b h = ground arith

open_statuses :
    (s : DownloadStatus)
    → not (is_in (cancelled ∷ complete ∷ seeding ∷ error ∷ []) s) ≡ true
    → is_in (queued ∷ downloading ∷ []) s ≡ true
open_statuses queued h = refl
open_statuses downloading h = refl
open_statuses complete h = cc
open_statuses seeding h = cc
open_statuses error h = cc
open_statuses cancelled h = cc

kept :
    {r r' : Row}
    → r.id ≡ r'.id
    → r.name ≡ r'.name
    → r.url ≡ r'.url
    → r.status ≡ r'.status
    → IsStep r r'
kept i n u s = record { same_id = i; same_name = n; same_url = u; moves = inl s }

module _ (env : Env) (db : Db) where
  mark_complete-Evolved :
      (id : ℕ) (dst : Text) (st : DownloadStatus) (ratio up num : Option ℕ)
      → Evolved db.rows (mark_complete env id dst st ratio up num db).0.rows
  unfolding mark_complete settle_as can_transition_to
  mark_complete-Evolved id dst st ratio up num =
      execute-Evolved env _ _ db (λ r h. settled st r (and_right _ _ h))
    where
      settled :
          (st : DownloadStatus) (r : Row)
          → is_in completion_guard_statuses r.status ≡ true
          → IsStep r (settle_as env st dst ratio up num r)
      settled seeding r h = moved r _ completion_guard_statuses refl refl refl refl h
      settled queued r h = moved r _ completion_guard_statuses refl refl refl refl h
      settled downloading r h = moved r _ completion_guard_statuses refl refl refl refl h
      settled complete r h = moved r _ completion_guard_statuses refl refl refl refl h
      settled error r h = moved r _ completion_guard_statuses refl refl refl refl h
      settled cancelled r h = moved r _ completion_guard_statuses refl refl refl refl h

  requeue_stale_errors-Evolved :
      (ids : List ℕ) → Evolved db.rows (requeue_stale_errors env ids db).0.rows
  unfolding requeue_stale_errors can_transition_to
  requeue_stale_errors-Evolved [] = Evolved-refl db.rows
  requeue_stale_errors-Evolved (i ∷ ids) =
      execute-Evolved env _ _ db
        (λ r h. moved r _ (error ∷ []) refl refl refl refl (and_right _ _ h))

  settle_seeding-Evolved :
      (id : ℕ) (msg : Option Text) → Evolved db.rows (settle_seeding env id msg db).0.rows
  unfolding settle_seeding can_transition_to
  settle_seeding-Evolved id (some msg) =
      execute_best_effort-Evolved env _ _ db
        (λ r h. moved r _ (seeding ∷ []) refl refl refl refl (and_right _ _ h))
  settle_seeding-Evolved id none =
      execute_best_effort-Evolved env _ _ db
        (λ r h. moved r _ (seeding ∷ []) refl refl refl refl (and_right _ _ h))

  adopt_torrent-Evolved :
      (name hash : Text) (st : DownloadStatus) (progress : ℕ)
      → Evolved db.rows (adopt_torrent env name hash st progress db).0.rows
  unfolding adopt_torrent
  adopt_torrent-Evolved name hash st progress =
      elim (Bool-cases (any (owns_hash env hash) db.rows)) [
        | inl owned ↦ rw owned (execute_best_effort-Evolved env _ _ db (λ r h. still r))
        | inr free ↦ rw free (insert_best_effort-Evolved env _ db)
      ]

  insert_download-Evolved :
      (env' : Env) (name url : Text) (before : Db)
      → Evolved db.rows (insert_download env' env name url before db).0.rows
  unfolding insert_download
  insert_download-Evolved env' name url before =
      after (fetch env' (find (holds name url) before.rows))
    where
      outcome :
          (answer : Db × Result ℕ DbError)
          → Evolved db.rows answer.0.rows
          → Evolved db.rows (insert_outcome answer).0.rows
      outcome (db', ok id) h = h
      outcome (db', err unique_violation) h = h
      outcome (db', err pool_timed_out) h = h
      outcome (db', err pool_closed) h = h
      outcome (db', err other_error) h = h

      after :
          (found : Result (Option Row) DbError)
          → Evolved db.rows (insert_after env name url db found).0.rows
      after (err e) = Evolved-refl db.rows
      after (ok (some r)) = Evolved-refl db.rows
      after (ok none) = outcome _ (insert_row-Evolved env _ db)

  cancel_download-Evolved :
      (env' : Env) (id : ℕ) → Evolved db.rows (cancel_download env env' id db).0.rows
  unfolding cancel_download can_transition_to
  cancel_download-Evolved env' id =
      outcome (execute env (with_id id active_statuses) (cancel_row env) db) (
        execute-Evolved env (with_id id active_statuses) (cancel_row env) db
          (λ r h. moved r (cancel_row env r) active_statuses refl refl refl refl (and_right _ _ h)))
    where
      outcome :
          (answer : Db × Result ℕ DbError)
          → Evolved db.rows answer.0.rows
          → Evolved db.rows (cancel_after env' id answer).0.rows
      outcome (db', err e) h = h
      outcome (db', ok n) h = elim (Bool-cases (ltb 0 n)) [
        | inl some_row ↦ rw some_row h
        | inr no_row ↦ rw no_row h
      ]

-- Whatever the database and the other requests do, each operation takes every row along the table of
-- transitions, or from `complete` to `seeding`; no row is lost, and its name and URL stay.
pub run-Evolved : (env : Env) (op : Op) (db : Db) → Evolved db.rows (run env op db).rows
unfolding run can_transition_to claim_direct mark_error mark_fatal_error finalize_direct
    record_observed_digest mark_downloading bind_hash touch_downloading clear_hash
    drain_cancelled_hashes refresh_seeding_stats refresh_progress retry_interrupted_directs
run-Evolved env (claim_direct_op id part) db =
    execute-Evolved env _ _ db
      (λ r h. moved r _ (queued ∷ []) refl refl refl refl (and_right _ _ h))
run-Evolved env (mark_error_op id msg) db = execute-Evolved env _ _ db (λ r h.
    moved r _ fatal_guard_statuses refl refl refl refl (open_statuses r.status (and_right _ _ h)))
run-Evolved env (mark_fatal_error_op id msg) db =
    execute_best_effort-Evolved env _ _ db
      (λ r h. moved r _ fatal_guard_statuses refl refl refl refl (and_right _ _ h))
run-Evolved env (requeue_stale_errors_op ids) db = requeue_stale_errors-Evolved env db ids
run-Evolved env (finalize_direct_op id dst sha256) db =
    execute-Evolved env _ _ db
      (λ r h. moved r _ (downloading ∷ []) refl refl refl refl (and_right _ _ h))
run-Evolved env (record_observed_digest_op id sha256) db =
    execute-Evolved env _ _ db (λ r h. kept refl refl refl refl)
run-Evolved env (mark_complete_op id dst st ratio up num) db =
    mark_complete-Evolved env db id dst st ratio up num
run-Evolved env (mark_downloading_op id) db =
    execute_best_effort-Evolved env _ _ db
      (λ r h. moved r _ (queued ∷ []) refl refl refl refl (and_right _ _ h))
run-Evolved env (bind_hash_op id hash) db =
    execute_best_effort-Evolved env _ _ db (λ r h. kept refl refl refl refl)
run-Evolved env (touch_downloading_op id) db =
    execute_best_effort-Evolved env _ _ db (λ r h. kept refl refl refl refl)
run-Evolved env (clear_hash_op id) db = execute-Evolved env _ _ db (λ r h. kept refl refl refl refl)
run-Evolved env drain_cancelled_hashes_op db =
    execute-Evolved env _ _ db (λ r h. kept refl refl refl refl)
run-Evolved env (settle_seeding_op id msg) db = settle_seeding-Evolved env db id msg
run-Evolved env (refresh_seeding_stats_op id ratio up num speed) db =
    execute_best_effort-Evolved env _ _ db (λ r h. kept refl refl refl refl)
run-Evolved env (refresh_progress_op id progress speed) db =
    execute_best_effort-Evolved env _ _ db (λ r h. kept refl refl refl refl)
run-Evolved env retry_interrupted_directs_op db =
    execute-Evolved env _ _ db
      (λ r h. moved r _ (downloading ∷ []) refl refl refl refl (and_left _ _ h))
run-Evolved env (adopt_torrent_op name hash st progress) db =
    adopt_torrent-Evolved env db name hash st progress
run-Evolved env (insert_download_op env' name url before) db =
    insert_download-Evolved env db env' name url before
run-Evolved env (cancel_download_op env' id) db = cancel_download-Evolved env db env' id
