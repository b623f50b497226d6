-- ===== src/Downloads/Queue.antt =====
-- src/db/downloads.rs: the queue's own operations, and the guards of an installation.
use zimi_rs.Base.{
  ℕ, Bool, false, not, ◌&&◌, ◌||◌, Option, none, some, List, [], ◌∷◌, find, keep, ltb, ◌==◌,
  if◌then◌else◌, is_some, Text, text_eq, Result, ok, err, eq_ignore_ascii_case, ◌>>=◌,
}
use zimi_rs.Downloads.Status.{
  DownloadStatus, queued, downloading, complete, seeding, cancelled, is_in, same_status,
}
use zimi_rs.Downloads.Table.{
  Row, Db, DbError, unique_violation, pool_timed_out, pool_closed, other_error, Env,
  active_statuses, execute, insert_row, blank_row, find_row,
}
use zimi_rs.Downloads.Lifecycle.{with_id}

abbrev pub live_statuses : List DownloadStatus
live_statuses = queued ∷ downloading ∷ complete ∷ seeding ∷ []

abbrev id_of : Option Row → Option ℕ
id_of none = none
id_of (some r) = some r.id

-- A SELECT: the outage, or what the query finds.
abbrev pub fetch {ℓ} : {A : Type ℓ} → Env → A → Result A DbError
fetch env a = elim env.outage [ some e ↦ err e | none ↦ ok a ]

abbrev pub same_name_live : Text → ℕ → Row → Bool
same_name_live name exclude_id r =
    text_eq r.name name && not (r.id == exclude_id) && is_in live_statuses r.status

unfoldable pub find_same_name_live_row : Env → Text → ℕ → Db → Result (Option ℕ) DbError
find_same_name_live_row env name exclude_id db =
    fetch env (id_of (find (same_name_live name exclude_id) db.rows))

abbrev text_is : Text → Option Text → Bool
text_is path none = false
text_is path (some p) = text_eq p path

abbrev pub owns_path : Text → ℕ → Row → Bool
owns_path path exclude_id r =
    text_is path r.file_path && not (r.id == exclude_id) && is_in live_statuses r.status

unfoldable pub find_live_row_owns_path : Env → Text → ℕ → Db → Result (Option ℕ) DbError
find_live_row_owns_path env path exclude_id db =
    fetch env (id_of (find (owns_path path exclude_id) db.rows))

pub data InsertOutcome : Type 0 where
  inserted : ℕ → InsertOutcome
  duplicate : InsertOutcome

abbrev pub holds : Text → Text → Row → Bool
holds name url r = (text_eq r.url url || text_eq r.name name) && is_in active_statuses r.status

abbrev pub insert_outcome : Db × Result ℕ DbError → Db × Result InsertOutcome DbError
insert_outcome (db, ok id) = (db, ok (inserted id))
insert_outcome (db, err unique_violation) = (db, ok duplicate)
insert_outcome (db, err pool_timed_out) = (db, err pool_timed_out)
insert_outcome (db, err pool_closed) = (db, err pool_closed)
insert_outcome (db, err other_error) = (db, err other_error)

abbrev pub insert_after :
    Env → Text → Text → Db → Result (Option Row) DbError → Db × Result InsertOutcome DbError
insert_after env name url db (err e) = (db, err e)
insert_after env name url db (ok (some _)) = (db, ok duplicate)
insert_after env name url db (ok none) =
    insert_outcome (insert_row env (λ id. blank_row env id name url queued) db)

-- The pre-check reads `before`; the INSERT meets `db`, which other requests may have changed since.
unfoldable pub insert_download :
    Env → Env → Text → Text → Db → Db → Db × Result InsertOutcome DbError
insert_download env env' name url before db =
    insert_after env' name url db (fetch env (find (holds name url) before.rows))

pub data CancelOutcome : Type 0 where
  was_cancelled : ℕ → CancelOutcome
  not_found : CancelOutcome
  not_cancellable : DownloadStatus → CancelOutcome

abbrev pub refused_as : Option Row → CancelOutcome
refused_as none = not_found
refused_as (some r) = not_cancellable r.status

abbrev pub cancel_after : Env → ℕ → Db × Result ℕ DbError → Db × Result CancelOutcome DbError
cancel_after env id (db, err e) = (db, err e)
cancel_after env id (db, ok updated) =
    if ltb 0 updated
    then (db, ok (was_cancelled id))
    else (db, fetch env (find_row id db.rows) >>= λ r. ok (refused_as r))

abbrev pub cancel_row : Env → Row → Row
cancel_row env r = record r { status = cancelled; updated_at = env.now }

-- `env` is what the UPDATE meets, `env'` the SELECT that follows.
unfoldable pub cancel_download : Env → Env → ℕ → Db → Db × Result CancelOutcome DbError
cancel_download env env' id db =
    cancel_after env' id (execute env (with_id id active_statuses) (cancel_row env) db)

-- The re-reads of a status before a row is changed.
unfoldable pub status_of : Env → ℕ → Db → Option DownloadStatus
status_of env id db = elim (fetch env (find_row id db.rows)) [
  | ok (some r) ↦ some r.status
  | ok none ↦ none
  | err _ ↦ none
]

pub data StatusError : Type 0 where
  database : DbError → StatusError
  missing : StatusError

unfoldable pub status_checked : Env → ℕ → Db → Result DownloadStatus StatusError
status_checked env id db = elim (fetch env (find_row id db.rows)) [
  | ok (some r) ↦ ok r.status
  | ok none ↦ err missing
  | err e ↦ err (database e)
]

unfoldable pub status_if_changed : Env → ℕ → DownloadStatus → Db → Option DownloadStatus
unfolding status_checked
status_if_changed env id expected db = elim (status_checked env id db) [
  | ok st ↦ if not (same_status st expected) then some st else none
  | err _ ↦ none
]

unfoldable pub status_no_longer_downloading : Env → ℕ → Db → Option DownloadStatus
unfolding status_of
status_no_longer_downloading env id db = elim (status_of env id db) [
  | some st ↦ if not (same_status st downloading) then some st else none
  | none ↦ none
]

-- The installed bytes differ from those seen before under the same identity.
unfoldable pub drift_decision : Option Text → Text → Bool
drift_decision none current = false
drift_decision (some p) current = not (eq_ignore_ascii_case p current)

abbrev digest_of : Option Row → Option Text
digest_of none = none
digest_of (some r) = r.sha256

unfoldable pub claim_digest : Env → ℕ → Db → Result (Option Text) DbError
claim_digest env id db = fetch env (digest_of (find_row id db.rows))

abbrev newer : Row → Option Row → Option Row
newer r none = some r
newer r (some s) =
    if ltb s.updated_at r.updated_at || (r.updated_at == s.updated_at && ltb s.id r.id)
    then some r
    else some s

-- `ORDER BY updated_at DESC, id DESC LIMIT 1`
unfoldable pub newest : List Row → Option Row
newest [] = none
newest (r ∷ rs) = newer r (newest rs)

abbrev settled_other : ℕ → Row → Bool
settled_other id r =
    not (r.id == id) && is_some r.sha256 && is_in (complete ∷ seeding ∷ []) r.status

unfoldable pub prior_observed_digest_by_url : Env → ℕ → Text → Db → Result (Option Text) DbError
prior_observed_digest_by_url env id url db =
    fetch env (digest_of (newest (keep (λ r. text_eq r.url url && settled_other id r) db.rows)))

unfoldable pub prior_observed_digest_by_hash : Env → ℕ → Text → Db → Result (Option Text) DbError
prior_observed_digest_by_hash env id hash db =
    fetch env (digest_of (newest (keep (λ r. text_is hash r.hash && settled_other id r) db.rows)))
