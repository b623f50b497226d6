-- ===== src/Direct/Finalize/Idle.antt =====
-- src/db/downloads_lifecycle.rs: after which statements and answers a row is not `downloading`.
use zimi_rs.Base.{
  ℕ, ◌≡◌, refl, sym, ap, subst, ◌∙◌, Bool, true, false, Option, none, some, List, [], ◌∷◌, ◌==◌,
  if◌then◌else◌, arith, text_keys, Text, ok,
}
use zimi_rs.Downloads.Status.{DownloadStatus, downloading, cancelled, same_status}
use zimi_rs.Downloads.Table.{Row, Db, Env, has_clash, update_rows, execute, find_row}
use zimi_rs.Downloads.Lifecycle.{mark_error, open_to_error, to_error, finalize_direct}
use zimi_rs.Downloads.Queue.{status_if_changed, status_checked}
use zimi_rs.Downloads.Unique.{IsQuiet, execute_quiet}
use zimi_rs.Downloads.Transitions.Ops.{run, mark_error_op}
use zimi_rs.Downloads.Unique.Kept.{IsUnique, run-IsUnique}

-- The row is there, and is `downloading`.
abbrev pub is_busy : Option Row → Bool
is_busy none = false
is_busy (some r) = same_status r.status downloading

abbrev pub IsIdle : ℕ → Db → Type 0
IsIdle id db = is_busy (find_row id db.rows) ≡ false

abbrev changed_row : (Row → Bool) → (Row → Row) → Option Row → Option Row
changed_row guard change none = none
changed_row guard change (some r) = some (if guard r then change r else r)

pub find_row-update_rows :
    (guard : Row → Bool) (change : Row → Row) (id : ℕ)
    → ((r : Row) → (change r).id ≡ r.id)
    → (rs : List Row)
    → find_row id (update_rows guard change rs) ≡ changed_row guard change (find_row id rs)
unfolding find_row update_rows
find_row-update_rows guard change id same [] = refl
find_row-update_rows guard change id same (r ∷ rs) =
    ground (arith, same r, find_row-update_rows guard change id same rs)

find_row-id : (id : ℕ) (rs : List Row) (r : Row) → find_row id rs ≡ some r → (r.id == id) ≡ true
unfolding find_row
find_row-id id [] r h = cc
find_row-id id (s ∷ rs) r h = ground (arith, find_row-id id rs r)

module _ (env : Env) (id : ℕ) (db : Db) (up : env.outage ≡ none)
    (unique : has_clash db.rows ≡ false) where
  error-IsQuiet : (msg : Text) → IsQuiet (open_to_error env id) (to_error env msg)
  error-IsQuiet msg = record { name = λ r. refl; url = λ r. refl; active = λ r h k. cc }

  update-IsIdle :
      (guard : Row → Bool) (change : Row → Row)
      → IsQuiet guard change
      → ((r : Row) → (change r).id ≡ r.id)
      → ((r : Row)
          → (r.id == id) ≡ true
          → same_status (if guard r then change r else r).status downloading ≡ false)
      → IsIdle id (execute env guard change db).0
  update-IsIdle guard change quiet same idle =
      subst (λ a. IsIdle id a.0) (sym (execute_quiet guard change quiet env db up unique))
        (ap is_busy (find_row-update_rows guard change id same db.rows)
          ∙ of_row (find_row id db.rows) (λ r h. find_row-id id db.rows r h))
    where
      of_row :
          (o : Option Row)
          → ((r : Row) → o ≡ some r → (r.id == id) ≡ true)
          → is_busy (changed_row guard change o) ≡ false
      of_row none h = refl
      of_row (some r) h = idle r (h r refl)

  pub mark_error-IsIdle : (msg : Text) → IsIdle id (mark_error env id msg db)
  unfolding mark_error
  mark_error-IsIdle msg =
      update-IsIdle (open_to_error env id) (to_error env msg) (error-IsQuiet msg) (λ r. refl)
        (λ r here. ground arith)

  pub finalize_direct-IsIdle :
      (dst : Text) (digest : Option Text) → IsIdle id (finalize_direct env id dst digest db).0
  unfolding finalize_direct
  finalize_direct-IsIdle dst digest =
      update-IsIdle _ _ (record { name = λ r. refl; url = λ r. refl; active = λ r h k. cc })
        (λ r. refl) (λ r here. ground arith)

-- The UPDATE meets no failure, so the task goes on with its count.
pub no_error :
    (env : Env) (id : ℕ) (dst : Text) (digest : Option Text) (db : Db)
    → env.outage ≡ none
    → has_clash db.rows ≡ false
    → (n : ℕ) × ((finalize_direct env id dst digest db).1 ≡ ok n)
unfolding finalize_direct
no_error env id dst digest db up unique = (
  _,
  ap (λ a. a.1)
      (execute_quiet _ _ (record { name = λ r. refl; url = λ r. refl; active = λ r h k. cc }) env db
        up unique),
)

pub status_if_changed-IsIdle :
    (env : Env) (id : ℕ) (db : Db) (s : DownloadStatus)
    → status_if_changed env id downloading db ≡ some s
    → IsIdle id db
unfolding status_if_changed status_checked
status_if_changed-IsIdle env id db s h = ground arith

pub status_checked-IsIdle :
    (env : Env) (id : ℕ) (db : Db) (s : DownloadStatus)
    → status_checked env id db ≡ ok s
    → same_status s cancelled ≡ true
    → IsIdle id db
unfolding status_checked
status_checked-IsIdle env id db s h k = ground arith

pub mark_error-IsUnique :
    (env : Env) (id : ℕ) (msg : Text) (db : Db) → IsUnique db → IsUnique (mark_error env id msg db)
unfolding run
mark_error-IsUnique env id msg db u = run-IsUnique env (mark_error_op id msg) db u
