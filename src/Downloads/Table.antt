-- ===== src/Downloads/Table.antt =====
-- The `downloads` table as src/db reads and writes it: a row per download, and the two partial unique
-- indexes of migrations/003 and migrations/011 over the active rows. A real number of the database
-- is its bit pattern. A statement can fail before it takes effect, which the `outage` says.
use zimi_rs.Base.{
  ℕ, ◌+◌, Bool, true, false, ◌&&◌, ◌||◌, Option, none, some, List, [], ◌∷◌, ◌++◌, any, length, keep,
  if◌then◌else◌, Text, text_eq, ◌==◌, Result, ok, err,
}
use zimi_rs.Downloads.Status.{DownloadStatus, queued, downloading, is_in}

pub record Row : Type 0 where
  pub id : ℕ
  pub name : Text
  pub url : Text
  pub hash : Option Text
  pub status : DownloadStatus
  pub progress : ℕ
  pub speed_bps : Option ℕ
  pub file_path : Option Text
  pub error : Option Text
  pub sha256 : Option Text
  pub ratio : Option ℕ
  pub up_speed_bps : Option ℕ
  pub num_seeds : Option ℕ
  pub updated_at : ℕ

pub record Db : Type 0 where
  pub rows : List Row
  pub next_id : ℕ

pub data DbError : Type 0 where
  pool_timed_out pool_closed unique_violation other_error : DbError

-- What a statement meets: the time, and the failure that keeps it from taking effect.
pub record Env : Type 0 where
  pub now : ℕ
  pub outage : Option DbError

abbrev pub active_statuses : List DownloadStatus
active_statuses = queued ∷ downloading ∷ []

abbrev pub is_active : Row → Bool
is_active r = is_in active_statuses r.status

-- Two rows that the indexes do not allow together.
unfoldable pub clash : Row → Row → Bool
clash a b = is_active a && is_active b && (text_eq a.url b.url || text_eq a.name b.name)

unfoldable pub has_clash : List Row → Bool
has_clash [] = false
has_clash (r ∷ rs) = any (clash r) rs || has_clash rs

unfoldable pub update_rows : (Row → Bool) → (Row → Row) → List Row → List Row
update_rows guard change [] = []
update_rows guard change (r ∷ rs) = (if guard r then change r else r) ∷ update_rows guard change rs

-- The indexes refuse a statement whose result they do not allow.
abbrev pub commit_unless : Bool → Db → Db → ℕ → Db × Result ℕ DbError
commit_unless true db db' answer = (db, err unique_violation)
commit_unless false db db' answer = (db', ok answer)

abbrev pub statement : Option DbError → Db → Db → ℕ → Db × Result ℕ DbError
statement (some e) db db' answer = (db, err e)
statement none db db' answer = commit_unless (has_clash db'.rows) db db' answer

-- An UPDATE with its WHERE and SET clauses, and the number of rows that it changed.
unfoldable pub execute : Env → (Row → Bool) → (Row → Row) → Db → Db × Result ℕ DbError
execute env guard change db =
    statement env.outage db (record db { rows = update_rows guard change db.rows })
      (length (keep guard db.rows))

-- An INSERT of the columns that the statement names, and the row's id.
unfoldable pub insert_row : Env → (ℕ → Row) → Db → Db × Result ℕ DbError
insert_row env new db =
    statement env.outage db
      (record { rows = db.rows ++ (new db.next_id ∷ []); next_id = db.next_id + 1 }) db.next_id

abbrev pub swallow : Db × Result ℕ DbError → Db × Result ℕ DbError
swallow (db, ok n) = (db, ok n)
swallow (db, err pool_timed_out) = (db, err pool_timed_out)
swallow (db, err pool_closed) = (db, err pool_closed)
swallow (db, err unique_violation) = (db, ok 0)
swallow (db, err other_error) = (db, ok 0)

unfoldable pub execute_best_effort : Env → (Row → Bool) → (Row → Row) → Db → Db × Result ℕ DbError
unfolding execute
execute_best_effort env guard change db = swallow (execute env guard change db)

unfoldable pub insert_best_effort : Env → (ℕ → Row) → Db → Db × Result ℕ DbError
unfolding insert_row
insert_best_effort env new db = swallow (insert_row env new db)

-- The columns that an INSERT leaves at their defaults.
abbrev pub blank_row : Env → ℕ → Text → Text → DownloadStatus → Row
blank_row env id name url status = record {
  id = id;
  name = name;
  url = url;
  hash = none;
  status = status;
  progress = 0;
  speed_bps = none;
  file_path = none;
  error = none;
  sha256 = none;
  ratio = none;
  up_speed_bps = none;
  num_seeds = none;
  updated_at = env.now;
}

unfoldable pub find_row : ℕ → List Row → Option Row
find_row id [] = none
find_row id (r ∷ rs) = if r.id == id then some r else find_row id rs
