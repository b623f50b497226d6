-- ===== src/Downloads/Transitions.antt =====
-- src/db/downloads_lifecycle.rs: the guarded statements follow the table of transitions, in any order.
pub mod Ops
pub mod Steps
pub mod Cancelled
use zimi_rs.Base.{
  ℕ, ◌+◌, ◌≡◌, refl, ◌⊎◌, inl, inr, Bool, true, false, not, ◌&&◌, ◌||◌, Option, none, some, List,
  [], ◌∷◌, ◌++◌, any, arith, ◌==◌, if◌then◌else◌, Text, Result, ok, err, Bool-cases,
}
use zimi_rs.Downloads.Status.{
  DownloadStatus, queued, downloading, complete, seeding, error, cancelled, is_in,
  can_transition_to,
}
use zimi_rs.Downloads.Table.{
  Row, Db, DbError, unique_violation, pool_timed_out, pool_closed, other_error, Env, update_rows,
  has_clash, statement, commit_unless, execute, insert_row, execute_best_effort, insert_best_effort,
  swallow, find_row,
}

-- The transitions that the statements make: those of the table, and the reinstallation of a
-- complete row, which may begin to seed.
abbrev pub Moves : DownloadStatus → DownloadStatus → Type 0
Moves s t = (s ≡ t) ⊎ (can_transition_to s t ≡ true) ⊎ ((s ≡ complete) × (t ≡ seeding))

-- What a statement may do to a row.
pub record IsStep (r r' : Row) : Type 0 where
  pub same_id : r.id ≡ r'.id
  pub same_name : r.name ≡ r'.name
  pub same_url : r.url ≡ r'.url
  pub moves : Moves r.status r'.status

-- Each row has taken a step, and new rows stand at the end.
abbrev pub Evolved : List Row → List Row → Type 0
Evolved [] added = Unit
Evolved (r ∷ rs) [] = ⊥
Evolved (r ∷ rs) (r' ∷ rs') = IsStep r r' × Evolved rs rs'

pub still : (r : Row) → IsStep r r
still r = record { same_id = refl; same_name = refl; same_url = refl; moves = inl refl }

Evolved-refl : (rs : List Row) → Evolved rs rs
Evolved-refl [] = tt
Evolved-refl (r ∷ rs) = (still r, Evolved-refl rs)

Evolved-append : (rs added : List Row) → Evolved rs (rs ++ added)
Evolved-append [] added = tt
Evolved-append (r ∷ rs) added = (still r, Evolved-append rs added)

module _ (guard : Row → Bool) (change : Row → Row)
    (steps : (r : Row) → guard r ≡ true → IsStep r (change r)) where
  IsStep-if : (r : Row) (b : Bool) → guard r ≡ b → IsStep r (if b then change r else r)
  IsStep-if r true h = steps r h
  IsStep-if r false h = still r

  update_rows-Evolved : (rs : List Row) → Evolved rs (update_rows guard change rs)
  unfolding update_rows
  update_rows-Evolved [] = tt
  update_rows-Evolved (r ∷ rs) = (IsStep-if r (guard r) refl, update_rows-Evolved rs)

statement-Evolved :
    (outage : Option DbError) (db db' : Db) (answer : ℕ)
    → Evolved db.rows db'.rows
    → Evolved db.rows (statement outage db db' answer).0.rows
statement-Evolved (some e) db db' answer h = Evolved-refl db.rows
statement-Evolved none db db' answer h = decided (has_clash db'.rows)
  where
    decided : (b : Bool) → Evolved db.rows (commit_unless b db db' answer).0.rows
    decided true = Evolved-refl db.rows
    decided false = h

swallow-Evolved :
    (rs : List Row) (answer : Db × Result ℕ DbError)
    → Evolved rs answer.0.rows
    → Evolved rs (swallow answer).0.rows
swallow-Evolved rs (db, ok n) h = h
swallow-Evolved rs (db, err pool_timed_out) h = h
swallow-Evolved rs (db, err pool_closed) h = h
swallow-Evolved rs (db, err unique_violation) h = h
swallow-Evolved rs (db, err other_error) h = h

module _ (env : Env) (guard : Row → Bool) (change : Row → Row) (db : Db)
    (steps : (r : Row) → guard r ≡ true → IsStep r (change r)) where
  execute-Evolved : Evolved db.rows (execute env guard change db).0.rows
  unfolding execute
  execute-Evolved =
      statement-Evolved env.outage db (record db { rows = update_rows guard change db.rows }) _
        (update_rows-Evolved guard change steps db.rows)

  execute_best_effort-Evolved : Evolved db.rows (execute_best_effort env guard change db).0.rows
  unfolding execute_best_effort
  execute_best_effort-Evolved =
      swallow-Evolved db.rows (execute env guard change db) execute-Evolved

module _ (env : Env) (new : ℕ → Row) (db : Db) where
  insert_row-Evolved : Evolved db.rows (insert_row env new db).0.rows
  unfolding insert_row
  insert_row-Evolved =
      statement-Evolved env.outage db
        (record { rows = db.rows ++ (new db.next_id ∷ []); next_id = db.next_id + 1 }) _
        (Evolved-append db.rows (new db.next_id ∷ []))

  insert_best_effort-Evolved : Evolved db.rows (insert_best_effort env new db).0.rows
  unfolding insert_best_effort
  insert_best_effort-Evolved = swallow-Evolved db.rows (insert_row env new db) insert_row-Evolved
