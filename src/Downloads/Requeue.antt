-- ===== src/Downloads/Requeue.antt =====
-- src/torrent/poller/requeue.rs and src/torrent/poller/mod.rs: the bounded retry of failed downloads.
-- `is_alphanumeric` is the Unicode predicate of `char`, and `retryable` the regular expression that
-- the query matches an error against.
pub mod Bounded
pub mod Retries
pub mod Names
mod Tests
use zimi_rs.Base.{
  ℕ, ◌+◌, ◌-◌, ◌*◌, Bool, true, false, not, ◌&&◌, ◌||◌, Option, none, some, List, [], ◌∷◌, ◌==◌,
  ltb, leb, max, any, keep, map, length, if◌then◌else◌, wrap32, Text, codes, text_eq, text_keys,
  split_by, lookup, insert, remove, nat_keys, Result, ok, err,
}
use zimi_rs.Downloads.Status.{DownloadStatus, queued, downloading, error, is_in}
use zimi_rs.Downloads.Table.{Row, Db, DbError, Env, is_active}
use zimi_rs.Downloads.Lifecycle.{requeue_stale_errors}
use zimi_rs.Downloads.Queue.{fetch}

abbrev pub requeue_give_up_after : ℕ
requeue_give_up_after = 3

abbrev pub max_last_error_tracked : ℕ
max_last_error_tracked = 10_000

abbrev pub guard_stale_after_passes : ℕ
guard_stale_after_passes = 100

unfoldable pub is_auth_error : (ℕ → Bool) → Text → Bool
is_auth_error is_alphanumeric msg =
    any (λ code. any (text_eq code) (split_by (λ c. not (is_alphanumeric c)) msg))
      (codes "401" ∷ codes "403" ∷ [])

pub record GuardEntry : Type 0 where
  pub prev_msg : Text
  pub count : ℕ
  pub last_seen : ℕ

abbrev pub Guard : Type 0
Guard = List (ℕ × GuardEntry)

-- `should_give_up`, on the entry whose message and count it is given.
unfoldable pub should_give_up : Option GuardEntry → Text → Bool → Bool
should_give_up prev msg true = false
should_give_up none msg false = false
should_give_up (some e) msg false =
    text_eq e.prev_msg msg && leb (requeue_give_up_after - 1) e.count

abbrev pub is_stale : ℕ → ℕ × GuardEntry → Bool
is_stale pass (_, e) = ltb e.last_seen (pass - guard_stale_after_passes)

unfoldable pub sweep_stale_guard_entries : Guard → ℕ → Guard
sweep_stale_guard_entries guard pass = keep (λ e. not (is_stale pass e)) guard

pub data RequeueDecision : Type 0 where
  requeue give_up : RequeueDecision

-- `prev.filter(same message).map_or(1, …)`
unfoldable pub next_count : Option GuardEntry → Text → ℕ
next_count none msg = 1
next_count (some e) msg = if text_eq e.prev_msg msg then wrap32 (e.count + 1) else 1

abbrev pub admit : Guard → ℕ → GuardEntry → Guard
admit guard id entry =
    if ltb (length guard) max_last_error_tracked then insert id entry guard else guard

abbrev pub record_entry : Guard → Option GuardEntry → ℕ → GuardEntry → ℕ → Guard
record_entry guard (some _) id entry pass = insert id entry guard
record_entry guard none id entry pass =
    if leb max_last_error_tracked (length guard)
    then admit (sweep_stale_guard_entries guard pass) id entry
    else insert id entry guard

abbrev pub refresh : Guard → Option GuardEntry → ℕ → ℕ → Guard
refresh guard none id pass = guard
refresh guard (some e) id pass = insert id (record e { last_seen = pass }) guard

abbrev pub decide : Bool → Guard → Option GuardEntry → ℕ → Text → ℕ → Guard × RequeueDecision
decide true guard prev id msg pass = (refresh guard prev id pass, give_up)
decide false guard prev id msg pass = (
  record_entry guard prev id
      (record { prev_msg = msg; count = next_count prev msg; last_seen = pass }) pass,
  requeue,
)

-- `requeue_guard_step`: the guard afterwards, and the decision on the row.
unfoldable pub requeue_guard_step : (ℕ → Bool) → Guard → ℕ → Text → ℕ → Guard × RequeueDecision
requeue_guard_step is_alphanumeric guard id msg pass =
    let prev = lookup id guard in
    decide (should_give_up prev msg (is_auth_error is_alphanumeric msg)) guard prev id msg pass

-- A row of the pass: its id, name and error.
abbrev pub Stale : Type 0
Stale = ℕ × Text × Text

abbrev pub name_of : Stale → Text
name_of (_, name, _) = name

abbrev pub raise : Option ℕ → ℕ → ℕ
raise none id = id
raise (some prev) id = max prev id

-- The loop that fills `best_id`.
unfoldable pub best_ids : List Text → List Stale → List (Text × ℕ) → List (Text × ℕ)
best_ids active_names [] best = best
best_ids active_names ((id, name, _) ∷ stale) best =
    if any (text_eq name) active_names
    then best_ids active_names stale best
    else best_ids active_names stale (insert name (raise (lookup name best) id) best)

abbrev pub is_best : Option ℕ → ℕ → Bool
is_best none id = false
is_best (some best) id = best == id

unfoldable pub filter_requeue_name_collisions : List Stale → List Text → List Stale
filter_requeue_name_collisions stale active_names =
    let best = best_ids active_names stale [] in
    keep (λ r. is_best (lookup (name_of r) best) r.0) stale

abbrev push_if : RequeueDecision → ℕ → List ℕ → List ℕ
push_if requeue id ids = id ∷ ids
push_if give_up id ids = ids

-- The loop over the candidates: the guard afterwards, and the ids to re-queue.
unfoldable pub guard_candidates : (ℕ → Bool) → Guard → List Stale → ℕ → Guard × List ℕ
guard_candidates is_alphanumeric guard [] pass = (guard, [])
guard_candidates is_alphanumeric guard ((id, _, msg) ∷ rest) pass =
    let (guard', decision) = requeue_guard_step is_alphanumeric guard id msg pass in
    let (guard'', ids) = guard_candidates is_alphanumeric guard' rest pass in
    (guard'', push_if decision id ids)

-- What the poller keeps for the guard.
pub record Retry : Type 0 where
  pub last_error : Guard
  pub requeue_passes : ℕ

abbrev ten_minutes : ℕ
ten_minutes = 600 * 1_000_000

abbrev matches : (Text → Bool) → Option Text → Bool
matches retryable none = false
matches retryable (some msg) = retryable msg

abbrev error_text : Option Text → Text
error_text none = []
error_text (some msg) = msg

-- The query for the stale rows; `updated_at` is in microseconds.
unfoldable pub stale_rows : (Text → Bool) → Env → List Row → List Stale
stale_rows retryable env rows =
    map (λ r. (r.id, r.name, error_text r.error))
      (keep
        (λ r.
          is_in (error ∷ []) r.status
          && ltb (r.updated_at + ten_minutes) env.now
          && matches retryable r.error)
        rows)

unfoldable pub active_names : List Row → List Text
active_names rows = map (λ r. r.name) (keep is_active rows)

abbrev pub Pass : Type 0
Pass = Retry × Db × Result (Unit {0}) DbError

abbrev answer_of : Retry → Db × Result ℕ DbError → Pass
answer_of retry (db, ok n) = (retry, db, ok tt)
answer_of retry (db, err e) = (retry, db, err e)

abbrev requeue_ids : Retry → Env → Db → List ℕ → Pass
requeue_ids retry env db ids = answer_of retry (requeue_stale_errors env ids db)

abbrev guarded : (ℕ → Bool) → Retry → Env → Db → List Stale → Pass
guarded is_alphanumeric retry env db [] = (retry, db, ok tt)
guarded is_alphanumeric retry env db (c ∷ candidates) =
    let (guard, ids) =
      guard_candidates is_alphanumeric retry.last_error (c ∷ candidates) retry.requeue_passes in
    requeue_ids (record retry { last_error = guard }) env db ids

abbrev with_names : (ℕ → Bool) → Retry → Env → Db → List Stale → Result (List Text) DbError → Pass
with_names is_alphanumeric retry env db stale (err e) = (retry, db, err e)
with_names is_alphanumeric retry env db stale (ok names) =
    guarded is_alphanumeric retry env db (filter_requeue_name_collisions stale names)

abbrev with_stale : (ℕ → Bool) → Retry → Env → Env → Db → Result (List Stale) DbError → Pass
with_stale is_alphanumeric retry names_env env db (err e) = (retry, db, err e)
with_stale is_alphanumeric retry names_env env db (ok []) = (retry, db, ok tt)
with_stale is_alphanumeric retry names_env env db (ok (s ∷ stale)) =
    with_names is_alphanumeric retry env db (s ∷ stale) (fetch names_env (active_names db.rows))

-- `DownloadPoller::requeue_stale_errors`, with what each of its three statements meets.
unfoldable pub requeue_pass : (ℕ → Bool) → (Text → Bool) → Env → Env → Env → Retry → Db → Pass
requeue_pass is_alphanumeric retryable stale_env names_env env retry db =
    with_stale is_alphanumeric (record retry { requeue_passes = retry.requeue_passes + 1 })
      names_env env db (fetch stale_env (stale_rows retryable stale_env db.rows))
