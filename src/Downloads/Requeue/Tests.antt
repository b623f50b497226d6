-- ===== src/Downloads/Requeue/Tests.antt =====
-- Runs of the retry, and the theorems at inputs that meet their hypotheses.
use zimi_rs.Base.{
  ℕ, ◌≤◌, ◌≡◌, refl, Bool, true, false, ◌&&◌, ◌||◌, leb, map, none, some, List, [], ◌∷◌, keep, Text,
  codes, text_eq, split_by, lookup, insert, nat_keys, Result, ok, err, arith,
}
use zimi_rs.Downloads.Status.{queued, error}
use zimi_rs.Downloads.Table.{
  Row, Db, DbError, unique_violation, Env, blank_row, clash, has_clash, update_rows, execute,
}
use zimi_rs.Downloads.Lifecycle.{requeue_stale_errors}
use zimi_rs.Downloads.Requeue.{
  GuardEntry, is_auth_error, should_give_up, sweep_stale_guard_entries, next_count,
  requeue_guard_step, Stale, best_ids, filter_requeue_name_collisions, guard_candidates, Retry,
  stale_rows, active_names, requeue_pass,
}
use zimi_rs.Downloads.Requeue.Retries.{Seen, retries, retries_bounded}
use zimi_rs.Downloads.Requeue.Names.{admitted, filter_requeue_name_collisions_exact}

retry_runs : Unit {0}
unfolding clash has_clash update_rows execute requeue_stale_errors is_auth_error should_give_up
    sweep_stale_guard_entries next_count requeue_guard_step best_ids filter_requeue_name_collisions
    guard_candidates stale_rows active_names requeue_pass retries text_eq split_by lookup insert
retry_runs = tt

abbrev alphanumeric : ℕ → Bool
alphanumeric c = (leb 48 c && leb c 57) || (leb 65 c && leb c 90) || (leb 97 c && leb c 122)

abbrev refused : Text
refused = codes "connection refused"

port_is_no_login : is_auth_error alphanumeric (codes "refused: port 40152") ≡ false
unfolding retry_runs
port_is_no_login = refl

login_expired : is_auth_error alphanumeric (codes "HTTP 403") ≡ true
unfolding retry_runs
login_expired = refl

abbrev persistent : List Seen
persistent = (7, refused, 2) ∷ (8, codes "timeout", 2) ∷ (7, refused, 3) ∷ (7, refused, 4) ∷ []

retried_twice : retries alphanumeric 7 [] ((7, refused, 1) ∷ persistent) ≡ 2
unfolding retry_runs
retried_twice = refl

refused_is_no_login : is_auth_error alphanumeric refused ≡ false
unfolding retry_runs
refused_is_no_login = refl

retries_bounded_example : retries alphanumeric 7 [] ((7, refused, 1) ∷ persistent) ≤ 2
unfolding lookup
retries_bounded_example =
    retries_bounded alphanumeric 7 [] refused 1 persistent refl (omega arith) refused_is_no_login (
      omega arith,
      (λ h. (refl, refused_is_no_login)),
      (
        omega arith,
        (λ h. cc),
        (
          omega arith,
          (λ h. (refl, refused_is_no_login)),
          (omega arith, (λ h. (refl, refused_is_no_login)), tt),
        ),
      ),
    )

abbrev seen_entry : GuardEntry
seen_entry = record { prev_msg = refused; count = 3; last_seen = 9 }

abbrev batch : List Stale
batch = (1, codes "a", refused) ∷ (2, codes "a", refused) ∷ (3, codes "b", refused) ∷ []

newest_of_each :
    filter_requeue_name_collisions batch (codes "b" ∷ []) ≡ (2, codes "a", refused) ∷ []
unfolding retry_runs
newest_of_each = refl

filter_requeue_name_collisions_exact_example :
    filter_requeue_name_collisions batch (codes "b" ∷ [])
    ≡ keep (admitted (codes "b" ∷ []) batch) batch
filter_requeue_name_collisions_exact_example =
    filter_requeue_name_collisions_exact batch (codes "b" ∷ [])

abbrev late : Env
late = record { now = 10_000_000_000; outage = none }

abbrev failed : ℕ → Text → Text → Row
failed id name url = record (blank_row (record { now = 0; outage = none }) id name url error) {
  error = some refused;
}

-- A failed download, its URL queued again under another name, and a failed download beside it.
abbrev same_url : Db
same_url = record {
  rows =
      failed 1 (codes "old") (codes "u")
      ∷ blank_row late 2 (codes "new") (codes "u") queued
      ∷ failed 3 (codes "other") (codes "v")
      ∷ [];
  next_id = 4;
}

abbrev no_retries : Retry
no_retries = record { last_error = []; requeue_passes = 0 }

abbrev pass : Retry → Retry × Db × Result (Unit {0}) DbError
pass retry = requeue_pass alphanumeric (λ msg. true) late late late retry same_url

-- The names differ, so the filter lets both failed rows through, and the index on the URL refuses
-- the whole UPDATE: the pass fails, and neither row is retried.
pass_refused : (pass no_retries).2 ≡ err unique_violation
unfolding retry_runs
pass_refused = refl

-- The refused passes count all the same: on the third the guard gives up on both rows, also on the
-- one whose URL is free, and it was never retried.
pass_given_up : (pass (pass (pass no_retries).0).0).2 ≡ ok tt
unfolding retry_runs
pass_given_up = refl

none_retried :
    map (λ r. r.status) (pass (pass (pass no_retries).0).0).1.rows ≡ error ∷ queued ∷ error ∷ []
unfolding retry_runs
none_retried = refl
