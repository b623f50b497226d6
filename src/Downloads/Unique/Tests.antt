-- ===== src/Downloads/Unique/Tests.antt =====
-- Runs of the table, and the theorems at inputs that meet their hypotheses.
use zimi_rs.Base.{
  ◌+◌, ◌≡◌, refl, true, ◌||◌, Option, none, some, List, [], ◌∷◌, ◌++◌, any, keep, length,
  if◌then◌else◌, Text, codes, text_eq, ok, split, trim_start_by, trim_end_by, starts_with,
  to_ascii_lower,
}
use zimi_rs.Downloads.Status.{
  DownloadStatus, queued, complete, seeding, cancelled, parse_status, as_str, parse_status-as_str,
}
use zimi_rs.Downloads.Table.{
  Row, Db, Env, blank_row, clash, has_clash, update_rows, execute, execute_best_effort, insert_row,
  find_row,
}
use zimi_rs.Downloads.Lifecycle.{
  claim_direct, mark_error, mark_complete, settle_as, with_id, is_zim_url, finalize_direct,
}
use zimi_rs.Downloads.Queue.{
  inserted, duplicate, holds, insert_download, cancel_download, not_cancellable,
}
use zimi_rs.Downloads.Transitions.{Evolved}
use zimi_rs.Downloads.Transitions.Ops.{
  Op, run, claim_direct_op, cancel_download_op, finalize_direct_op, mark_error_op,
}
use zimi_rs.Downloads.Transitions.Steps.{run-Evolved}
use zimi_rs.Downloads.Transitions.Cancelled.{run_all, run_all-cancelled}
use zimi_rs.Downloads.Unique.Outcomes.{claim_direct_once, insert_download_race}
use zimi_rs.Downloads.Unique.Cancel.{has_twin, cancel_answer, cancel_download_exact}

table_runs : Unit {0}
unfolding clash has_clash update_rows execute execute_best_effort insert_row find_row text_eq
    claim_direct mark_error mark_complete settle_as finalize_direct insert_download cancel_download
    run run_all
table_runs = tt

abbrev calm : Env
calm = record { now = 100; outage = none }

abbrev wiki : Text
wiki = codes "wiki"

abbrev wiki_url : Text
wiki_url = codes "https://m/wiki.zim"

abbrev one_queued : Db
one_queued = record { rows = blank_row calm 1 wiki wiki_url queued ∷ []; next_id = 2 }

abbrev one_cancelled : Db
one_cancelled = record { rows = blank_row calm 1 wiki wiki_url cancelled ∷ []; next_id = 2 }

-- A cancel that comes between the claim and the end of a direct download wins.
abbrev cancel_race : List (Env × Op)
cancel_race =
    (calm, claim_direct_op 1 (codes "wiki.part"))
    ∷ (calm, cancel_download_op calm 1)
    ∷ (calm, finalize_direct_op 1 (codes "wiki.zim") none)
    ∷ (calm, mark_error_op 1 (codes "late"))
    ∷ []

abbrev status_in : Option Row → DownloadStatus
status_in none = queued
status_in (some r) = r.status

cancel_wins : status_in (find_row 1 (run_all cancel_race one_queued).rows) ≡ cancelled
unfolding table_runs
cancel_wins = refl

-- A complete row that is reinstalled may begin to seed, which the table of transitions denies.
reinstalled_seeds :
    status_in (
      find_row 1
        (mark_complete calm 1 wiki seeding none none none
          (record { rows = blank_row calm 1 wiki wiki_url complete ∷ []; next_id = 2 })).0.rows)
    ≡ seeding
unfolding table_runs
reinstalled_seeds = refl

run-Evolved_example :
    Evolved one_queued.rows (run calm (claim_direct_op 1 (codes "wiki.part")) one_queued).rows
run-Evolved_example = run-Evolved calm (claim_direct_op 1 (codes "wiki.part")) one_queued

run_all-cancelled_example :
    (r' : Row) × (find_row 1 (run_all cancel_race one_cancelled).rows ≡ some r')
    × (r'.status ≡ cancelled)
    × (r'.name ≡ wiki)
    × (r'.url ≡ wiki_url)
unfolding find_row
run_all-cancelled_example =
    run_all-cancelled cancel_race one_cancelled 1 (blank_row calm 1 wiki wiki_url cancelled) refl
      refl

claim_direct_once_example :
    ((claim_direct calm 1 (codes "a") one_queued).1
      ≡ ok (length (keep (with_id 1 (queued ∷ [])) one_queued.rows)))
    × ((claim_direct calm 1 (codes "b") (claim_direct calm 1 (codes "a") one_queued).0).1 ≡ ok 0)
unfolding has_clash
claim_direct_once_example =
    claim_direct_once calm calm 1 (codes "a") (codes "b") one_queued refl refl refl

insert_download_race_example :
    insert_download calm calm wiki
      (codes "https://n/wiki.zim")
      (record { rows = []; next_id = 1 })
      one_queued
    ≡ (if any (holds wiki (codes "https://n/wiki.zim")) []
          || any (holds wiki (codes "https://n/wiki.zim")) one_queued.rows
        then (one_queued, ok duplicate)
        else (
          record {
            rows =
                one_queued.rows ++ (blank_row calm 2 wiki (codes "https://n/wiki.zim") queued ∷ []);
            next_id = 2 + 1;
          },
          ok (inserted 2),
        ))
unfolding has_clash
insert_download_race_example =
    insert_download_race calm calm wiki (codes "https://n/wiki.zim")
      (record { rows = []; next_id = 1 }) one_queued refl refl refl

-- SQL trims the path after it has cut the query off, the service before.
sql_direct : is_zim_url (codes "https://m/a.zim ?x") ≡ true
unfolding is_zim_url split trim_start_by trim_end_by starts_with to_ascii_lower
sql_direct = refl

seeding_read : parse_status (as_str seeding) ≡ some seeding
seeding_read = parse_status-as_str seeding

-- A complete download cannot be cancelled.
abbrev one_complete : Db
one_complete = record { rows = blank_row calm 1 wiki wiki_url complete ∷ []; next_id = 2 }

complete_stays :
    cancel_download calm calm 1 one_complete ≡ (one_complete, ok (not_cancellable complete))
unfolding table_runs
complete_stays = refl

cancel_download_exact_example :
    cancel_download calm calm 1 one_queued
    ≡ cancel_answer calm 1 one_queued (find_row 1 one_queued.rows)
unfolding table_runs has_twin
cancel_download_exact_example = cancel_download_exact calm calm 1 one_queued refl refl refl refl
