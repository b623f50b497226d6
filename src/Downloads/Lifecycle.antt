-- ===== src/Downloads/Lifecycle.antt =====
-- src/db/downloads_lifecycle.rs: each guarded UPDATE, by its WHERE clause and what it sets.
use zimi_rs.Base.{
  ℕ, Bool, false, not, ◌&&◌, Option, none, some, List, [], ◌∷◌, ◌++◌, any, map, reverse, ◌==◌,
  if◌then◌else◌, is_some, Text, codes, text_eq, trim_start_by, trim_end_by, split, starts_with,
  to_ascii_lower, Result, ok,
}
use zimi_rs.Downloads.Status.{
  DownloadStatus, queued, downloading, complete, seeding, error, cancelled, is_in,
}
use zimi_rs.Downloads.Table.{
  Row, Db, DbError, Env, execute, execute_best_effort, insert_best_effort, blank_row,
}

-- `1.0` as a 32-bit float.
abbrev pub one_f32 : ℕ
one_f32 = 0x3f80_0000

module _ (id : ℕ) (guard : List DownloadStatus) where
  -- `WHERE id = … AND status IN …`
  abbrev pub with_id : Row → Bool
  with_id r = r.id == id && is_in guard r.status

abbrev pub has_id : ℕ → Row → Bool
has_id id r = r.id == id

abbrev pub fatal_guard_statuses : List DownloadStatus
fatal_guard_statuses = queued ∷ downloading ∷ []

abbrev pub completion_guard_statuses : List DownloadStatus
completion_guard_statuses = downloading ∷ complete ∷ []

abbrev pub settled_statuses : List DownloadStatus
settled_statuses = complete ∷ seeding ∷ []

abbrev first_piece : List Text → Text
first_piece [] = []
first_piece (p ∷ _) = p

-- `lower(trim(split_part(split_part(url, '?', 1), '#', 1))) LIKE '%.zim'`. SQL trims spaces; of
-- the capital letters only the ASCII ones matter to the suffix.
unfoldable pub is_zim_url : Text → Bool
is_zim_url url =
    let path = first_piece (split b'#' (first_piece (split b'?' url))) in
    let trimmed = trim_end_by (λ c. c == b' ') (trim_start_by (λ c. c == b' ') path) in
    starts_with (reverse (codes ".zim")) (reverse (map to_ascii_lower trimmed))

module _ (env : Env) where
  unfoldable pub claim_direct : ℕ → Text → Db → Db × Result ℕ DbError
  claim_direct id part =
      execute env (with_id id (queued ∷ []))
        (λ r. record r { status = downloading; file_path = some part; updated_at = env.now })

  -- `WHERE id = … AND status NOT IN …`
  abbrev pub open_to_error : ℕ → Row → Bool
  open_to_error id r =
      r.id == id && not (is_in (cancelled ∷ complete ∷ seeding ∷ error ∷ []) r.status)

  abbrev pub to_error : Text → Row → Row
  to_error msg r = record r { status = error; error = some msg; updated_at = env.now }

  unfoldable pub mark_error : ℕ → Text → Db → Db
  mark_error id msg db = (execute env (open_to_error id) (to_error msg) db).0

  unfoldable pub mark_fatal_error : ℕ → Text → Db → Db × Result ℕ DbError
  mark_fatal_error id msg = execute_best_effort env (with_id id fatal_guard_statuses) (to_error msg)

  abbrev pub requeue_batch : List ℕ → Db → Db × Result ℕ DbError
  requeue_batch [] db = (db, ok 0)
  requeue_batch (i ∷ ids) db =
      execute env (λ r. any (λ j. r.id == j) (i ∷ ids) && is_in (error ∷ []) r.status)
        (λ r. record r { status = queued; error = none; updated_at = env.now }) db

  unfoldable pub requeue_stale_errors : List ℕ → Db → Db × Result ℕ DbError
  requeue_stale_errors ids = requeue_batch ids

  unfoldable pub finalize_direct : ℕ → Text → Option Text → Db → Db × Result ℕ DbError
  finalize_direct id dst sha256 = execute env (with_id id (downloading ∷ [])) (λ r. record r {
    status = complete;
    progress = one_f32;
    file_path = some dst;
    sha256 = sha256;
    updated_at = env.now;
  })

  unfoldable pub record_observed_digest : ℕ → Text → Db → Db × Result ℕ DbError
  record_observed_digest id sha256 =
      execute env (with_id id settled_statuses)
        (λ r. record r { sha256 = some sha256; updated_at = env.now })

  abbrev settle : DownloadStatus → Text → Option ℕ → Option ℕ → Option ℕ → Row → Row
  settle st dst ratio up_speed_bps num_seeds r = record r {
    status = st;
    progress = one_f32;
    file_path = some dst;
    ratio = ratio;
    up_speed_bps = up_speed_bps;
    num_seeds = num_seeds;
    error = none;
    updated_at = env.now;
  }

  -- The two arms of `mark_complete`: any status but `seeding` settles as `complete`.
  unfoldable pub settle_as : DownloadStatus → Text → Option ℕ → Option ℕ → Option ℕ → Row → Row
  settle_as seeding dst ratio up num = settle seeding dst ratio up num
  settle_as queued dst ratio up num = settle complete dst none none none
  settle_as downloading dst ratio up num = settle complete dst none none none
  settle_as complete dst ratio up num = settle complete dst none none none
  settle_as error dst ratio up num = settle complete dst none none none
  settle_as cancelled dst ratio up num = settle complete dst none none none

  unfoldable pub mark_complete :
      ℕ → Text → DownloadStatus → Option ℕ → Option ℕ → Option ℕ → Db → Db × Result ℕ DbError
  mark_complete id dst new_status ratio up_speed_bps num_seeds =
      execute env (with_id id completion_guard_statuses)
        (settle_as new_status dst ratio up_speed_bps num_seeds)

  unfoldable pub mark_downloading : ℕ → Db → Db × Result ℕ DbError
  mark_downloading id =
      execute_best_effort env (with_id id (queued ∷ []))
        (λ r. record r { status = downloading; updated_at = env.now })

  unfoldable pub bind_hash : ℕ → Text → Db → Db × Result ℕ DbError
  bind_hash id hash =
      execute_best_effort env (has_id id) (λ r. record r { hash = some hash; updated_at = env.now })

  unfoldable pub touch_downloading : ℕ → Db → Db × Result ℕ DbError
  touch_downloading id =
      execute_best_effort env (with_id id (downloading ∷ []))
        (λ r. record r { updated_at = env.now })

  unfoldable pub clear_hash : ℕ → Db → Db
  clear_hash id db =
      (execute env (has_id id) (λ r. record r { hash = none; updated_at = env.now }) db).0

  unfoldable pub drain_cancelled_hashes : Db → Db × Result ℕ DbError
  drain_cancelled_hashes =
      execute env (λ r. is_in (cancelled ∷ []) r.status && is_some r.hash)
        (λ r. record r { hash = none })

  unfoldable pub settle_seeding : ℕ → Option Text → Db → Db × Result ℕ DbError
  settle_seeding id (some msg) =
      execute_best_effort env (with_id id (seeding ∷ []))
        (λ r. record r { status = complete; error = some msg; updated_at = env.now })
  settle_seeding id none =
      execute_best_effort env (with_id id (seeding ∷ []))
        (λ r. record r { status = complete; updated_at = env.now })

  unfoldable pub refresh_seeding_stats : ℕ → ℕ → ℕ → ℕ → ℕ → Db → Db × Result ℕ DbError
  refresh_seeding_stats id ratio up_speed_bps num_seeds speed_bps =
      execute_best_effort env (with_id id (seeding ∷ [])) (λ r. record r {
        ratio = some ratio;
        up_speed_bps = some up_speed_bps;
        num_seeds = some num_seeds;
        speed_bps = some speed_bps;
        updated_at = env.now;
      })

  unfoldable pub refresh_progress : ℕ → ℕ → ℕ → Db → Db × Result ℕ DbError
  refresh_progress id progress speed_bps =
      execute_best_effort env (has_id id)
        (λ r. record r { progress = progress; speed_bps = some speed_bps; updated_at = env.now })

  unfoldable pub retry_interrupted_directs : Db → Db × Result ℕ DbError
  retry_interrupted_directs =
      execute env (λ r. is_in (downloading ∷ []) r.status && is_zim_url r.url)
        (λ r. record r { status = queued; file_path = none; error = none; updated_at = env.now })

  abbrev pub owns_hash : Text → Row → Bool
  owns_hash hash r = elim r.hash [ none ↦ false | some h ↦ text_eq h hash ]

  unfoldable pub adopt_torrent : Text → Text → DownloadStatus → ℕ → Db → Db × Result ℕ DbError
  adopt_torrent name hash status progress db =
      if any (owns_hash hash) db.rows
      then execute_best_effort env (λ r. false) (λ r. r) db
      else insert_best_effort env
          (λ id. record (blank_row env id name (codes "qbt://" ++ hash) status) {
            hash = some hash;
            progress = progress;
          })
          db
