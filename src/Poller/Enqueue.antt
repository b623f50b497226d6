-- ===== src/Poller/Enqueue.antt =====
-- src/torrent/poller/mod.rs, `process_queued`: which queued rows a tick starts. What qBittorrent answers
-- and what other tasks do to the table between two rows enters as a `Tick`.
pub mod Budget
use zimi_rs.Base.{
  find, ℕ, ◌+◌, ◌-◌, Bool, true, false, not, ◌&&◌, Option, none, some, List, [], ◌∷◌, ◌++◌, ◌==◌,
  any, length, keep, take, is_some, if◌then◌else◌, Text, codes, text_eq, Result, ok, err,
}
use zimi_rs.Net.Fetch.{Web, Error, validate_download_url, assert_host_not_blocked}
use zimi_rs.Downloads.Status.{queued, downloading, is_in}
use zimi_rs.Downloads.Table.{Row, Db, DbError, Env}
use zimi_rs.Downloads.Lifecycle.{
  claim_direct, mark_error, mark_fatal_error, mark_downloading, is_zim_url,
}
use zimi_rs.Downloads.Queue.{fetch}
use zimi_rs.Poller.Names.{is_direct_zim_url, NameError, validate_download_name}

-- What qBittorrent says of a torrent.
pub record Torrent : Type 0 where
  pub hash : Text
  pub name : Text
  pub category : Option Text
  pub state : Text

-- Transferring data, or preparing to.
unfoldable pub is_active_download : Text → Bool
unfolding text_eq
is_active_download state = any (text_eq state) (
    codes "downloading"
    ∷ codes "forcedDL"
    ∷ codes "stalledDL"
    ∷ codes "metaDL"
    ∷ codes "forcedMetaDL"
    ∷ codes "checking"
    ∷ codes "allocating"
    ∷ codes "moving"
    ∷ [])

-- `qbit` is there when the client is connected, `available` when it has answered in this tick. For the
-- row with an id, `add` answers `add_torrent`, `listed` the list that is fetched again when the row is no
-- longer queued, and `delete` whether a torrent could be deleted.
pub record Tick : Type 0 where
  pub web : Web
  pub private : Bool
  pub qbit : Bool
  pub configured : Bool
  pub available : Bool
  pub category : Text
  pub max_active : ℕ
  pub torrents : List Torrent
  pub part_of : Text → Text
  pub add : ℕ → Result Text Text
  pub listed : ℕ → Option (List Torrent)
  pub delete : ℕ → Text → Bool
  -- `to_lowercase`
  pub lower : Text → Text
  pub between : ℕ → Db → Db
  pub env : ℕ → Env
  pub select_env : Env
  pub count_env : Env
  pub message : Text

-- A spawned task, a torrent that its row now follows; and a torrent that was added for a row that does
-- not follow it, which is removed again or left over.
pub data Started : Type 0 where
  spawned added removed left_over : ℕ → Started

pub record Pass : Type 0 where
  pub db : Db
  pub budget : ℕ
  pub started : List Started

-- The pass goes on, or an error ends it.
abbrev pub Passed : Type 0
Passed = Pass × Option DbError

abbrev pub max_queued_per_tick : ℕ
max_queued_per_tick = 50

module _ (tick : Tick) where
  open tick use {web, private, between, env}

  -- Rows come by their ids, the order in which they were inserted.
  abbrev pub queued_rows : Db → List Row
  queued_rows db = take max_queued_per_tick (keep (λ r. is_in (queued ∷ []) r.status) db.rows)

  abbrev is_ours : Option Text → Bool
  is_ours none = false
  is_ours (some c) = text_eq c tick.category

  abbrev pub active : ℕ
  active = length (keep (λ t. is_ours t.category && is_active_download t.state) tick.torrents)

  -- A failed count falls back to 0.
  abbrev counted : Result ℕ DbError → ℕ
  counted (ok n) = n
  counted (err e) = 0

  abbrev is_direct_active : Row → Bool
  is_direct_active r = is_in (downloading ∷ []) r.status && is_zim_url r.url && is_some r.file_path

  abbrev pub direct_active : Db → ℕ
  direct_active db = counted (fetch tick.count_env (length (keep is_direct_active db.rows)))

  abbrev pub budget_of : Db → ℕ
  budget_of db = tick.max_active - (active + direct_active db)

  abbrev pub goes_on : Pass → Passed
  goes_on p = (p, none)

  abbrev pub marked : ℕ → Pass → Passed
  marked id p = goes_on (record p { db = mark_error (env id) id tick.message p.db })

  abbrev pub fatal : Pass → Db × Result ℕ DbError → Passed
  fatal p (db, ok n) = goes_on (record p { db = db })
  fatal p (db, err e) = (record p { db = db }, some e)

  abbrev pub marked_fatal : ℕ → Pass → Passed
  marked_fatal id p = fatal p (mark_fatal_error (env id) id tick.message p.db)

  abbrev pub start : Started → Db → Pass → Pass
  start s db p = record { db = db; budget = p.budget - 1; started = p.started ++ (s ∷ []) }

  abbrev pub claimed : ℕ → Pass → Db × Result ℕ DbError → Passed
  claimed id p (db, err e) = (record p { db = db }, some e)
  claimed id p (db, ok n) =
      if n == 0 then goes_on (record p { db = db }) else goes_on (start (spawned id) db p)

  abbrev pub direct_row : Row → Pass → Result (Unit {0}) NameError → Passed
  direct_row r p (err e) = marked r.id p
  direct_row r p (ok _) =
      if p.budget == 0
      then goes_on p
      else claimed r.id p (claim_direct (env r.id) r.id (tick.part_of r.name) p.db)

  abbrev has_category : Option Text → Bool
  has_category none = text_eq tick.category []
  has_category (some c) = text_eq (tick.lower c) (tick.lower tick.category)

  unfoldable pub is_just_added_candidate : Text → Torrent → Bool
  unfolding text_eq
  is_just_added_candidate wanted t =
      text_eq (tick.lower t.name) (tick.lower wanted) && has_category t.category

  abbrev pub deleted : ℕ → Option Torrent → Started
  deleted id none = left_over id
  deleted id (some t) = if tick.delete id t.hash then removed id else left_over id

  abbrev pub removal : ℕ → Text → Option (List Torrent) → Started
  removal id name none = left_over id
  removal id name (some ts) = deleted id (find (is_just_added_candidate name) ts)

  unfoldable pub remove_just_added_torrent : ℕ → Text → Started
  unfolding is_just_added_candidate
  remove_just_added_torrent id name = removal id name (tick.listed id)

  abbrev pub noted : Started → Db → Pass → Pass
  noted s db p = record p { db = db; started = p.started ++ (s ∷ []) }

  abbrev pub flipped : ℕ → Text → Pass → Db × Result ℕ DbError → Passed
  flipped id name p (db, err e) = (noted (left_over id) db p, some e)
  flipped id name p (db, ok n) =
      if n == 0
      then goes_on (noted (remove_just_added_torrent id name) db p)
      else goes_on (start (added id) db p)

  -- While `add_torrent` runs, other tasks may change the table.
  abbrev pub torrent_added : ℕ → Pass → Result Text Text → Passed
  torrent_added id p (err e) = marked_fatal id p
  torrent_added id p (ok name) = flipped id name p (mark_downloading (env id) id (between id p.db))

  abbrev pub torrent_row : Row → Pass → Passed
  torrent_row r p =
      if not tick.qbit
      then if not tick.configured then marked_fatal r.id p else goes_on p
      else if not tick.available
      then goes_on p
      else if p.budget == 0
      then goes_on p
      else torrent_added r.id p (tick.add r.id)

  abbrev pub check_url : Text → Result (Unit {0}) Error
  check_url url =
      if is_direct_zim_url url
      then validate_download_url web url private
      else assert_host_not_blocked web url private false

  abbrev pub checked : Row → Pass → Result (Unit {0}) Error → Passed
  checked r p (err e) = marked r.id p
  checked r p (ok _) =
      if is_direct_zim_url r.url
      then direct_row r p (validate_download_name r.name)
      else torrent_row r p

  unfoldable pub process_row : Row → Pass → Passed
  process_row r p = let p' = record p { db = between r.id p.db } in checked r p' (check_url r.url)

  abbrev pub then_rows : (Pass → Passed) → Passed → Passed
  then_rows rest (p, none) = rest p
  then_rows rest (p, some e) = (p, some e)

  unfoldable pub process_rows : List Row → Pass → Passed
  process_rows [] p = goes_on p
  process_rows (r ∷ rs) p = then_rows (λ q. process_rows rs q) (process_row r p)

  abbrev pub fresh_pass : Db → Pass
  fresh_pass db = record { db = db; budget = budget_of db; started = [] }

  abbrev pub with_rows : Db → Result (List Row) DbError → Passed
  with_rows db (err e) = (fresh_pass db, some e)
  with_rows db (ok rs) = process_rows rs (fresh_pass db)

  unfoldable pub process_queued : Db → Passed
  process_queued db = with_rows db (fetch tick.select_env (queued_rows db))
