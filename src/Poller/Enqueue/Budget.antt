-- ===== src/Poller/Enqueue/Budget.antt =====
-- src/torrent/poller/mod.rs, `process_queued`: the budget of active downloads.
use zimi_rs.Base.{
  find, Option, ℕ, suc, ◌+◌, ◌≤◌, max, ◌≡◌, refl, false, not, none, some, List, [], ◌∷◌, ◌++◌, ◌==◌,
  if◌then◌else◌, if-rule, arith, Text, Result, ok, err,
}
use zimi_rs.Net.Fetch.{Error}
use zimi_rs.Downloads.Table.{Row, Db, DbError}
use zimi_rs.Downloads.Lifecycle.{claim_direct, mark_downloading, mark_fatal_error}
use zimi_rs.Downloads.Queue.{fetch}
use zimi_rs.Poller.Names.{NameError, is_direct_zim_url, validate_download_name}
use zimi_rs.Poller.Enqueue.{
  Torrent, deleted, removal, is_just_added_candidate, remove_just_added_torrent, noted, Tick,
  Started, spawned, added, removed, left_over, Pass, Passed, active, direct_active, budget_of,
  goes_on, fatal, marked_fatal, start, claimed, direct_row, flipped, torrent_added, torrent_row,
  check_url, checked, process_row, then_rows, process_rows, fresh_pass, with_rows, process_queued,
  queued_rows,
}

-- The downloads that the pass has set going: the tasks, and the torrents that rows follow.
unfoldable pub running : List Started → ℕ
running [] = 0
running (spawned id ∷ s) = suc (running s)
running (added id ∷ s) = suc (running s)
running (removed id ∷ s) = running s
running (left_over id ∷ s) = running s

running-append : (xs ys : List Started) → running (xs ++ ys) ≡ running xs + running ys
unfolding running
running-append [] ys = omega arith
running-append (spawned id ∷ xs) ys = omega (arith, running-append xs ys)
running-append (added id ∷ xs) ys = omega (arith, running-append xs ys)
running-append (removed id ∷ xs) ys = omega (arith, running-append xs ys)
running-append (left_over id ∷ xs) ys = omega (arith, running-append xs ys)

-- The budget pays for each of them.
abbrev Pays : ℕ → Passed → Type 0
Pays n (p, e) = p.budget + running p.started ≡ n

module _ (tick : Tick) (n : ℕ) where
  fatal-Pays : (p : Pass) (r : Db × Result ℕ DbError) → Pays n (p, none) → Pays n (fatal tick p r)
  fatal-Pays p (db, ok k) h = h
  fatal-Pays p (db, err e) h = h

  start-Pays :
      (s : Started) (db : Db) (p : Pass)
      → running (s ∷ []) ≡ 1
      → (p.budget == 0) ≡ false
      → Pays n (p, none)
      → Pays n (start tick s db p, none)
  start-Pays s db p one some_left h = ground (arith, running-append p.started (s ∷ []))

  claimed-Pays :
      (id : ℕ) (p : Pass) (r : Db × Result ℕ DbError)
      → (p.budget == 0) ≡ false
      → Pays n (p, none)
      → Pays n (claimed tick id p r)
  unfolding running
  claimed-Pays id p (db, err e) left h = h
  claimed-Pays id p (db, ok k) left h =
      if-rule (Pays n) (k == 0) (goes_on tick (record p { db = db }))
        (goes_on tick (start tick (spawned id) db p)) (λ _. h)
        (λ _. start-Pays (spawned id) db p refl left h)

  direct-Pays :
      (r : Row) (p : Pass) (v : Result (Unit {0}) NameError)
      → Pays n (p, none)
      → Pays n (direct_row tick r p v)
  direct-Pays r p (err e) h = h
  direct-Pays r p (ok _) h =
      let claim = claim_direct (tick.env r.id) r.id (tick.part_of r.name) p.db in
      if-rule (Pays n) (p.budget == 0) (goes_on tick p) (claimed tick r.id p claim) (λ _. h)
        (λ left. claimed-Pays r.id p claim left h)

  deleted-running : (id : ℕ) (o : Option Torrent) → running (deleted tick id o ∷ []) ≡ 0
  unfolding running
  deleted-running id none = refl
  deleted-running id (some t) =
      if-rule (λ e. running (e ∷ []) ≡ 0) (tick.delete id t.hash) (removed id) (left_over id)
        (λ _. refl) (λ _. refl)

  removed-running :
      (id : ℕ) (name : Text) → running (remove_just_added_torrent tick id name ∷ []) ≡ 0
  unfolding remove_just_added_torrent running
  removed-running id name = by_list (tick.listed id)
    where
      by_list : (o : Option (List Torrent)) → running (removal tick id name o ∷ []) ≡ 0
      by_list none = refl
      by_list (some ts) = deleted-running id (find (is_just_added_candidate tick name) ts)

  noted-Pays :
      (s : Started) (db : Db) (p : Pass) (e : Option DbError)
      → running (s ∷ []) ≡ 0
      → Pays n (p, none)
      → Pays n (noted tick s db p, e)
  noted-Pays s db p e free h = omega (arith, running-append p.started (s ∷ []))

  flipped-Pays :
      (id : ℕ) (name : Text) (p : Pass) (r : Db × Result ℕ DbError)
      → (p.budget == 0) ≡ false
      → Pays n (p, none)
      → Pays n (flipped tick id name p r)
  unfolding running
  flipped-Pays id name p (db, err e) left h = noted-Pays (left_over id) db p (some e) refl h
  flipped-Pays id name p (db, ok k) left h =
      let gone : Started = remove_just_added_torrent tick id name in
      if-rule (Pays n) (k == 0) (goes_on tick (noted tick gone db p))
        (goes_on tick (start tick (added id) db p))
        (λ _. noted-Pays gone db p none (removed-running id name) h)
        (λ _. start-Pays (added id) db p refl left h)

  added-Pays :
      (id : ℕ) (p : Pass) (a : Result Text Text)
      → (p.budget == 0) ≡ false
      → Pays n (p, none)
      → Pays n (torrent_added tick id p a)
  added-Pays id p (err e) left h =
      fatal-Pays p (mark_fatal_error (tick.env id) id tick.message p.db) h
  added-Pays id p (ok name) left h =
      flipped-Pays id name p (mark_downloading (tick.env id) id (tick.between id p.db)) left h

  torrent-Pays : (r : Row) (p : Pass) → Pays n (p, none) → Pays n (torrent_row tick r p)
  torrent-Pays r p h =
      if-rule (Pays n) (not tick.qbit)
        (if not tick.configured then marked_fatal tick r.id p else goes_on tick p)
        (if not tick.available
          then goes_on tick p
          else if p.budget == 0
          then goes_on tick p
          else torrent_added tick r.id p (tick.add r.id))
        (λ _.
          if-rule (Pays n) (not tick.configured) (marked_fatal tick r.id p) (goes_on tick p)
            (λ _. fatal-Pays p (mark_fatal_error (tick.env r.id) r.id tick.message p.db) h)
            (λ _. h))
        (λ _.
          if-rule (Pays n) (not tick.available) (goes_on tick p)
            (if p.budget == 0 then goes_on tick p else torrent_added tick r.id p (tick.add r.id))
            (λ _. h)
            (λ _.
              if-rule (Pays n) (p.budget == 0) (goes_on tick p)
                (torrent_added tick r.id p (tick.add r.id)) (λ _. h)
                (λ left. added-Pays r.id p (tick.add r.id) left h)))

  checked-Pays :
      (r : Row) (p : Pass) (v : Result (Unit {0}) Error)
      → Pays n (p, none)
      → Pays n (checked tick r p v)
  checked-Pays r p (err e) h = h
  checked-Pays r p (ok _) h =
      if-rule (Pays n) (is_direct_zim_url r.url)
        (direct_row tick r p (validate_download_name r.name)) (torrent_row tick r p)
        (λ _. direct-Pays r p (validate_download_name r.name) h) (λ _. torrent-Pays r p h)

  row-Pays : (r : Row) (p : Pass) → Pays n (p, none) → Pays n (process_row tick r p)
  unfolding process_row
  row-Pays r p h =
      checked-Pays r (record p { db = tick.between r.id p.db }) (check_url tick r.url) h

  then-Pays :
      (rest : Pass → Passed) (q : Passed)
      → ((p : Pass) → Pays n (p, none) → Pays n (rest p))
      → Pays n q
      → Pays n (then_rows tick rest q)
  then-Pays rest (p, none) later h = later p h
  then-Pays rest (p, some e) later h = h

  rows-Pays : (rs : List Row) (p : Pass) → Pays n (p, none) → Pays n (process_rows tick rs p)
  unfolding process_rows
  rows-Pays [] p h = h
  rows-Pays (r ∷ rs) p h =
      then-Pays (λ q. process_rows tick rs q) (process_row tick r p) (λ q k. rows-Pays rs q k)
        (row-Pays r p h)

all-Pays :
    (tick : Tick) (db : Db) (r : Result (List Row) DbError)
    → Pays (budget_of tick db) (with_rows tick db r)
unfolding running
all-Pays tick db (err e) = omega arith
all-Pays tick db (ok rs) = rows-Pays tick (budget_of tick db) rs (fresh_pass tick db) (omega arith)

-- A tick does not start more than the settings allow: with what it counted as active before it, the
-- tasks that it spawns and the torrents that it adds and whose rows then follow them are at most
-- `max_active`, or none are started; whatever the rows, the network, qBittorrent and the other tasks do.
-- A torrent whose row is no longer queued once it is added, or cannot be updated, does not count.
pub process_queued-le :
    (tick : Tick) (db : Db)
    → running (process_queued tick db).0.started + (active tick + direct_active tick db)
      ≤ max tick.max_active (active tick + direct_active tick db)
unfolding process_queued
process_queued-le tick db =
    let pays = all-Pays tick db (fetch tick.select_env (queued_rows tick db)) in
    ground (arith, pays)
