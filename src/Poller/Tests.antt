-- ===== src/Poller/Tests.antt =====
-- Runs of the enqueuing pass, and the theorems at inputs that meet their hypotheses.
use zimi_rs.Base.{
  map, ℕ, ◌≡◌, refl, ◌+◌, ◌≤◌, max, true, false, none, some, [], ◌∷◌, Text, codes, text_eq,
  contains, ok, err, starts_with, split_by, eq_ignore_ascii_case, trim, trim_start_by, trim_end_by,
  to_ascii_lower, is_whitespace,
}
use zimi_rs.Net.Ip.{ip4}
use zimi_rs.Net.Blocked.{is_blocked_ip, is_blocked_v4}
use zimi_rs.Net.Fetch.{Web, validate_download_url, assert_host_not_blocked}
use zimi_rs.Downloads.Status.{queued}
use zimi_rs.Downloads.Table.{
  Row, Db, Env, blank_row, execute, execute_best_effort, update_rows, has_clash, clash, find_row,
}
use zimi_rs.Downloads.Lifecycle.{claim_direct, mark_downloading, mark_error, mark_fatal_error}
use zimi_rs.Downloads.Queue.{cancel_download}
use zimi_rs.Content.Utf8.{byte_len}
use zimi_rs.Poller.Names.{
  strip_query_fragment, is_direct_zim_url, holds_text, validate_trimmed, validate_download_name,
  separator, dot_dot, leading_dot, empty_name,
}
use zimi_rs.Poller.Names.Safe.{validate_download_name-free}
use zimi_rs.Poller.Enqueue.{
  Tick, Torrent, spawned, added, removed, left_over, is_active_download, is_just_added_candidate,
  remove_just_added_torrent, active, direct_active, process_row, process_rows, process_queued,
}
use zimi_rs.Poller.Enqueue.Budget.{running, process_queued-le}

names_run : Unit {0}
unfolding strip_query_fragment is_direct_zim_url holds_text validate_trimmed validate_download_name
    starts_with split_by trim trim_start_by trim_end_by to_ascii_lower is_whitespace contains
    text_eq byte_len
names_run = tt

direct_link : is_direct_zim_url (codes " https://e.org/A.ZIM?x=1#y ") ≡ true
unfolding names_run
direct_link = refl

torrent_link : is_direct_zim_url (codes "https://e.org/a.zim.torrent") ≡ false
unfolding names_run
torrent_link = refl

climbing_name : validate_download_name (codes "a..b") ≡ err dot_dot
unfolding names_run
climbing_name = refl

nested_name : validate_download_name (codes "a/b") ≡ err separator
unfolding names_run
nested_name = refl

hidden_name : validate_download_name (codes " .zim") ≡ err leading_dot
unfolding names_run
hidden_name = refl

blank_name : validate_download_name (codes "  ") ≡ err empty_name
unfolding names_run
blank_name = refl

abbrev wiki : Text
wiki = codes " wiki_2024-06 "

wiki_passes : validate_download_name wiki ≡ ok tt
unfolding names_run
wiki_passes = refl

validate_download_name-free_example :
    (contains b'/' wiki ≡ false) × (contains b'\\' wiki ≡ false) × (contains 0 wiki ≡ false)
validate_download_name-free_example = validate_download_name-free wiki wiki_passes

abbrev small_web : Web
small_web = record {
  parse = λ u.
      some (record { scheme = codes "https"; host_str = some (codes "m"); known_port = some 443 });
  join = λ base l. none;
  parse_ip = λ s. none;
  lookup_host = λ n host port. ok (ip4 8 8 8 8 ∷ []);
  build_client = λ n pin. ok tt;
  send = λ n pin u. ok (record { status = 416; location = none });
  allow_private = λ n. false;
}

abbrev at_one : Env
at_one = record { now = 1; outage = none }

abbrev seeding : Torrent
seeding = record {
  hash = codes "h";
  name = codes "C";
  category = some (codes "zimi");
  state = codes "uploading";
}

abbrev moving : Torrent
moving = record {
  hash = codes "h";
  name = codes "C";
  category = some (codes "zimi");
  state = codes "moving";
}

abbrev waiting : ℕ → Text → Text → Row
waiting id name url = blank_row at_one id name url queued

abbrev small_db : Db
small_db = record {
  rows =
      waiting 1 (codes "a") (codes "https://e.org/a.zim")
      ∷ waiting 2 (codes "b/c") (codes "https://e.org/b.zim")
      ∷ waiting 3 (codes "c") (codes "magnet:c")
      ∷ waiting 4 (codes "d") (codes "https://e.org/d.zim")
      ∷ [];
  next_id = 5;
}

-- Three downloads may be active, and one is.
abbrev small_tick : Tick
small_tick = record {
  web = small_web;
  private = false;
  qbit = true;
  configured = true;
  available = true;
  category = codes "zimi";
  max_active = 3;
  torrents = seeding ∷ moving ∷ [];
  part_of = λ name. name;
  add = λ id. ok (codes "c");
  listed = λ id. some (seeding ∷ []);
  delete = λ id h. true;
  lower = map to_ascii_lower;
  between = λ id db. db;
  env = λ id. at_one;
  select_env = at_one;
  count_env = at_one;
  message = codes "refused";
}

pass_runs : Unit {0}
unfolding names_run is_active_download is_just_added_candidate remove_just_added_torrent
    validate_download_url assert_host_not_blocked is_blocked_ip is_blocked_v4 execute
    execute_best_effort eq_ignore_ascii_case update_rows has_clash clash find_row claim_direct
    mark_downloading mark_error mark_fatal_error process_row process_rows process_queued running
pass_runs = tt

-- The first row and the torrent start, the second has a bad name, and the last waits.
two_started : (process_queued small_tick small_db).0.started ≡ spawned 1 ∷ added 3 ∷ []
unfolding pass_runs
two_started = refl

-- A cancel of the third row while its torrent is added: the torrent is removed, or is left over when
-- qBittorrent does not delete it.
abbrev cancelling : Tick
cancelling = record small_tick { between = λ id db. (cancel_download at_one at_one id db).0 }

removed_again : (process_queued cancelling small_db).0.started ≡ removed 3 ∷ []
unfolding pass_runs cancel_download
removed_again = refl

stays_behind :
    (process_queued (record cancelling { delete = λ id h. false }) small_db).0.started
    ≡ left_over 3 ∷ []
unfolding pass_runs cancel_download
stays_behind = refl

process_queued-le_example :
    running (process_queued small_tick small_db).0.started
      + (active small_tick + direct_active small_tick small_db)
    ≤ max 3 (active small_tick + direct_active small_tick small_db)
process_queued-le_example = process_queued-le small_tick small_db
