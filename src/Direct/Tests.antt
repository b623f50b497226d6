-- ===== src/Direct/Tests.antt =====
-- Runs of the task of a direct download, and the theorems at inputs that meet their hypotheses.
use zimi_rs.Base.{
  ◌≡◌, ◌≢◌, refl, sym, ap, subst, ◌∙◌, Bool, true, false, none, some, [], ◌∷◌, lookup, insert,
  remove, Text, codes, text_eq, eq_ignore_ascii_case, Result, ok, err, trim_start_by, trim_end_by,
  text_keys,
}
use zimi_rs.Downloads.Status.{downloading}
use zimi_rs.Direct.Stream.{StreamOutcome, Failure}
use zimi_rs.Net.Ip.{ip4}
use zimi_rs.Net.Blocked.{is_blocked_ip, is_blocked_v4}
use zimi_rs.Net.Fetch.{
  Web, PinnedResponse, follow_pinned_get, follow_from, prepare, pin_for_hop, resolve_download_host,
  validate_download_url, assert_host_not_blocked, redirect_step,
}
use zimi_rs.Downloads.Table.{Row, Env, blank_row, execute, update_rows, has_clash, clash, find_row}
use zimi_rs.Downloads.Lifecycle.{mark_error, finalize_direct}
use zimi_rs.Downloads.Queue.{
  status_if_changed, status_checked, claim_digest, find_live_row_owns_path,
}
use zimi_rs.Direct.Finalize.{
  World, Setting, installed, finalize_direct_download, discard_if_unowned,
}
use zimi_rs.Direct.Finalize.Settles.{Left, finalize_direct_download-Left}
use zimi_rs.Direct.Finalize.Idle.{IsIdle}
use zimi_rs.Direct.Finalize.Ended.{IsServed}
use zimi_rs.Direct.Download.{Transfer, settled, stream_of, spawn_direct, direct_download}
use zimi_rs.Direct.Download.Ended.{SeesTruly, spawn_direct-IsIdle}
use zimi_rs.Direct.Stream.Tests.{source, good_disk, stream_runs}

abbrev wiki_url : Text
wiki_url = codes "https://m/wiki.zim"

abbrev calm : Env
calm = record { now = 100; outage = none }

abbrev quiet_setting : Setting
quiet_setting = record {
  between = λ s w. w;
  env = λ s. calm;
  sha256 = λ bytes. codes "ab";
  verify_zim = λ bytes. true;
  joins = true;
  removes = true;
  renames = true;
  resyncs = true;
  message = codes "failed";
}

abbrev staged_at : Text
staged_at = codes "z/wiki.part"

abbrev installed_at : Text
installed_at = codes "z/wiki.zim"

abbrev claimed_row : Row
claimed_row = record (blank_row calm 1 (codes "wiki") wiki_url downloading) {
  sha256 = some (codes "AB");
}

abbrev claimed_world : World
claimed_world = record {
  db = record { rows = claimed_row ∷ []; next_id = 2 };
  files = (staged_at, source) ∷ [];
}

apart : installed_at ≢ staged_at
apart h = cc

finalize_runs : Unit {0}
unfolding finalize_direct_download discard_if_unowned status_if_changed status_checked claim_digest
    find_live_row_owns_path mark_error finalize_direct execute update_rows has_clash clash find_row
    lookup insert remove text_eq eq_ignore_ascii_case
finalize_runs = tt

task_runs : Unit {0}
unfolding spawn_direct direct_download finalize_runs stream_runs follow_pinned_get follow_from
    prepare pin_for_hop resolve_download_host validate_download_url assert_host_not_blocked
    redirect_step is_blocked_ip is_blocked_v4 trim_start_by trim_end_by
task_runs = tt

-- The digests are compared without regard to case, and the archive is installed.
wiki_installed :
    (finalize_direct_download quiet_setting 1 staged_at (some installed_at) claimed_world).1
    ≡ ok installed
unfolding finalize_runs
wiki_installed = refl

finalize_direct_download-Left_example :
    Left quiet_setting 1 staged_at installed_at
      (some (codes "AB"))
      (some source)
      none
      (finalize_direct_download quiet_setting 1 staged_at (some installed_at) claimed_world)
unfolding finalize_runs
finalize_direct_download-Left_example =
    finalize_direct_download-Left quiet_setting 1 staged_at installed_at claimed_world
      (some (codes "AB")) apart (λ s w. (refl, refl)) refl

abbrev small_web : Web
small_web = record {
  parse = λ u.
      some (record { scheme = codes "https"; host_str = some (codes "m"); known_port = some 443 });
  join = λ base l. none;
  parse_ip = λ s. none;
  lookup_host = λ n host port. ok (ip4 8 8 8 8 ∷ []);
  build_client = λ n pin. ok tt;
  send = λ n pin u. ok (record { status = 416; location = none });
  allow_private = λ n. false;
}

abbrev transfer_of : Transfer
transfer_of = record {
  has_client = true;
  web = small_web;
  private = false;
  max_bytes = 100;
  reply_of = λ p. record {
    status = 416;
    content_range = some (codes "bytes */4");
    content_length = some 0;
    body = [];
  };
  again = err tt;
  disk = good_disk;
  after = λ w. w;
  mark_env = calm;
  last_env = calm;
  message = codes "failed";
}

served_example : IsServed quiet_setting 1 staged_at
served_example = record {
  unique = λ s w u. u;
  mismatch_up = refl;
  owned_up = refl;
  finish_up = refl;
  rests = λ w h. h;
}

-- The staged file is complete already: the transfer brings nothing, and the archive is installed.
complete_before :
    (spawn_direct transfer_of quiet_setting 1 wiki_url staged_at
      (some installed_at)
      claimed_world).1
    ≡ ok (settled installed)
unfolding task_runs
complete_before = refl

abbrev last_page : PinnedResponse
last_page = record {
  url = wiki_url;
  client = some (codes "m", ip4 8 8 8 8);
  response = record { status = 416; location = none };
}

abbrev saw_cancel : Result StreamOutcome Failure → Bool
saw_cancel (ok o) = o.was_cancelled
saw_cancel (err f) = false

never_cancelled :
    SeesTruly transfer_of quiet_setting 1 wiki_url staged_at (some installed_at) claimed_world
unfolding task_runs
never_cancelled p o chain e k =
    let same : last_page ≡ p = cc in
    let result =
      subst
        (λ q.
          (stream_of transfer_of quiet_setting 1 wiki_url staged_at (some installed_at)
            claimed_world q).1
          ≡ ok o)
        (sym same) e in
    sym (ap saw_cancel result ∙ k)

spawn_direct-IsIdle_example :
    IsIdle 1
      (spawn_direct transfer_of quiet_setting 1 wiki_url staged_at
        (some installed_at)
        claimed_world).0.db
unfolding task_runs
spawn_direct-IsIdle_example =
    spawn_direct-IsIdle transfer_of quiet_setting 1 wiki_url staged_at (some installed_at)
      claimed_world served_example refl refl refl never_cancelled
