-- ===== src/Direct/Finalize/Ended.antt =====
-- src/torrent/poller/direct.rs, `finalize_direct_download`: in which state it leaves its row.
use zimi_rs.Base.{
  ℕ, ◌≡◌, refl, not, Option, none, some, ◌==◌, if◌then◌else◌, if-rule, lookup, insert, remove,
  text_keys, Text, Result, ok, err,
}
use zimi_rs.Downloads.Status.{DownloadStatus, downloading}
use zimi_rs.Downloads.Table.{Db, DbError}
use zimi_rs.Downloads.Lifecycle.{finalize_direct}
use zimi_rs.Downloads.Queue.{
  StatusError, status_if_changed, status_checked, claim_digest, find_live_row_owns_path,
}
use zimi_rs.Direct.Finalize.{
  World, Site, recheck, read_claim, verify, mark_mismatch, recheck_again, own, mark_owned, rename,
  resync, finish, owned_again, resync_failed, rename_failed, bad_zim, task_failed, digest_mismatch,
  cancelled_before, cancelled_late, installed, Finished, Setting, remove_file, mark_at,
  discard_unless, discard_if_unowned, after_update, update_row, resynced, renamed, unless_owned,
  publish, is_cancelled, unless_cancelled, recheck_row, mismatches, verified, check_file,
  unless_changed, finalize_direct_download,
}
use zimi_rs.Downloads.Unique.Kept.{IsUnique}
use zimi_rs.Direct.Stream.{Bytes}
use zimi_rs.Direct.Finalize.Idle.{
  IsIdle, mark_error-IsIdle, finalize_direct-IsIdle, no_error, status_if_changed-IsIdle,
  status_checked-IsIdle,
}

module _ (set : Setting) (id : ℕ) (part : Text) where
  open set use {between, env}

  -- The table while a download is finalised: its statements succeed, its indexes hold whatever
  -- other tasks do, and after a late cancel no task takes the row up again.
  pub record IsServed : Type 0 where
    pub unique : (s : Site) (w : World) → IsUnique w.db → IsUnique (between s w).db
    pub mismatch_up : (env mark_mismatch).outage ≡ none
    pub owned_up : (env mark_owned).outage ≡ none
    pub finish_up : (env finish).outage ≡ none
    pub rests : (w : World) → IsIdle id w.db → IsIdle id (between owned_again w).db

  abbrev pub Ends : Finished → Type 0
  Ends (w, ok o) = IsIdle id w.db
  Ends (w, err e) = IsUnique w.db

  module _ (served : IsServed) where
    remove_file-IsIdle :
        (path : Text) (w : World) → IsIdle id w.db → IsIdle id (remove_file set id part path w).db
    remove_file-IsIdle path w h =
        if-rule (λ v. IsIdle id v.db) set.removes (record w { files = remove path w.files }) w
          (λ _. h) (λ _. h)

    marked-IsIdle :
        (s : Site) (w : World)
        → (env s).outage ≡ none
        → IsUnique w.db
        → IsIdle id (mark_at set id part s w).db
    marked-IsIdle s w up u = mark_error-IsIdle (env s) id w.db up u set.message

    discard-IsIdle :
        (dst : Text) (r : Result (Option ℕ) DbError) (w : World)
        → IsIdle id w.db
        → IsIdle id (discard_unless set id part dst r w).db
    discard-IsIdle dst (ok (some other)) w h = h
    discard-IsIdle dst (ok none) w h = remove_file-IsIdle dst w h
    discard-IsIdle dst (err e) w h = h

    after_update-Ends :
        (dst : Text) (w : World) (r : Db × Result ℕ DbError) (n : ℕ)
        → r.1 ≡ ok n
        → IsIdle id r.0
        → Ends (after_update set id part dst w r)
    unfolding discard_if_unowned
    after_update-Ends dst w (db, err e) n h k = cc
    after_update-Ends dst w (db, ok updated) n h k =
        let late = between owned_again (record w { db = db }) in
        if-rule Ends (updated == 0) (discard_if_unowned set id part dst late, ok cancelled_late)
          (record w { db = db }, ok installed)
          (λ _.
            discard-IsIdle dst (find_live_row_owns_path (env owned_again) dst id late.db) late
              (served.rests (record w { db = db }) k))
          (λ _. k)

    resynced-Ends :
        (dst digest : Text) (w : World) → IsUnique w.db → Ends (resynced set id part dst digest w)
    resynced-Ends dst digest w u =
        let w' = between finish w in
        let (n, counted) =
          no_error (env finish) id dst (some digest) w'.db served.finish_up
            (served.unique finish w u) in
        if-rule Ends set.resyncs (update_row set id part dst digest w') (w, err resync_failed)
          (λ _.
            after_update-Ends dst w' (finalize_direct (env finish) id dst (some digest) w'.db) n
              counted
              (finalize_direct-IsIdle (env finish) id w'.db served.finish_up
                (served.unique finish w u) dst (some digest)))
          (λ _. u)

    renamed-Ends :
        (dst digest : Text) (w : World) (o : Option Bytes)
        → IsUnique w.db
        → Ends (renamed set id part dst digest w o)
    renamed-Ends dst digest w none u = u
    renamed-Ends dst digest w (some b) u =
        let moved : World = record w { files = insert dst b (remove part w.files) } in
        if-rule Ends set.renames (resynced set id part dst digest (between resync moved))
          (w, err rename_failed)
          (λ _. resynced-Ends dst digest (between resync moved) (served.unique resync moved u))
          (λ _. u)

    unless_owned-Ends :
        (dst digest : Text) (w : World) (r : Result (Option ℕ) DbError)
        → IsUnique w.db
        → Ends (unless_owned set id part dst digest w r)
    unless_owned-Ends dst digest w (err e) u = u
    unless_owned-Ends dst digest w (ok (some other)) u =
        remove_file-IsIdle part (mark_at set id part mark_owned (between mark_owned w)) (
          marked-IsIdle mark_owned (between mark_owned w) served.owned_up
            (served.unique mark_owned w u))
    unless_owned-Ends dst digest w (ok none) u =
        let w' = between rename w in
        renamed-Ends dst digest w' (lookup part w'.files) (served.unique rename w u)

    publish-Ends :
        (digest : Text) (dst : Option Text) (w : World)
        → IsUnique w.db
        → Ends (publish set id part digest dst w)
    publish-Ends digest none w u = u
    publish-Ends digest (some dst) w u =
        let w' = between own w in
        unless_owned-Ends dst digest w' (find_live_row_owns_path (env own) dst id w'.db)
          (served.unique own w u)

    unless_cancelled-Ends :
        (digest : Text) (dst : Option Text) (w : World) (r : Result DownloadStatus StatusError)
        → status_checked (env recheck_again) id w.db ≡ r
        → IsUnique w.db
        → Ends (unless_cancelled set id part digest dst w r)
    unless_cancelled-Ends digest dst w (err e) h u = u
    unless_cancelled-Ends digest dst w (ok status) h u =
        if-rule Ends (is_cancelled status) (remove_file set id part part w, ok cancelled_before)
          (publish set id part digest dst w)
          (λ k.
            remove_file-IsIdle part w
              (status_checked-IsIdle (env recheck_again) id w.db status h k))
          (λ _. publish-Ends digest dst w u)

    verified-Ends :
        (c dst : Option Text) (w : World) (o : Option Bytes)
        → IsUnique w.db
        → Ends (verified set id part c dst w o)
    verified-Ends c dst w none u = u
    verified-Ends c dst w (some bytes) u =
        let w' = between recheck_again w in
        if-rule Ends (mismatches c (set.sha256 bytes))
          (
            remove_file set id part part
                (mark_at set id part mark_mismatch (between mark_mismatch w)),
            ok digest_mismatch,
          )
          (if not (set.verify_zim bytes)
            then (w, err bad_zim)
            else recheck_row set id part (set.sha256 bytes) dst w')
          (λ _.
            remove_file-IsIdle part (mark_at set id part mark_mismatch (between mark_mismatch w)) (
              marked-IsIdle mark_mismatch (between mark_mismatch w) served.mismatch_up
                (served.unique mark_mismatch w u)))
          (λ _.
            if-rule Ends (not (set.verify_zim bytes)) (w, err bad_zim)
              (recheck_row set id part (set.sha256 bytes) dst w') (λ _. u)
              (λ _.
                unless_cancelled-Ends (set.sha256 bytes) dst w'
                  (status_checked (env recheck_again) id w'.db) refl
                  (served.unique recheck_again w u)))

    check_file-Ends :
        (dst : Option Text) (w : World) (r : Result (Option Text) DbError)
        → IsUnique w.db
        → Ends (check_file set id part dst w r)
    check_file-Ends dst w (err e) u = u
    check_file-Ends dst w (ok c) u =
        let w' = between verify w in
        if-rule Ends set.joins (verified set id part c dst w' (lookup part w'.files))
          (w', err task_failed)
          (λ _. verified-Ends c dst w' (lookup part w'.files) (served.unique verify w u))
          (λ _. served.unique verify w u)

    unless_changed-Ends :
        (dst : Option Text) (w : World) (o : Option DownloadStatus)
        → IsUnique w.db
        → status_if_changed (env recheck) id downloading w.db ≡ o
        → Ends (unless_changed set id part dst w o)
    unless_changed-Ends dst w (some s) u h =
        remove_file-IsIdle part w (status_if_changed-IsIdle (env recheck) id w.db s h)
    unless_changed-Ends dst w none u h =
        let w' = between read_claim w in
        check_file-Ends dst w' (claim_digest (env read_claim) id w'.db)
          (served.unique read_claim w u)

    pub finalize_direct_download-Ends :
        (dst : Option Text) (w : World)
        → IsUnique w.db
        → Ends (finalize_direct_download set id part dst w)
    unfolding finalize_direct_download
    finalize_direct_download-Ends dst w u =
        let w' = between recheck w in
        unless_changed-Ends dst w' (status_if_changed (env recheck) id downloading w'.db)
          (served.unique recheck w u) refl
