-- ===== src/Direct/Download/Ended.antt =====
-- src/torrent/poller/direct.rs and complete.rs: in which state a task leaves its row.
use zimi_rs.Base.{
  Bool, false, ℕ, ◌≡◌, refl, sym, subst, [], true, Option, none, some, Text, text_keys, Result, ok,
  err, ◌>>=◌, if-rule,
}
use zimi_rs.Net.Fetch.{Error, PinnedResponse, validate_download_url, follow_pinned_get}
use zimi_rs.Downloads.Unique.Kept.{IsUnique}
use zimi_rs.Direct.Stream.{Part, Failure, marked, io, StreamOutcome}
use zimi_rs.Direct.Finalize.{World, Finished, Setting, finalize_direct_download}
use zimi_rs.Direct.Finalize.Idle.{IsIdle, mark_error-IsIdle, mark_error-IsUnique}
use zimi_rs.Direct.Finalize.Ended.{IsServed, Ends, finalize_direct_download-Ends}
use zimi_rs.Direct.Download.{
  Transfer, TaskError, TaskEnd, cancelled_transfer, settled, put_part, finalized, streamed,
  transferred, stream_of, direct_download, with_client, ended, spawn_direct,
}

module _ (t : Transfer) (set : Setting) (id : ℕ) (url part : Text) (dst : Option Text) where
  abbrev TaskEnds : World × Result TaskEnd TaskError → Type 0
  TaskEnds (w, ok cancelled_transfer) = IsIdle id w.db
  TaskEnds (w, ok (settled o)) = IsIdle id w.db
  TaskEnds (w, err e) = IsUnique w.db

  finalized-TaskEnds :
      (f : Finished) → Ends set id part f → TaskEnds (finalized t set id url part dst f)
  finalized-TaskEnds (w, ok o) h = h
  finalized-TaskEnds (w, err e) h = h

  -- A cancel that the stream has seen is still there when the stream has ended.
  abbrev pub SeesTruly : World → Type 0
  SeesTruly w =
      (p : PinnedResponse) (o : StreamOutcome)
      → (follow_pinned_get t.web [] url).0 ≡ ok p
      → (stream_of t set id url part dst w p).1 ≡ ok o
      → o.was_cancelled ≡ true
      → IsIdle id (t.after w).db

  module _ (served : IsServed set id part) where
    streamed-TaskEnds :
        (w : World) (r : Result StreamOutcome Failure)
        → IsUnique w.db
        → ((o : StreamOutcome) → r ≡ ok o → o.was_cancelled ≡ true → IsIdle id w.db)
        → TaskEnds (streamed t set id url part dst w r)
    streamed-TaskEnds w (err (marked c)) u seen = mark_error-IsUnique t.mark_env id t.message w.db u
    streamed-TaskEnds w (err io) u seen = u
    streamed-TaskEnds w (ok o) u seen =
        if-rule TaskEnds o.was_cancelled (w, ok cancelled_transfer)
          (finalized t set id url part dst (finalize_direct_download set id part dst w))
          (λ k. seen o refl k)
          (λ _.
            finalized-TaskEnds (finalize_direct_download set id part dst w)
              (finalize_direct_download-Ends set id part served dst w u))

    put_part-db : (q : Part) (w : World) → (put_part t set id url part dst q w).db ≡ w.db
    put_part-db none w = refl
    put_part-db (some bytes) w = refl

    module _ (w : World) (u : IsUnique w.db) (later : IsUnique (t.after w).db) where
      transferred-TaskEnds :
          SeesTruly w
          → (valid : Result (Unit {0}) Error) (r : Result PinnedResponse Error)
          → (follow_pinned_get t.web [] url).0 ≡ r
          → TaskEnds (transferred t set id url part dst w (valid >>= λ _. r))
      transferred-TaskEnds seen (err e) r h = u
      transferred-TaskEnds seen (ok _) (err e) h = u
      transferred-TaskEnds seen (ok _) (ok p) h =
          let (part', r) = stream_of t set id url part dst w p in
          let same = put_part-db part' (t.after w) in
          streamed-TaskEnds (put_part t set id url part dst part' (t.after w)) r
            (subst IsUnique (sym same) later)
            (λ o e k. subst (IsIdle id) (sym same) (seen p o h e k))

      task-TaskEnds : SeesTruly w → TaskEnds (direct_download t set id url part dst w)
      unfolding direct_download
      task-TaskEnds seen =
          transferred-TaskEnds seen (validate_download_url t.web url t.private)
            (follow_pinned_get t.web [] url).0 refl

      client-TaskEnds : (b : Bool) → SeesTruly w → TaskEnds (with_client t set id url part dst b w)
      client-TaskEnds true seen = task-TaskEnds seen
      client-TaskEnds false seen = u

  ended-IsIdle :
      (r : World × Result TaskEnd TaskError)
      → t.last_env.outage ≡ none
      → TaskEnds r
      → IsIdle id (ended t set id url part dst r).0.db
  ended-IsIdle (w, ok cancelled_transfer) up h = h
  ended-IsIdle (w, ok (settled o)) up h = h
  ended-IsIdle (w, err e) up h = mark_error-IsIdle t.last_env id w.db up h t.message

-- However a direct download ends, by a missing client, the network, the disk, the database or a cancel, its row is not
-- left `downloading`, so that it keeps no place in the budget of active downloads; the statements that settle or
-- mark the row succeed, the indexes of the table hold, no task takes the row up again after a cancel
-- that comes last, and a cancel that the stream has seen is still there at its end.
pub spawn_direct-IsIdle :
    (t : Transfer) (set : Setting) (id : ℕ) (url part : Text) (dst : Option Text) (w : World)
    → IsServed set id part
    → IsUnique w.db
    → IsUnique (t.after w).db
    → t.last_env.outage ≡ none
    → SeesTruly t set id url part dst w
    → IsIdle id (spawn_direct t set id url part dst w).0.db
unfolding spawn_direct
spawn_direct-IsIdle t set id url part dst w served unique later up seen =
    ended-IsIdle t set id url part dst (with_client t set id url part dst t.has_client w) up
      (client-TaskEnds t set id url part dst served w unique later t.has_client seen)
