-- ===== src/Direct/Finalize/Settles.antt =====
-- src/torrent/poller/direct.rs, `finalize_direct_download`: which files each outcome leaves.
use zimi_rs.Base.{
  eq_ignore_ascii_case, ℕ, ◌≡◌, ◌≢◌, refl, sym, ◌∙◌, ◌⊎◌, inl, inr, true, false, not, Option, none,
  some, ◌==◌, if◌then◌else◌, arith, lookup, insert, remove, lookup-insert, lookup-remove, beq_refl,
  ◌=?◌, Text, text_keys, Result, ok, err, Bool-cases, if-rule,
}
use zimi_rs.Downloads.Status.{DownloadStatus, downloading}
use zimi_rs.Downloads.Table.{Db, DbError}
use zimi_rs.Downloads.Lifecycle.{finalize_direct}
use zimi_rs.Downloads.Queue.{
  StatusError, status_if_changed, status_checked, claim_digest, find_live_row_owns_path,
}
use zimi_rs.Direct.Stream.{Bytes}
use zimi_rs.Direct.Finalize.{
  World, Site, recheck, read_claim, verify, mark_mismatch, recheck_again, own, mark_owned, rename,
  resync, finish, owned_again, resync_failed, rename_failed, bad_zim, task_failed, changed,
  digest_mismatch, cancelled_before, owned_by, cancelled_late, installed, Finished, Setting,
  remove_file, mark_at, discard_unless, discard_if_unowned, after_update, update_row, resynced,
  renamed, unless_owned, publish, is_cancelled, unless_cancelled, recheck_row, mismatches, verified,
  check_file, unless_changed, finalize_direct_download,
}

-- The digest that the row claims, if it claims one, without regard to case.
abbrev pub Meets : Option Text → Text → Type 0
Meets none digest = Unit
Meets (some c) digest = eq_ignore_ascii_case digest c ≡ true

Meets-of : (c : Option Text) (digest : Text) → mismatches c digest ≡ false → Meets c digest
Meets-of none digest h = tt
Meets-of (some c) digest h = ground arith

module _ (set : Setting) (id : ℕ) (part dst : Text) where
  open set use {between, env}

  -- What the two paths hold.
  abbrev pub Holds : Option Bytes → Option Bytes → World → Type 0
  Holds p d w = (lookup part w.files ≡ p) × (lookup dst w.files ≡ d)

  -- The other tasks leave this download's staged file and its destination alone.
  abbrev pub LeavesFiles : Type 0
  LeavesFiles =
      (s : Site) (w : World)
      → (lookup part (between s w).files ≡ lookup part w.files)
        × (lookup dst (between s w).files ≡ lookup dst w.files)

  abbrev pub Discarded : Option Bytes → Option Bytes → World → Type 0
  Discarded p d w = Holds (if set.removes then none else p) d w

  -- The staged bytes stand at the destination: they are an archive, and those that were claimed.
  abbrev pub Published : Option Text → Option Bytes → World → Type 0
  Published c p w =
      (bytes : Bytes) × (p ≡ some bytes)
      × (set.verify_zim bytes ≡ true)
      × Meets c (set.sha256 bytes)
      × (lookup dst w.files ≡ some bytes)
      × (lookup part w.files ≡ none)

  abbrev pub Left : Option Text → Option Bytes → Option Bytes → Finished → Type 0
  Left c p d (w, ok installed) = Published c p w
  Left c p d (w, ok cancelled_late) = lookup part w.files ≡ none
  Left c p d (w, ok (changed s)) = Discarded p d w
  Left c p d (w, ok digest_mismatch) = Discarded p d w
  Left c p d (w, ok cancelled_before) = Discarded p d w
  Left c p d (w, ok (owned_by other)) = Discarded p d w
  Left c p d (w, err e) = Holds p d w ⊎ Published c p w

  module _ (apart : dst ≢ part) (quiet : LeavesFiles) where
    between-Holds :
        (p d : Option Bytes) (s : Site) (w : World) → Holds p d w → Holds p d (between s w)
    between-Holds p d s w (h, k) = ((quiet s w).0 ∙ h, (quiet s w).1 ∙ k)

    other_path : (part =? dst) ≡ false
    other_path = elim (Bool-cases (part =? dst)) [
      | inl same ↦ absurd (apart (sym ((text_keys.beq_iff part dst).0 same)))
      | inr other ↦ other
    ]

    other_way : (dst =? part) ≡ false
    other_way = elim (Bool-cases (dst =? part)) [
      | inl same ↦ absurd (apart ((text_keys.beq_iff dst part).0 same))
      | inr other ↦ other
    ]

    remove_file-Discarded :
        (p d : Option Bytes) (w : World)
        → Holds p d w
        → Discarded p d (remove_file set id part part w)
    remove_file-Discarded p d w (h, k) = elim (Bool-cases set.removes) [
      | inl removes ↦ rw removes (
        lookup-remove part part w.files ∙ rw (beq_refl part),
        lookup-remove part dst w.files ∙ rw other_path k,
      )
      | inr stays ↦ rw stays (h, k)
    ]

    -- After the rename.
    module _ (c : Option Text) (p d : Option Bytes) where
      between-Published : (s : Site) (w : World) → Published c p w → Published c p (between s w)
      between-Published s w (bytes, staged, zim, claimed, there, gone) =
          (bytes, staged, zim, claimed, (quiet s w).1 ∙ there, (quiet s w).0 ∙ gone)

      discard-gone :
          (w : World) (r : Result (Option ℕ) DbError)
          → lookup part w.files ≡ none
          → lookup part (discard_unless set id part dst r w).files ≡ none
      discard-gone w (ok (some other)) h = h
      discard-gone w (err e) h = h
      discard-gone w (ok none) h = elim (Bool-cases set.removes) [
        | inl removes ↦ rw removes (lookup-remove dst part w.files ∙ ground (arith, h))
        | inr stays ↦ rw stays h
      ]

      after_update-Left :
          (w : World) (r : Db × Result ℕ DbError)
          → Published c p w
          → Left c p d (after_update set id part dst w r)
      unfolding discard_if_unowned
      after_update-Left w (db, err e) h = inr h
      after_update-Left w (db, ok updated) h = elim (Bool-cases (updated == 0)) [
        | inl none_left ↦
            let late = between owned_again (record w { db = db }) in
            rw none_left (
              discard-gone late (find_live_row_owns_path (env owned_again) dst id late.db)
                ((quiet owned_again (record w { db = db })).0 ∙ h.5))
        | inr some_left ↦ rw some_left h
      ]

      resynced-Left :
          (digest : Text) (w : World)
          → Published c p w
          → Left c p d (resynced set id part dst digest w)
      resynced-Left digest w h =
          let w' = between finish w in
          if-rule (Left c p d) set.resyncs (update_row set id part dst digest w')
            (w, err resync_failed)
            (λ _.
              after_update-Left w' (finalize_direct (env finish) id dst (some digest) w'.db)
                (between-Published finish w h))
            (λ _. inr h)

      renamed-Left :
          (w : World) (o : Option Bytes) (bytes : Bytes)
          → p ≡ some bytes
          → set.verify_zim bytes ≡ true
          → Meets c (set.sha256 bytes)
          → o ≡ p
          → Holds p d w
          → Left c p d (renamed set id part dst (set.sha256 bytes) w o)
      renamed-Left w none bytes staged zim claimed same h = inl h
      renamed-Left w (some b) bytes staged zim claimed same h =
          let moved : World = record w { files = insert dst b (remove part w.files) } in
          let there : lookup dst moved.files ≡ some b =
            lookup-insert dst dst b (remove part w.files) ∙ rw (beq_refl dst) in
          let gone : lookup part moved.files ≡ none =
            lookup-insert dst part b (remove part w.files)
            ∙ rw (lookup-remove part part w.files, beq_refl part, other_way) in
          if-rule (Left c p d) set.renames
            (resynced set id part dst (set.sha256 bytes) (between resync moved))
            (w, err rename_failed)
            (λ _. resynced-Left (set.sha256 bytes) (between resync moved) (
              between-Published resync moved
                (bytes, staged, zim, claimed, there ∙ same ∙ staged, gone)))
            (λ _. inl h)

      module _ (bytes : Bytes) (staged : p ≡ some bytes) (zim : set.verify_zim bytes ≡ true)
          (claimed : Meets c (set.sha256 bytes)) where
        unless_owned-Left :
            (w : World) (r : Result (Option ℕ) DbError)
            → Holds p d w
            → Left c p d (unless_owned set id part dst (set.sha256 bytes) w r)
        unless_owned-Left w (err e) h = inl h
        unless_owned-Left w (ok (some other)) h =
            remove_file-Discarded p d (mark_at set id part mark_owned (between mark_owned w))
              (between-Holds p d mark_owned w h)
        unless_owned-Left w (ok none) h =
            let w' = between rename w in
            let h' = between-Holds p d rename w h in
            renamed-Left w' (lookup part w'.files) bytes staged zim claimed h'.0 h'

        unless_cancelled-Left :
            (w : World) (r : Result DownloadStatus StatusError)
            → Holds p d w
            → Left c p d (unless_cancelled set id part (set.sha256 bytes) (some dst) w r)
        unless_cancelled-Left w (err e) h = inl h
        unless_cancelled-Left w (ok status) h =
            let w' = between own w in
            if-rule (Left c p d) (is_cancelled status)
              (remove_file set id part part w, ok cancelled_before)
              (publish set id part (set.sha256 bytes) (some dst) w)
              (λ _. remove_file-Discarded p d w h)
              (λ _.
                unless_owned-Left w' (find_live_row_owns_path (env own) dst id w'.db)
                  (between-Holds p d own w h))

      verified-Left :
          (w : World) (o : Option Bytes)
          → o ≡ p
          → Holds p d w
          → Left c p d (verified set id part c (some dst) w o)
      verified-Left w none same h = inl h
      verified-Left w (some bytes) same h =
          let w' = between recheck_again w in
          if-rule (Left c p d) (mismatches c (set.sha256 bytes))
            (
              remove_file set id part part
                  (mark_at set id part mark_mismatch (between mark_mismatch w)),
              ok digest_mismatch,
            )
            (if not (set.verify_zim bytes)
              then (w, err bad_zim)
              else recheck_row set id part (set.sha256 bytes) (some dst) w')
            (λ _.
              remove_file-Discarded p d
                (mark_at set id part mark_mismatch (between mark_mismatch w))
                (between-Holds p d mark_mismatch w h))
            (λ matched.
              if-rule (Left c p d) (not (set.verify_zim bytes)) (w, err bad_zim)
                (recheck_row set id part (set.sha256 bytes) (some dst) w') (λ _. inl h)
                (λ good.
                  unless_cancelled-Left bytes (sym same) (ground arith)
                    (Meets-of c (set.sha256 bytes) matched) w'
                    (status_checked (env recheck_again) id w'.db)
                    (between-Holds p d recheck_again w h)))

      check_file-Left :
          (w : World) → Holds p d w → Left c p d (check_file set id part (some dst) w (ok c))
      check_file-Left w h =
          let w' = between verify w in
          let h' = between-Holds p d verify w h in
          if-rule (Left c p d) set.joins
            (verified set id part c (some dst) w' (lookup part w'.files)) (w', err task_failed)
            (λ _. verified-Left w' (lookup part w'.files) h'.0 h') (λ _. inl h')

      unless_changed-Left :
          (w : World) (o : Option DownloadStatus)
          → claim_digest (env read_claim) id (between read_claim w).db ≡ ok c
          → Holds p d w
          → Left c p d (unless_changed set id part (some dst) w o)
      unless_changed-Left w (some status) claimed h = remove_file-Discarded p d w h
      unless_changed-Left w none claimed h =
          rw claimed (check_file-Left (between read_claim w) (between-Holds p d read_claim w h))

-- A direct download that ends as installed has put the staged bytes at its destination, they are an
-- archive and have the digest that the row claims; every other end but one leaves the destination as
-- it was, and a discard removes the staged file if the file system lets it; after a cancel that
-- comes last the staged file is gone. An error comes before the rename, and leaves both files, or
-- after it. The other tasks leave the two paths alone, the claim is read, and the paths differ.
pub finalize_direct_download-Left :
    (set : Setting) (id : ℕ) (part dst : Text) (w : World) (c : Option Text)
    → dst ≢ part
    → LeavesFiles set id part dst
    → claim_digest (set.env read_claim) id (set.between read_claim (set.between recheck w)).db
      ≡ ok c
    → Left set id part dst c
        (lookup part w.files)
        (lookup dst w.files)
        (finalize_direct_download set id part (some dst) w)
unfolding finalize_direct_download
finalize_direct_download-Left set id part dst w c apart quiet claimed =
    let w' = set.between recheck w in
    let p = lookup part w.files in
    let d = lookup dst w.files in
    unless_changed-Left set id part dst apart quiet c p d w'
      (status_if_changed (set.env recheck) id downloading w'.db) claimed
      (between-Holds set id part dst apart quiet p d recheck w (refl, refl))
