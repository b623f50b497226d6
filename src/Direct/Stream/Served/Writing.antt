-- ===== src/Direct/Stream/Served/Writing.antt =====
-- src/torrent/poller/direct.rs, `stream_part`: its loop, and how it settles the file.
use mathlib.Core.Option.{get_or}
use zimi_rs.Base.{
  ℕ, ◌+◌, ◌<◌, ◌^◌, ◌≡◌, refl, ap, inl, inr, Bool, true, false, ◌&&◌, Option, none, some, [], ◌++◌,
  ◌==◌, length, length-append, arith, Result, ok, err, Bool-cases,
}
use zimi_rs.Direct.Stream.{
  Bytes, Part, Reply, Disk, append_to, fresh, Opened, open_stream, Streamed, exhausted, stopped,
  failed, stream_loop, is_cancelled, compared, flushed, settle, stream_into, stream_part,
  resume_plan,
}
use zimi_rs.Direct.Stream.Prefix.{
  IsPrefix, IsPrefix-append, IsPrefix-trans, IsPrefix-length, cut-IsPrefix, payload,
  stream_loop-IsPrefix, stream_loop-Counted, Counted,
}
use zimi_rs.Direct.Stream.Served.{PartOf, Declares, Answers, AnswersAgain, Faithful, Good}
use zimi_rs.Direct.Stream.Served.Opening.{open_stream-Good}

module _ (body : Bytes) where
  compared-Faithful :
      (bytes : Bytes) (total : Option ℕ) (received : ℕ) (c : Bool)
      → IsPrefix bytes body
      → Declares body total
      → received ≡ length bytes
      → Faithful body (compared (some bytes) total received c)
  compared-Faithful bytes none received c h d k = (h, λ e t impossible. cc)
  compared-Faithful bytes (some t) received true h d k = ground arith
  compared-Faithful bytes (some t) received false h d k = elim (Bool-cases (received == t)) [
    | inl same ↦ rw same (h, λ e u f. ap some (IsPrefix-length bytes body h (ground arith)))
    | inr other ↦ rw other h
  ]

  unlinked-Faithful :
      (total : Option ℕ) (received : ℕ) → Faithful body (compared none total received true)
  unlinked-Faithful none received = (tt, λ e t f. cc)
  unlinked-Faithful (some t) received = ground arith

  module _ (disk : Disk) where
    flushed-Faithful :
        (start written : Bytes) (total : Option ℕ) (received : ℕ) (c unlinked : Bool)
        → IsPrefix (start ++ written) body
        → Declares body total
        → received ≡ length (start ++ written)
        → (unlinked ≡ true → c ≡ true)
        → Faithful body (flushed disk start written total received c unlinked)
    flushed-Faithful start written total received c true h d k u = elim (Bool-cases disk.flushes) [
      | inl flushes ↦ rw (flushes, u refl) (unlinked-Faithful total received)
      | inr fails ↦ rw fails tt
    ]
    flushed-Faithful start written total received c false h d k u = elim (Bool-cases disk.flushes) [
      | inl flushes ↦ rw flushes (compared-Faithful (start ++ written) total received c h d k)
      | inr fails ↦ rw fails (cut-IsPrefix disk.kept start written body h)
    ]

    settle-Faithful :
        (start : Bytes) (total : Option ℕ) (from : ℕ) (s : Streamed)
        → IsPrefix (start ++ s.1) body
        → Declares body total
        → from ≡ length start
        → Counted from [] s
        → Faithful body (settle disk start total s)
    unfolding settle
    settle-Faithful start total from (received, written, failed f) h d e k =
        cut-IsPrefix disk.kept start written body h
    settle-Faithful start total from (received, written, exhausted) h d e k =
        flushed-Faithful start written total received false false h d
          (omega (arith, length-append start written)) (λ u. u)
    settle-Faithful start total from (received, written, stopped status) h d e k =
        flushed-Faithful start written total received (is_cancelled status)
          (is_cancelled status && disk.unlinks) h d (omega (arith, length-append start written))
          (λ u. ground arith)

    stream_into-Faithful :
        (max_bytes : ℕ) (o : Opened)
        → max_bytes + 1 < 2 ^ 64
        → Good body o
        → Faithful body (stream_into disk max_bytes o)
    unfolding stream_into
    stream_into-Faithful max_bytes (part, err f) small h = h
    stream_into-Faithful max_bytes (part, ok (append_to from total chunks)) small h =
        let start = get_or part [] in
        let wrote = stream_loop-IsPrefix max_bytes small chunks from [] in
        settle-Faithful start total from (stream_loop max_bytes chunks from [])
          (IsPrefix-trans _ (start ++ payload chunks) body
            (IsPrefix-append start (stream_loop max_bytes chunks from []).1 (payload chunks) wrote)
            h.1)
          h.2 h.0 (stream_loop-Counted max_bytes small chunks from [])
    stream_into-Faithful max_bytes (part, ok (fresh total chunks)) small h =
        settle-Faithful [] total 0 (stream_loop max_bytes chunks 0 [])
          (IsPrefix-trans _ (payload chunks) body (stream_loop-IsPrefix max_bytes small chunks 0 [])
            h.0)
          h.1 refl (stream_loop-Counted max_bytes small chunks 0 [])

    pub stream_part-Faithful :
        (max_bytes : ℕ) (part : Part) (r : Reply) (again : Result Reply (Unit {0}))
        → max_bytes + 1 < 2 ^ 64
        → PartOf body part
        → Answers body (resume_plan part) r
        → AnswersAgain body again
        → Faithful body (stream_part disk max_bytes part (resume_plan part) r again)
    unfolding stream_part
    stream_part-Faithful max_bytes part r again small h answers k =
        stream_into-Faithful max_bytes (open_stream disk max_bytes part (resume_plan part) r again)
          small
          (open_stream-Good body disk max_bytes part (resume_plan part) r again h refl answers k)
