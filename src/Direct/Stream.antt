-- ===== src/Direct/Stream.antt =====
-- src/torrent/poller/direct.rs: the stream of a body into the staged `.part` file. The bytes of a file
-- are a list. What the file system, the connection and the database do enters as a `Disk` and in
-- the chunks of a reply.
pub mod Prefix
pub mod Served
pub mod Resumed
pub mod Tests
use mathlib.Core.Option.{get_or}
use zimi_rs.Base.{
  ℕ, ◌+◌, ◌-◌, ◌^◌, min, Bool, true, false, not, ◌&&◌, Option, none, some, List, [], ◌∷◌, ◌++◌,
  ◌==◌, ltb, leb, length, take, if◌then◌else◌, wrap64, Text, Result, ok, err,
}
use zimi_rs.Downloads.Status.{DownloadStatus, cancelled}
use zimi_rs.Direct.Headers.{
  content_range_total, Resume206Decision, append, fallback_fresh, resume_206_decision,
}

abbrev pub Bytes : Type 0
Bytes = List ℕ

-- The staged file, if there is one.
abbrev pub Part : Type 0
Part = Option Bytes

-- A piece of a body or its error; whether it is written; the update of the progress, where its
-- window has passed; and the new status that the check for a cancel finds, where it is due.
pub record Chunk : Type 0 where
  pub bytes : Result Bytes (Unit {0})
  pub writes : Bool
  pub progress : Option Bool
  pub observed : Option DownloadStatus

pub record Reply : Type 0 where
  pub status : ℕ
  pub content_range : Option Text
  pub content_length : Option ℕ
  pub body : List Chunk

-- Which calls of the file system succeed, and how many of the bytes written have left the buffer
-- when the stream ends without a flush.
pub record Disk : Type 0 where
  pub removes : Bool
  pub opens : Bool
  pub unlinks : Bool
  pub flushes : Bool
  pub kept : ℕ

pub data Cause : Type 0 where
  http_status : ℕ → Cause
  over_limit : ℕ → Cause
  exceeds_limit : Cause
  truncated oversized : ℕ → ℕ → Cause

-- A failure that marks the row, and one that leaves the row for a retry.
pub data Failure : Type 0 where
  marked : Cause → Failure
  io : Failure

pub record StreamOutcome : Type 0 where
  pub size : ℕ
  pub total : Option ℕ
  pub was_cancelled : Bool

-- How the file is open, with the declared total and the body.
pub data FileStream : Type 0 where
  append_to : ℕ → Option ℕ → List Chunk → FileStream
  fresh : Option ℕ → List Chunk → FileStream

abbrev pub Opened : Type 0
Opened = Part × Result FileStream Failure

abbrev u64_max : ℕ
u64_max = 2 ^ 64 - 1

abbrev pub saturating_add : ℕ → ℕ → ℕ
saturating_add a b = min (a + b) u64_max

abbrev length_plan : Bytes → Option ℕ
length_plan bytes = if ltb 0 (length bytes) then some (length bytes) else none

unfoldable pub resume_plan : Part → Option ℕ
resume_plan none = none
resume_plan (some bytes) = length_plan bytes

abbrev pub is_success : ℕ → Bool
is_success status = leb 200 status && ltb status 300

abbrev pub capped : ℕ → Option ℕ → Part → Opened → Opened
capped max_bytes none part next = next
capped max_bytes (some t) part next =
    if ltb max_bytes t then (part, err (marked (over_limit t))) else next

module _ (disk : Disk) where
  abbrev pub removed : Part → Part
  removed part = if disk.removes then none else part

  -- `File::create`, which truncates.
  abbrev pub create : Part → FileStream → Opened
  create part fs = if disk.opens then (some [], ok fs) else (part, err io)

  -- `OpenOptions` with `create` and `append`.
  abbrev pub reopen : Part → FileStream → Opened
  reopen part fs = if disk.opens then (some (get_or part []), ok fs) else (part, err io)

  unfoldable pub fresh_fallback : ℕ → Part → Result Reply (Unit {0}) → Opened
  fresh_fallback max_bytes part (err e) = (part, err io)
  fresh_fallback max_bytes part (ok r) =
      if not (is_success r.status)
      then (removed part, err (marked (http_status r.status)))
      else capped max_bytes r.content_length part
          (create (removed part) (fresh r.content_length r.body))

  abbrev append_total : ℕ → Option ℕ → Option ℕ → Option ℕ
  append_total from none none = none
  append_total from none (some l) = some (saturating_add from l)
  append_total from (some full) l = some full

  abbrev open_206 : ℕ → Part → ℕ → Reply → Result Reply (Unit {0}) → Resume206Decision → Opened
  open_206 max_bytes part from r again fallback_fresh = fresh_fallback max_bytes part again
  open_206 max_bytes part from r again append =
      let total = append_total from (content_range_total r.content_range) r.content_length in
      capped max_bytes total part (reopen part (append_to from total r.body))

  abbrev open_416 : ℕ → Part → ℕ → Reply → Result Reply (Unit {0}) → Option ℕ → Opened
  open_416 max_bytes part from r again none = fresh_fallback max_bytes part again
  open_416 max_bytes part from r again (some full) =
      if full == from
      then capped max_bytes (some full) part (reopen part (append_to from (some full) r.body))
      else fresh_fallback max_bytes part again

  abbrev open_plain : ℕ → Part → Reply → Opened
  open_plain max_bytes part r =
      if is_success r.status
      then capped max_bytes r.content_length part (create part (fresh r.content_length r.body))
      else (part, err (marked (http_status r.status)))

  -- The dispatch on the shape of the answer; `again` answers the request without a range.
  unfoldable pub open_stream : ℕ → Part → Option ℕ → Reply → Result Reply (Unit {0}) → Opened
  open_stream max_bytes part none r again = open_plain max_bytes part r
  open_stream max_bytes part (some from) r again =
      if r.status == 206
      then open_206 max_bytes part from r again (resume_206_decision r.content_range from)
      else if r.status == 416
      then open_416 max_bytes part from r again (content_range_total r.content_range)
      else open_plain max_bytes part r

pub data LoopEnd : Type 0 where
  exhausted : LoopEnd
  stopped : DownloadStatus → LoopEnd
  failed : Failure → LoopEnd

-- The bytes received, counting a resumed prefix, those written, and how the loop ended.
abbrev pub Streamed : Type 0
Streamed = ℕ × Bytes × LoopEnd

abbrev pub after_check : (ℕ → Bytes → Streamed) → ℕ → Bytes → Option DownloadStatus → Streamed
after_check next received written none = next received written
after_check next received written (some status) = (received, written, stopped status)

abbrev pub after_progress : (ℕ → Bytes → Streamed) → ℕ → Bytes → Chunk → Option Bool → Streamed
after_progress next received written c none = after_check next received written c.observed
after_progress next received written c (some true) = after_check next received written c.observed
after_progress next received written c (some false) = (received, written, failed io)

abbrev pub after_chunk :
    (ℕ → Bytes → Streamed) → ℕ → ℕ → Bytes → Chunk → Result Bytes (Unit {0}) → Streamed
after_chunk next max_bytes received written c (err e) = (received, written, failed io)
after_chunk next max_bytes received written c (ok bytes) =
    if ltb max_bytes (saturating_add received (length bytes))
    then (received, written, failed (marked exceeds_limit))
    else if not c.writes
    then (received, written ++ bytes, failed io)
    else after_progress next (wrap64 (received + length bytes)) (written ++ bytes) c c.progress

unfoldable pub stream_loop : ℕ → List Chunk → ℕ → Bytes → Streamed
stream_loop max_bytes [] received written = (received, written, exhausted)
stream_loop max_bytes (c ∷ cs) received written =
    after_chunk (λ r w. stream_loop max_bytes cs r w) max_bytes received written c c.bytes

abbrev pub Settled : Type 0
Settled = Part × Result StreamOutcome Failure

abbrev is_cancelled : DownloadStatus → Bool
is_cancelled cancelled = true
is_cancelled status = false

-- The declared total is compared with what was received, unless a cancel was seen.
abbrev compared : Part → Option ℕ → ℕ → Bool → Settled
compared part none received was_cancelled =
    (part, ok (record { size = received; total = none; was_cancelled = was_cancelled }))
compared part (some t) received was_cancelled =
    if not (received == t) && not was_cancelled
    then (
      part,
      err (marked (if ltb received t then truncated received t else oversized received t)),
    )
    else (part, ok (record { size = received; total = some t; was_cancelled = was_cancelled }))

module _ (disk : Disk) where
  abbrev pub cut : Bytes → Bytes → Bytes
  cut start written = start ++ take disk.kept written

  abbrev flushed : Bytes → Bytes → Option ℕ → ℕ → Bool → Bool → Settled
  flushed start written total received was_cancelled unlinked =
      if not disk.flushes
      then (if unlinked then none else some (cut start written), err io)
      else compared (if unlinked then none else some (start ++ written)) total received
          was_cancelled

  -- `observe_cancel` removes the file of a cancelled row.
  unfoldable pub settle : Bytes → Option ℕ → Streamed → Settled
  settle start total (received, written, failed f) = (some (cut start written), err f)
  settle start total (received, written, exhausted) =
      flushed start written total received false false
  settle start total (received, written, stopped status) =
      flushed start written total received (is_cancelled status)
        (is_cancelled status && disk.unlinks)

  unfoldable pub stream_into : ℕ → Opened → Settled
  stream_into max_bytes (part, err f) = (part, err f)
  stream_into max_bytes (part, ok (append_to from total body)) =
      settle (get_or part []) total (stream_loop max_bytes body from [])
  stream_into max_bytes (part, ok (fresh total body)) =
      settle [] total (stream_loop max_bytes body 0 [])

  unfoldable pub stream_part : ℕ → Part → Option ℕ → Reply → Result Reply (Unit {0}) → Settled
  stream_part max_bytes part resume_from r again =
      stream_into max_bytes (open_stream disk max_bytes part resume_from r again)
