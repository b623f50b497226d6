-- ===== src/Direct/Stream/Served.antt =====
-- src/torrent/poller/direct.rs: what a download leaves on disk, when the servers give the bytes of one
-- source.
pub mod Opening
pub mod Writing
use mathlib.Core.Option.{get_or}
use mathlib.Core.List.{append_assoc, append-nil}
use zimi_rs.Base.{
  ℕ, ◌+◌, ◌<◌, ◌^◌, ◌≡◌, refl, sym, ap, subst, ◌∙◌, ◌⊎◌, ◌≢◌, inl, inr, Bool, true, false, ◌&&◌,
  Option, none, some, List, [], ◌∷◌, ◌++◌, ◌==◌, ltb, length, length-append, drop, arith, Result,
  ok, err, Option-cases, Bool-cases,
}
use zimi_rs.Direct.Headers.{
  content_range_start, content_range_total, content_range_start-total, resume_206_decision,
}
use zimi_rs.Direct.Stream.{
  Bytes, Part, Chunk, Reply, Disk, append_to, fresh, Opened, is_success, capped, removed, create,
  reopen, fresh_fallback, open_206, open_416, open_plain, open_stream, Streamed, exhausted, stopped,
  failed, stream_loop, Settled, is_cancelled, compared, flushed, settle, stream_into, stream_part,
  resume_plan,
}
use zimi_rs.Direct.Stream.Prefix.{
  IsPrefix, IsPrefix-nil, IsPrefix-append, IsPrefix-trans, IsPrefix-length, cut-IsPrefix, payload,
  stream_loop-IsPrefix, stream_loop-Counted, Counted,
}

module _ (body : Bytes) where
  -- The staged file, where there is one, is a true prefix of the source.
  abbrev pub PartOf : Part → Type 0
  PartOf none = Unit
  PartOf (some bytes) = IsPrefix bytes body

  abbrev pub Declares : Option ℕ → Type 0
  Declares none = Unit
  Declares (some t) = t ≡ length body

  -- A reply that gives the bytes of the source: from its beginning, or from the byte that its
  -- `Content-Range` names; it may break off. The sizes that it declares are true, and a range that
  -- cannot be satisfied comes with no bytes.
  pub record Serves (r : Reply) : Type 0 where
    pub whole : IsPrefix (payload r.body) body ⊎ (r.status ≡ 206)
    pub declared : Declares r.content_length ⊎ (r.status ≡ 206)
    pub partial :
        (from : ℕ)
        → content_range_start r.content_range ≡ some from
        → IsPrefix (payload r.body) (drop from body)
    pub sized : Declares (content_range_total r.content_range)
    pub unsatisfiable : r.status ≡ 416 → payload r.body ≡ []

  -- A part of the source is given only where a range was asked for.
  abbrev pub Answers : Option ℕ → Reply → Type 0
  Answers resume_from r = Serves r × (resume_from ≡ none → r.status ≢ 206)

  abbrev pub AnswersAgain : Result Reply (Unit {0}) → Type 0
  AnswersAgain (err e) = Unit
  AnswersAgain (ok r) = Answers none r

  -- The source's bytes so far, and on success, with a declared size and no cancel, all of them.
  abbrev pub Faithful : Settled → Type 0
  Faithful (part, err f) = PartOf part
  Faithful (part, ok o) =
      PartOf part × (o.was_cancelled ≡ false → (t : ℕ) → o.total ≡ some t → part ≡ some body)

  abbrev pub Good : Opened → Type 0
  Good (part, err f) = PartOf part
  Good (part, ok (append_to from total chunks)) =
      (from ≡ length (get_or part []))
      × IsPrefix (get_or part [] ++ payload chunks) body
      × Declares total
  Good (part, ok (fresh total chunks)) = IsPrefix (payload chunks) body × Declares total

  pub get_or-PartOf : (part : Part) → PartOf part → IsPrefix (get_or part []) body
  get_or-PartOf none h = IsPrefix-nil body
  get_or-PartOf (some bytes) h = h
