-- ===== src/Direct/Stream/Resumed.antt =====
-- src/torrent/poller/direct.rs: a download over any number of attempts.
use zimi_rs.Base.{ℕ, ◌+◌, ◌<◌, ◌^◌, ◌≡◌, false, none, some, List, [], ◌∷◌, Result, ok, err}
use zimi_rs.Direct.Stream.{
  Bytes, Part, Reply, Disk, StreamOutcome, Failure, Settled, stream_part, resume_plan,
}
use zimi_rs.Direct.Stream.Served.{PartOf, Answers, AnswersAgain, Faithful}
use zimi_rs.Direct.Stream.Served.Writing.{stream_part-Faithful}

-- What the disk of an attempt does, the answer to its request, and that to the request without a
-- range.
pub record Attempt : Type 0 where
  pub disk : Disk
  pub max_bytes : ℕ
  pub reply : Reply
  pub again : Result Reply (Unit {0})

unfoldable pub attempt : Part → Attempt → Settled
attempt part a = stream_part a.disk a.max_bytes part (resume_plan part) a.reply a.again

unfoldable pub attempts : Part → List Attempt → Part
attempts part [] = part
attempts part (a ∷ rest) = attempts (attempt part a).0 rest

-- The servers of each attempt give the source's bytes, to the request that the staged file makes.
abbrev pub AllServe : Bytes → Part → List Attempt → Type 0
AllServe body part [] = Unit
AllServe body part (a ∷ rest) =
    (a.max_bytes + 1 < 2 ^ 64)
    × Answers body (resume_plan part) a.reply
    × AnswersAgain body a.again
    × AllServe body (attempt part a).0 rest

module _ (body : Bytes) where
  Faithful-PartOf : (s : Settled) → Faithful body s → PartOf body s.0
  Faithful-PartOf (part, err f) h = h
  Faithful-PartOf (part, ok o) h = h.0

  attempt-Faithful :
      (part : Part) (a : Attempt)
      → PartOf body part
      → AllServe body part (a ∷ [])
      → Faithful body (attempt part a)
  unfolding attempt
  attempt-Faithful part a h (small, answers, again, _) =
      stream_part-Faithful body a.disk a.max_bytes part a.reply a.again small h answers again

  attempts-PartOf :
      (part : Part) (earlier : List Attempt)
      → PartOf body part
      → AllServe body part earlier
      → PartOf body (attempts part earlier)
  unfolding attempts
  attempts-PartOf part [] h serve = h
  attempts-PartOf part (a ∷ rest) h (small, answers, again, later) =
      attempts-PartOf (attempt part a).0 rest
        (Faithful-PartOf (attempt part a) (attempt-Faithful part a h (small, answers, again, tt)))
        later

  complete_of :
      (part : Part) (o : StreamOutcome) (t : ℕ) (r : Result StreamOutcome Failure)
      → r ≡ ok o
      → Faithful body (part, r)
      → o.was_cancelled ≡ false
      → o.total ≡ some t
      → part ≡ some body
  complete_of part o t (err f) e h kept declared = cc
  complete_of part o t (ok p) e h kept declared =
      let same : p ≡ o = cc in h.1 (rw same kept) t (rw same declared)

-- However many attempts have failed, wherever they broke off and whatever the disk did, the attempt
-- that succeeds, with a declared size and no cancel, leaves exactly the bytes of the source; the
-- servers of every attempt give that source's bytes and no others, in error replies too, and the cap
-- is below 2 ^ 64 - 1.
pub attempts_complete :
    (body : Bytes) (before : List Attempt) (last : Attempt) (o : StreamOutcome) (t : ℕ)
    → AllServe body none before
    → AllServe body (attempts none before) (last ∷ [])
    → (attempt (attempts none before) last).1 ≡ ok o
    → o.was_cancelled ≡ false
    → o.total ≡ some t
    → (attempt (attempts none before) last).0 ≡ some body
attempts_complete body before last o t served serves succeeds kept declared =
    let part = attempts none before in
    complete_of body (attempt part last).0 o t (attempt part last).1 succeeds
      (attempt-Faithful body part last (attempts-PartOf body none before tt served) serves) kept
      declared
