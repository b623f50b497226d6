-- ===== src/Direct/Stream/Served/Opening.antt =====
-- src/torrent/poller/direct.rs, `stream_part` up to its loop: the file as it is opened for a reply.
use mathlib.Core.Option.{get_or}
use mathlib.Core.List.{append_assoc, append-nil}
use zimi_rs.Base.{
  ℕ, ◌≡◌, refl, sym, ap, subst, ◌∙◌, ◌≢◌, inl, inr, Option, none, some, List, [], ◌∷◌, ◌++◌, ◌==◌,
  ltb, length, drop, arith, Result, ok, err, Option-cases, Bool-cases,
}
use zimi_rs.Direct.Headers.{
  content_range_start, content_range_total, content_range_start-total, resume_206_decision,
}
use zimi_rs.Direct.Stream.{
  Bytes, Part, Chunk, Reply, Disk, append_to, fresh, Opened, is_success, capped, removed, create,
  reopen, fresh_fallback, open_206, open_416, open_plain, open_stream, resume_plan,
}
use zimi_rs.Direct.Stream.Prefix.{IsPrefix, payload}
use zimi_rs.Direct.Stream.Served.{
  PartOf, Declares, Serves, Answers, AnswersAgain, Good, get_or-PartOf,
}

resume_plan-length :
    (part : Part) (from : ℕ) → resume_plan part ≡ some from → from ≡ length (get_or part [])
unfolding resume_plan
resume_plan-length none from h = cc
resume_plan-length (some bytes) from h = ground arith

drop-prefix : (start rest : Bytes) → drop (length start) (start ++ rest) ≡ rest
drop-prefix [] rest = refl
drop-prefix (x ∷ start) rest = drop-prefix start rest

-- A prefix, continued from where it ends.
joined :
    (start more body : Bytes)
    → IsPrefix start body
    → IsPrefix more (drop (length start) body)
    → IsPrefix (start ++ more) body
joined start more body (rest, e) (after, f) =
    let remains : drop (length start) body ≡ rest =
      ap (drop (length start)) (sym e) ∙ drop-prefix start rest in
    (after, append_assoc start more after ∙ ap (λ l. start ++ l) (f ∙ remains) ∙ e)

module _ (body : Bytes) where
  capped-Good :
      (max_bytes : ℕ) (t : Option ℕ) (part : Part) (next : Opened)
      → PartOf body part
      → Good body next
      → Good body (capped max_bytes t part next)
  capped-Good max_bytes none part next h k = k
  capped-Good max_bytes (some t) part next h k = elim (Bool-cases (ltb max_bytes t)) [
    | inl over ↦ rw over h
    | inr below ↦ rw below k
  ]

  module _ (disk : Disk) where
    removed-PartOf : (part : Part) → PartOf body part → PartOf body (removed disk part)
    removed-PartOf part h = elim (Bool-cases disk.removes) [
      | inl gone ↦ rw gone tt
      | inr stays ↦ rw stays h
    ]

    create-Good :
        (part : Part) (total : Option ℕ) (chunks : List Chunk)
        → PartOf body part
        → IsPrefix (payload chunks) body
        → Declares body total
        → Good body (create disk part (fresh total chunks))
    create-Good part total chunks h k d = elim (Bool-cases disk.opens) [
      | inl opens ↦ rw opens (k, d)
      | inr fails ↦ rw fails h
    ]

    reopen-Good :
        (part : Part) (from : ℕ) (total : Option ℕ) (chunks : List Chunk)
        → PartOf body part
        → from ≡ length (get_or part [])
        → IsPrefix (get_or part [] ++ payload chunks) body
        → Declares body total
        → Good body (reopen disk part (append_to from total chunks))
    reopen-Good part from total chunks h e k d = elim (Bool-cases disk.opens) [
      | inl opens ↦ rw opens (e, k, d)
      | inr fails ↦ rw fails h
    ]

    module _ (max_bytes : ℕ) where
      plain-Good :
          (part : Part) (r : Reply)
          → PartOf body part
          → Serves body r
          → r.status ≢ 206
          → Good body (open_plain disk max_bytes part r)
      plain-Good part r h serves other = elim (Bool-cases (is_success r.status)) [
        | inr bad ↦ rw bad h
        | inl good ↦ elim serves.whole [
          | inr partial ↦ absurd (other partial)
          | inl whole ↦ elim serves.declared [
            | inr partial ↦ absurd (other partial)
            | inl declared ↦ rw good (
                capped-Good max_bytes r.content_length part _ h
                  (create-Good part r.content_length r.body h whole declared))
          ]
        ]
      ]

      fallback-Good :
          (part : Part) (again : Result Reply (Unit {0}))
          → PartOf body part
          → AnswersAgain body again
          → Good body (fresh_fallback disk max_bytes part again)
      unfolding fresh_fallback
      fallback-Good part (err e) h k = h
      fallback-Good part (ok r) h k = elim (Bool-cases (is_success r.status)) [
        | inr bad ↦ rw bad (removed-PartOf part h)
        | inl good ↦ elim k.0.whole [
          | inr partial ↦ absurd (k.1 refl partial)
          | inl whole ↦ elim k.0.declared [
            | inr partial ↦ absurd (k.1 refl partial)
            | inl declared ↦ rw good (
                capped-Good max_bytes r.content_length part _ h (
                  create-Good (removed disk part) r.content_length r.body (removed-PartOf part h)
                    whole declared))
          ]
        ]
      ]

      module _ (part : Part) (from : ℕ) (h : PartOf body part)
          (at_end : from ≡ length (get_or part [])) where
        open_206-Good :
            (r : Reply) (again : Result Reply (Unit {0}))
            → Serves body r
            → AnswersAgain body again
            → Good body (
                open_206 disk max_bytes part from r again
                  (resume_206_decision r.content_range from))
        unfolding resume_206_decision
        open_206-Good r again serves k = elim (Option-cases (content_range_start r.content_range)) [
          | inl unsaid ↦ rw unsaid (fallback-Good part again h k)
          | inr (s, said) ↦ elim (Bool-cases (s == from)) [
            | inr other ↦ rw (said, other) (fallback-Good part again h k)
            | inl same ↦
                let (t, total) = content_range_start-total r.content_range s said in
                rw (said, same, total)
                  (capped-Good max_bytes (some t) part _ h (
                    reopen-Good part from (some t) r.body h at_end
                      (joined (get_or part []) (payload r.body) body (get_or-PartOf body part h) (
                        subst (λ n. IsPrefix (payload r.body) (drop n body)) (ground arith)
                          (serves.partial s said)))
                      (rw total at serves.sized)))
          ]
        ]

        open_416-Good :
            (r : Reply) (again : Result Reply (Unit {0}))
            → Serves body r
            → AnswersAgain body again
            → r.status ≡ 416
            → Good body
                (open_416 disk max_bytes part from r again (content_range_total r.content_range))
        open_416-Good r again serves k s =
            elim (Option-cases (content_range_total r.content_range)) [
              | inl unsaid ↦ rw unsaid (fallback-Good part again h k)
              | inr (t, said) ↦ elim (Bool-cases (t == from)) [
                | inr other ↦ rw (said, other) (fallback-Good part again h k)
                | inl same ↦
                    rw (said, same)
                      (capped-Good max_bytes (some t) part _ h (
                        reopen-Good part from (some t) r.body h at_end
                          (rw (serves.unsatisfiable s, append-nil (get_or part []))
                            (get_or-PartOf body part h))
                          (rw said at serves.sized)))
              ]
            ]

      pub open_stream-Good :
          (part : Part) (resume_from : Option ℕ) (r : Reply) (again : Result Reply (Unit {0}))
          → PartOf body part
          → resume_from ≡ resume_plan part
          → Answers body resume_from r
          → AnswersAgain body again
          → Good body (open_stream disk max_bytes part resume_from r again)
      unfolding open_stream
      open_stream-Good part none r again h e answers k =
          plain-Good part r h answers.0 (answers.1 refl)
      open_stream-Good part (some from) r again h e answers k =
          let at_end : from ≡ length (get_or part []) = resume_plan-length part from (sym e) in
          elim (Bool-cases (r.status == 206)) [
            | inl partial ↦ rw partial (open_206-Good part from h at_end r again answers.0 k)
            | inr other ↦ elim (Bool-cases (r.status == 416)) [
              | inl unsatisfied ↦
                  rw (other, unsatisfied)
                    (open_416-Good part from h at_end r again answers.0 k (ground arith))
              | inr satisfied ↦
                  rw (other, satisfied) (plain-Good part r h answers.0 (λ is_partial. ground arith))
            ]
          ]
