-- ===== src/Access/RateLimit/Handle/Skipped.antt =====
-- src/access/ratelimit.rs and src/serve/middleware.rs: what the limiter's fast path skips.
use zimi_rs.Base.{ℕ, ◌≡◌, refl, sym, ap, ◌∙◌, false, Option, none, some, List, [], ◌∷◌}
use zimi_rs.Access.RateLimit.{try_acquire}
use zimi_rs.Access.RateLimit.Handle.{
  Settings, LimiterSlot, rps_of, burst_of, slow_path, limiter, Verdict, verdict, rate_limit,
}
use zimi_rs.Access.RateLimit.Handle.Live.{limiter-eq-slow_path}

-- The answers to a history of requests, each with the settings of its instant.
unfoldable pub verdicts : Option LimiterSlot → List (ℕ × Settings) → List Verdict
verdicts slot [] = []
verdicts slot ((now, s) ∷ later) =
    let (slot', v) = rate_limit now s false slot in v ∷ verdicts slot' later

-- The same with both keys read for each request.
unfoldable pub verdicts_reading : Option LimiterSlot → List (ℕ × Settings) → List Verdict
verdicts_reading slot [] = []
verdicts_reading slot ((now, s) ∷ later) =
    let held = slow_path now s slot in
    let (spent, answer) = try_acquire now held.limiter in
    verdict answer ∷ verdicts_reading (some (record held { limiter = spent })) later

module _ (rps burst : ℕ → ℕ) where
  -- The two keys of each generation: a change of either comes with a new generation.
  abbrev pub IsNumbered : List (ℕ × Settings) → Type 0
  IsNumbered [] = Unit
  IsNumbered ((now, s) ∷ later) =
      (rps_of s ≡ rps s.generation) × (burst_of s ≡ burst s.generation) × IsNumbered later

  abbrev pub Holds : Option LimiterSlot → Type 0
  Holds none = Unit
  Holds (some slot) = (slot.rps ≡ rps slot.gen) × (slot.burst ≡ burst slot.gen)

  limiter_reads :
      (now : ℕ) (s : Settings) (slot : Option LimiterSlot)
      → rps_of s ≡ rps s.generation
      → burst_of s ≡ burst s.generation
      → Holds slot
      → limiter now s slot ≡ slow_path now s slot
  unfolding limiter
  limiter_reads now s none r b h = refl
  limiter_reads now s (some slot) r b (held_r, held_b) =
      limiter-eq-slow_path now s slot
        (λ same. (held_r ∙ ap rps same ∙ sym r, held_b ∙ ap burst same ∙ sym b))

  verdicts-from :
      (slot : Option LimiterSlot) (es : List (ℕ × Settings))
      → Holds slot
      → IsNumbered es
      → verdicts slot es ≡ verdicts_reading slot es
  unfolding verdicts verdicts_reading rate_limit slow_path
  verdicts-from slot [] h k = refl
  verdicts-from slot ((now, s) ∷ later) h (r, b, k) =
      let answered = λ (held : LimiterSlot).
        verdict (try_acquire now held.limiter).1
        ∷ verdicts (some (record held { limiter = (try_acquire now held.limiter).0 })) later in
      let held : LimiterSlot = slow_path now s slot in
      ap answered (limiter_reads now s slot r b h)
      ∙ ap (λ vs. verdict (try_acquire now held.limiter).1 ∷ vs)
          (verdicts-from (some (record held { limiter = (try_acquire now held.limiter).0 })) later
            (r, b) k)

-- Skipping the reads shows in no answer: from the start of the process, whatever requests come and
-- however the settings change, the middleware answers as if it read both keys for each request, while
-- no change of a key leaves the generation as it was.
pub verdicts-verdicts_reading :
    (rps burst : ℕ → ℕ) (es : List (ℕ × Settings))
    → IsNumbered rps burst es
    → verdicts none es ≡ verdicts_reading none es
verdicts-verdicts_reading rps burst es k = verdicts-from rps burst none es tt k
