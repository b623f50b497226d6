-- ===== src/Access/RateLimit/Handle/Live.antt =====
-- src/access/ratelimit.rs and src/serve/middleware.rs: the limiter behind its handle, while the
-- settings change at run time.
use native.Mathlib.Nat.{mul-le-mul_left}
use zimi_rs.Base.{
  ℕ, ◌+◌, ◌-◌, ◌*◌, ◌^◌, ◌≤◌, ◌<◌, min, max, ◌≡◌, refl, sym, subst, ap, false, some, List, [], ◌∷◌,
  arith, Result, ok, err,
}
use zimi_rs.Access.RateLimit.{
  RateLimiter, scale, ns_per_sec, rps_ceiling, resized, try_acquire, ms_to_retry_after_secs,
}
use zimi_rs.Access.RateLimit.Bounds.{IsValid, resized-IsValid, try_acquire-IsValid}
use zimi_rs.Access.RateLimit.Admission.{
  granted, scaled_limits_exact, try_acquire_clock, try_acquire_limits, try_acquire_budget,
  window_split, resized-le, try_acquire_retry,
}
use zimi_rs.Access.RateLimit.Handle.{
  Settings, LimiterSlot, rps_of, burst_of, rebuild, slow_path, limiter, next, too_many, verdict,
  rate_limit,
}

-- Skipping the two reads is sound when a generation fixes the limits: the handle then holds what the
-- slow path would have built.
pub limiter-eq-slow_path :
    (now : ℕ) (s : Settings) (slot : LimiterSlot)
    → (slot.gen ≡ s.generation → (slot.rps ≡ rps_of s) × (slot.burst ≡ burst_of s))
    → limiter now s (some slot) ≡ slow_path now s (some slot)
unfolding limiter slow_path rebuild
limiter-eq-slow_path now s slot h = ground arith

-- The rate of a limiter after the handle has looked at the settings.
abbrev pub RateCap : ℕ → Settings → Type 0
RateCap top s = max 1 (min (rps_of s) rps_ceiling) ≤ top

resized_rate :
    (old : RateLimiter) (rps burst : ℕ)
    → (resized old rps burst).refill_per_sec ≡ max 1 (min rps rps_ceiling) * scale
unfolding resized
resized_rate old rps burst = ground (arith, scaled_limits_exact rps burst)

pub limiter-IsValid :
    (now : ℕ) (s : Settings) (slot : LimiterSlot)
    → IsValid slot.limiter
    → IsValid (limiter now s (some slot)).limiter
unfolding limiter slow_path rebuild
limiter-IsValid now s slot v = ground (arith, resized-IsValid slot.limiter (rps_of s) (burst_of s))

-- Looking up the limiter credits nothing: the balance does not rise, and the clock is carried over.
limiter_carries :
    (now top : ℕ) (s : Settings) (slot : LimiterSlot)
    → slot.limiter.refill_per_sec ≤ top * scale
    → RateCap top s
    → let held = (limiter now s (some slot)).limiter in
      (held.tokens ≤ slot.limiter.tokens)
      × (held.last_refill ≡ slot.limiter.last_refill)
      × (held.refill_per_sec ≤ top * scale)
unfolding limiter slow_path rebuild
limiter_carries now top s slot h k = ground (
  arith,
  resized-le slot.limiter (rps_of s) (burst_of s),
  resized_rate slot.limiter (rps_of s) (burst_of s),
)

-- A history of requests, each with the settings of its instant: the slot afterwards, and how many
-- requests were admitted.

unfoldable pub serve_live : LimiterSlot → List (ℕ × Settings) → LimiterSlot × ℕ
serve_live slot [] = (slot, 0)
serve_live slot ((now, s) ∷ later) =
    let held = limiter now s (some slot) in
    let (spent, answer) = try_acquire now held.limiter in
    let (slot', n) = serve_live (record held { limiter = spent }) later in
    (slot', granted answer + n)

-- The clock does not step back, its reading fits in 64 bits, and no rate is above `top`.
abbrev pub IsPaced : ℕ → ℕ → List (ℕ × Settings) → Type 0
IsPaced top t [] = Unit
IsPaced top t ((now, s) ∷ later) =
    (t ≤ now) × (now < 2 ^ 64) × RateCap top s × IsPaced top now later

abbrev pub end_at : ℕ → List (ℕ × Settings) → ℕ
end_at t [] = t
end_at t ((now, s) ∷ later) = end_at now later

end_at-le : (top t : ℕ) (es : List (ℕ × Settings)) → IsPaced top t es → t ≤ end_at t es
end_at-le top t [] h = omega arith
end_at-le top t ((now, s) ∷ later) h = omega (arith, end_at-le top now later h.3)

-- One request under the settings of its instant.
live_step :
    (top now : ℕ) (s : Settings) (slot : LimiterSlot)
    → IsValid slot.limiter
    → slot.limiter.refill_per_sec ≤ top * scale
    → RateCap top s
    → now < 2 ^ 64
    → let r = (limiter now s (some slot)).limiter in
      ns_per_sec * (scale * granted (try_acquire now r).1 + (try_acquire now r).0.tokens)
      ≤ ns_per_sec * slot.limiter.tokens + (now - slot.limiter.last_refill) * (top * scale)
live_step top now s slot v rate cap fits =
    let (spent, clock, slow) = limiter_carries now top s slot rate cap in
    let budget = try_acquire_budget now (limiter-IsValid now s slot v) fits in
    let r = (limiter now s (some slot)).limiter in
    let credit : (now - r.last_refill) * r.refill_per_sec ≤ (now - r.last_refill) * (top * scale) =
      mul-le-mul_left (now - r.last_refill) slow in
    let credit' : (now - r.last_refill) * (top * scale)
        ≡ (now - slot.limiter.last_refill) * (top * scale) =
      rw clock in
    omega arith

-- Changing the limits at run time grants no free burst: from a balance of `tokens`, whatever the
-- settings do while their rate stays at `top` or below, the requests admitted are paid for by that
-- balance and by `top` tokens a second.
pub serve_live-le :
    (top : ℕ) (slot : LimiterSlot) (es : List (ℕ × Settings))
    → IsValid slot.limiter
    → slot.limiter.refill_per_sec ≤ top * scale
    → IsPaced top slot.limiter.last_refill es
    → ns_per_sec * (scale * (serve_live slot es).1 + (serve_live slot es).0.limiter.tokens)
      ≤ ns_per_sec * slot.limiter.tokens
        + (end_at slot.limiter.last_refill es - slot.limiter.last_refill) * (top * scale)
unfolding serve_live
serve_live-le top slot [] v rate h = omega arith
serve_live-le top slot ((now, s) ∷ later) v rate (past, fits, cap, paced) =
    let held = limiter now s (some slot) in
    let slot' : LimiterSlot = record held { limiter = (try_acquire now held.limiter).0 } in
    let clock = try_acquire_clock now held.limiter in
    let rate' : slot'.limiter.refill_per_sec ≤ top * scale = omega (
      arith,
      (try_acquire_limits now held.limiter).1,
      (limiter_carries now top s slot rate cap).2,
    ) in
    let one = live_step top now s slot v rate cap fits in
    let rest =
      serve_live-le top slot' later (try_acquire-IsValid now (limiter-IsValid now s slot v) fits)
        rate' (subst (λ t. IsPaced top t later) (sym clock) paced) in
    let rest' : ns_per_sec
          * (scale * (serve_live slot' later).1 + (serve_live slot' later).0.limiter.tokens)
        ≤ ns_per_sec * slot'.limiter.tokens + (end_at now later - now) * (top * scale) =
      rw clock at rest in
    let stop = end_at-le top now later paced in
    let split =
      window_split slot.limiter.last_refill now (end_at now later) (top * scale) past stop in
    omega arith

retry_after_exact : (ms : ℕ) → ms ≤ ms_to_retry_after_secs ms * 1000
unfolding ms_to_retry_after_secs
retry_after_exact ms = omega arith

verdict-too_many :
    (answer : Result (Unit {0}) ℕ) (secs : ℕ)
    → verdict answer ≡ too_many secs
    → (hint : ℕ) × (answer ≡ err hint) × (secs ≡ ms_to_retry_after_secs hint)
unfolding verdict
verdict-too_many (ok _) secs h = cc
verdict-too_many (err hint) secs h = (hint, refl, cc)

verdict-next : (answer : Result (Unit {0}) ℕ) → answer ≡ ok tt → verdict answer ≡ next
unfolding verdict
verdict-next answer h = rw h

limiter_gen :
    (now : ℕ) (s : Settings) (slot : LimiterSlot) → (limiter now s (some slot)).gen ≡ s.generation
unfolding limiter slow_path
limiter_gen now s slot = ground arith

limiter_held :
    (now : ℕ) (s : Settings) (slot : LimiterSlot)
    → slot.gen ≡ s.generation
    → limiter now s (some slot) ≡ slot
unfolding limiter slow_path
limiter_held now s slot h = ground arith

-- A client that is told to wait `secs` seconds, for less than a minute, would be admitted after as
-- many *milliseconds*, if no other request and no change of the settings comes in between.
pub rate_limit_retry :
    (now later secs : ℕ) (s : Settings) (slot slot' : LimiterSlot)
    → IsValid slot.limiter
    → now < 2 ^ 64
    → later < 2 ^ 64
    → rate_limit now s false (some slot) ≡ (some slot', too_many secs)
    → secs < 60
    → now + secs * 1_000_000 ≤ later
    → (rate_limit later s false (some slot')).1 ≡ next
unfolding rate_limit
rate_limit_retry now later secs s slot slot' v fits fits' refused short wait =
    let held = limiter now s (some slot) in
    let spent : slot' ≡ record held { limiter = (try_acquire now held.limiter).0 } = cc in
    let (hint, told, exact) =
      verdict-too_many (try_acquire now held.limiter).1 secs (ap (λ p. p.1) refused) in
    let enough = retry_after_exact hint in
    let same : limiter later s (some slot') ≡ slot' =
      limiter_held later s slot' (rw spent (limiter_gen now s slot)) in
    rw (same, spent)
      (verdict-next _ (
        try_acquire_retry held.limiter now later hint (limiter-IsValid now s slot v) fits fits' told
          (omega arith) (omega arith)))
