-- ===== src/Access/RateLimit/Admission.antt =====
-- src/access/ratelimit.rs: what a history of requests can be granted. The mutex makes a history a
-- sequence of calls, each at its clock reading.
use zimi_rs.Base.{
  ℕ, ◌+◌, ◌-◌, ◌*◌, ◌^◌, ◌≤◌, ◌<◌, min, max, ◌≡◌, sym, subst, List, [], ◌∷◌, arith, Result, ok, err,
}
use zimi_rs.Access.RateLimit.{
  RateLimiter, scale, ns_per_sec, rps_ceiling, burst_ceiling, scaled_limits, new, resized, refilled,
  retry_hint, try_acquire,
}
use zimi_rs.Access.RateLimit.Bounds.{
  IsValid, new-IsValid, try_acquire-IsValid, refilled_exact, retry_hint_covers,
}

abbrev pub granted : Result (Unit {0}) ℕ → ℕ
granted (ok _) = 1
granted (err _) = 0

-- The limiter after the requests, and how many of them were admitted.
unfoldable pub serve : RateLimiter → List ℕ → RateLimiter × ℕ
serve r [] = (r, 0)
serve r (now ∷ later) =
    let (r', answer) = try_acquire now r in
    let (r'', n) = serve r' later in (r'', granted answer + n)

-- The clock does not step back, and its reading fits in 64 bits.
abbrev pub Rising : ℕ → List ℕ → Type 0
Rising t [] = Unit
Rising t (now ∷ later) = (t ≤ now) × (now < 2 ^ 64) × Rising now later

pub try_acquire_clock : (now : ℕ) (r : RateLimiter) → (try_acquire now r).0.last_refill ≡ now
unfolding try_acquire
try_acquire_clock now r = ground arith

pub try_acquire_limits :
    (now : ℕ) (r : RateLimiter)
    → ((try_acquire now r).0.capacity ≡ r.capacity)
      × ((try_acquire now r).0.refill_per_sec ≡ r.refill_per_sec)
unfolding try_acquire
try_acquire_limits now r = ground arith

-- One call spends what it grants, and gains no more than the window's credit.
pub try_acquire_budget :
    {r : RateLimiter} (now : ℕ)
    → IsValid r
    → now < 2 ^ 64
    → ns_per_sec * (scale * granted (try_acquire now r).1 + (try_acquire now r).0.tokens)
      ≤ ns_per_sec * r.tokens + (now - r.last_refill) * r.refill_per_sec
unfolding try_acquire
try_acquire_budget {r} now v h = ground (arith, refilled_exact now v h)

abbrev pub end_of : ℕ → List ℕ → ℕ
end_of t [] = t
end_of t (now ∷ later) = end_of now later

end_of-le : (t : ℕ) (ts : List ℕ) → Rising t ts → t ≤ end_of t ts
end_of-le t [] h = omega arith
end_of-le t (now ∷ later) h = omega (arith, end_of-le now later h.2)

pub window_split : (a b d c : ℕ) → a ≤ b → b ≤ d → (d - b) * c + (b - a) * c ≡ (d - a) * c
window_split a b d c h k = grind arith

serve_budget :
    (r : RateLimiter) (ts : List ℕ)
    → IsValid r
    → Rising r.last_refill ts
    → ns_per_sec * (scale * (serve r ts).1 + (serve r ts).0.tokens)
      ≤ ns_per_sec * r.tokens + (end_of r.last_refill ts - r.last_refill) * r.refill_per_sec
unfolding serve
serve_budget r [] v h = omega arith
serve_budget r (now ∷ later) v (past, fits, rising) =
    let r' = (try_acquire now r).0 in
    let clock = try_acquire_clock now r in
    let rate = (try_acquire_limits now r).1 in
    let one = try_acquire_budget now v fits in
    let rest =
      serve_budget r' later (try_acquire-IsValid now v fits)
        (subst (λ t. Rising t later) (sym clock) rising) in
    let stop = end_of-le now later rising in
    let split : (end_of now later - now) * r.refill_per_sec
          + (now - r.last_refill) * r.refill_per_sec
        ≡ (end_of now later - r.last_refill) * r.refill_per_sec =
      window_split r.last_refill now (end_of now later) r.refill_per_sec past stop in
    let rest' : ns_per_sec * (scale * (serve r' later).1 + (serve r' later).0.tokens)
        ≤ ns_per_sec * r'.tokens + (end_of now later - now) * r.refill_per_sec =
      rw (clock, rate) at rest in
    omega arith

-- A budget in scaled units, counted in requests.
budget_units :
    (n rest burst rps tokens rate t now : ℕ) (ts : List ℕ)
    → tokens ≡ burst * scale
    → t ≡ now
    → rate ≡ rps * scale
    → ns_per_sec * (scale * n + rest) ≤ ns_per_sec * tokens + (end_of t ts - t) * rate
    → ns_per_sec * n ≤ ns_per_sec * burst + (end_of now ts - now) * rps
budget_units n rest burst rps tokens rate t now ts full start speed h =
    let h' = rw (full, start, speed) at h in omega arith

pub scaled_limits_exact :
    (rps burst : ℕ)
    → scaled_limits rps burst
      ≡ (max 1 (min burst burst_ceiling) * scale, max 1 (min rps rps_ceiling) * scale)
unfolding scaled_limits
scaled_limits_exact rps burst = ground arith

new_fields :
    (now rps burst : ℕ)
    → ((new now rps burst).tokens ≡ max 1 (min burst burst_ceiling) * scale)
      × ((new now rps burst).last_refill ≡ now)
      × ((new now rps burst).capacity ≡ max 1 (min burst burst_ceiling) * scale)
      × ((new now rps burst).refill_per_sec ≡ max 1 (min rps rps_ceiling) * scale)
unfolding new
new_fields now rps burst = ground (arith, scaled_limits_exact rps burst)

-- A fresh limiter never over-admits: up to the last instant of a history it has granted at most
-- `burst` requests, and `rps` more for each second gone by, both limits clamped to their range.
pub serve-new-le :
    (now rps burst : ℕ) (ts : List ℕ)
    → Rising now ts
    → ns_per_sec * (serve (new now rps burst) ts).1
      ≤ ns_per_sec * max 1 (min burst burst_ceiling)
        + (end_of now ts - now) * max 1 (min rps rps_ceiling)
serve-new-le now rps burst ts h =
    let (full, start, _, rate) = new_fields now rps burst in
    let total =
      serve_budget (new now rps burst) ts (new-IsValid now rps burst)
        (subst (λ t. Rising t ts) (sym start) h) in
    budget_units _ _ _ _ _ _ _ _ ts full start rate total

refused_state :
    (r : RateLimiter) (now hint : ℕ)
    → (try_acquire now r).1 ≡ err hint
    → let r' = (try_acquire now r).0 in
      (hint ≡ retry_hint r'.tokens r.refill_per_sec) × (r'.tokens < scale)
unfolding try_acquire
refused_state r now hint refused = ground arith

admits_full : (r : RateLimiter) (now : ℕ) → scale ≤ refilled now r → (try_acquire now r).1 ≡ ok tt
unfolding try_acquire
admits_full r now h = ground arith

-- A request that is refused with a hint below the cap is admitted once that many *microseconds* have
-- passed with no other request in between.
pub try_acquire_retry :
    (r : RateLimiter) (now later : ℕ) (hint : ℕ)
    → IsValid r
    → now < 2 ^ 64
    → later < 2 ^ 64
    → (try_acquire now r).1 ≡ err hint
    → hint < 60_000
    → now + hint * 1000 ≤ later
    → (try_acquire later (try_acquire now r).0).1 ≡ ok tt
try_acquire_retry r now later hint v h k refused short wait =
    let r' = (try_acquire now r).0 in
    let v' = try_acquire-IsValid now v h in
    let (exact, low) = refused_state r now hint refused in
    let clock = try_acquire_clock now r in
    let rate = (try_acquire_limits now r).1 in
    let covered =
      retry_hint_covers r'.tokens r.refill_per_sec (later - now) v.some_refill (omega arith)
        (omega arith) in
    let full : scale ≤ refilled later r' =
      rw (refilled_exact {r = r'} later v' k, clock, rate) (omega arith) in
    admits_full r' later full

-- The balance does not rise when the settings change, and the window already gone by is kept.
pub resized-le :
    (old : RateLimiter) (rps burst : ℕ)
    → ((resized old rps burst).tokens ≤ old.tokens)
      × ((resized old rps burst).last_refill ≡ old.last_refill)
unfolding resized
resized-le old rps burst = omega arith
