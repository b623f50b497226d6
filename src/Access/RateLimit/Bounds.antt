-- ===== src/Access/RateLimit/Bounds.antt =====
-- src/access/ratelimit.rs: the limiter's range invariant; under it no register wraps and no product
-- saturates.
use native.Mathlib.Nat.{le_of_lt, mul-le-mul, mul-le-mul_right}
use zimi_rs.Base.{ℕ, ◌+◌, ◌-◌, ◌*◌, ◌/◌, ◌^◌, ◌≤◌, ◌<◌, min, ◌≡◌, arith, wrap128}
use zimi_rs.Access.RateLimit.{
  RateLimiter, scale, rps_ceiling, burst_ceiling, ns_per_sec, scaled_limits, new, resized, refilled,
  retry_hint, try_acquire,
}

-- The range in which the limiter is built and kept.
pub record IsValid (r : RateLimiter) : Type 0 where
  pub balance : r.tokens ≤ r.capacity
  pub some_burst : scale ≤ r.capacity
  pub burst_cap : r.capacity ≤ burst_ceiling * scale
  pub some_refill : scale ≤ r.refill_per_sec
  pub refill_cap : r.refill_per_sec ≤ rps_ceiling * scale

pub scaled_limits_bounds :
    (rps burst : ℕ)
    → (scale ≤ (scaled_limits rps burst).0)
      × ((scaled_limits rps burst).0 ≤ burst_ceiling * scale)
      × (scale ≤ (scaled_limits rps burst).1)
      × ((scaled_limits rps burst).1 ≤ rps_ceiling * scale)
unfolding scaled_limits
scaled_limits_bounds rps burst = ground arith

pub new-IsValid : (now rps burst : ℕ) → IsValid (new now rps burst)
unfolding new
new-IsValid now rps burst = ground (arith, scaled_limits_bounds rps burst)

pub resized-IsValid : (old : RateLimiter) (rps burst : ℕ) → IsValid (resized old rps burst)
unfolding resized
resized-IsValid old rps burst = ground (arith, scaled_limits_bounds rps burst)

elapsed_product :
    (e c : ℕ) → e < 2 ^ 64 → c ≤ rps_ceiling * scale → e * c ≤ 2 ^ 64 * (rps_ceiling * scale)
elapsed_product e c h k = mul-le-mul {n₂ = 2 ^ 64} (le_of_lt h) k

-- The balance after the refill, as the exact number that the comments describe.
pub refilled_exact :
    {r : RateLimiter} (now : ℕ)
    → IsValid r
    → now < 2 ^ 64
    → refilled now r
      ≡ min (r.tokens + (now - r.last_refill) * r.refill_per_sec / ns_per_sec) r.capacity
unfolding refilled
refilled_exact {r} now v h =
    let p = elapsed_product (now - r.last_refill) r.refill_per_sec (omega arith) v.refill_cap in
    omega arith

-- Every request keeps the limiter in its range: a balance within the capacity, and both limits
-- between one unit and their ceilings.
pub try_acquire-IsValid :
    {r : RateLimiter} (now : ℕ) → IsValid r → now < 2 ^ 64 → IsValid (try_acquire now r).0
unfolding try_acquire
try_acquire-IsValid {r} now v h = ground (arith, refilled_exact now v h)

div_lt : (x c : ℕ) → 0 < c → x < (x / c + 1) * c
div_lt x c h = grind arith

-- The hint as an exact number of microseconds.
pub retry_hint_exact :
    (t c : ℕ) → scale ≤ c → retry_hint t c ≡ min ((scale - t) * ns_per_sec / c / 1000 + 1) 60_000
unfolding retry_hint
retry_hint_exact t c h =
    let whole : wrap128 ((scale - t) * ns_per_sec) ≡ (scale - t) * ns_per_sec = omega arith in
    rw whole (omega arith)

-- After the hint's microseconds the missing part of the token has been credited.
pub retry_hint_covers :
    (t c e : ℕ)
    → scale ≤ c
    → retry_hint t c < 60_000
    → retry_hint t c * 1000 ≤ e
    → scale - t ≤ e * c / ns_per_sec
retry_hint_covers t c e h short long =
    let exact = retry_hint_exact t c h in
    let rounds = div_lt ((scale - t) * ns_per_sec) c (omega arith) in
    let wait : (scale - t) * ns_per_sec / c + 1 ≤ e = omega arith in
    let credit : ((scale - t) * ns_per_sec / c + 1) * c ≤ e * c = mul-le-mul_right c wait in
    omega arith
