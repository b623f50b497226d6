-- ===== src/Access/RateLimit.antt =====
-- src/access/ratelimit.rs: the service-wide token bucket, with the clock's reading as an argument.
pub mod Bounds
pub mod Admission
pub mod Handle
use zimi_rs.Base.{
  ℕ, ◌+◌, ◌-◌, ◌*◌, ◌/◌, ◌%◌, ◌^◌, min, max, Bool, Option, none, some, List, [], ◌∷◌, ltb, ◌==◌,
  ◌&&◌, if◌then◌else◌, wrap64, wrap128, Result, ok, err,
}

pub record Bucket : Type 0 where
  pub tokens : ℕ
  pub last_refill : ℕ

pub record RateLimiter : Type 0 where
  pub inner : Bucket
  pub open inner use *
  pub capacity : ℕ
  pub refill_per_sec : ℕ

-- One token is `scale` units.
abbrev pub scale : ℕ
scale = 1_000_000

abbrev pub ns_per_sec : ℕ
ns_per_sec = 1_000_000_000

abbrev pub rps_ceiling : ℕ
rps_ceiling = 1_000_000

abbrev pub burst_ceiling : ℕ
burst_ceiling = 1_000_000

-- `u64::clamp`.
abbrev clamp : ℕ → ℕ → ℕ → ℕ
clamp lo hi n = if ltb n lo then lo else if ltb hi n then hi else n

-- `checked_mul(…).unwrap_or(default)` on `u64`.
abbrev checked_mul_or : ℕ → ℕ → ℕ → ℕ
checked_mul_or a b default = if ltb (a * b) (2 ^ 64) then a * b else default

-- `u128::saturating_mul`.
abbrev saturating_mul128 : ℕ → ℕ → ℕ
saturating_mul128 a b = min (a * b) (2 ^ 128 - 1)

pub scaled_limits : ℕ → ℕ → ℕ × ℕ
scaled_limits rps burst =
    let rps' = clamp 1 rps_ceiling rps in
    let burst' = clamp 1 burst_ceiling burst in
    (
      checked_mul_or burst' scale (burst_ceiling * scale),
      checked_mul_or rps' scale (rps_ceiling * scale),
    )

-- `RateLimiter::new` at the instant `now`.
pub new : ℕ → ℕ → ℕ → RateLimiter
new now rps burst =
    let (capacity, refill) = scaled_limits rps burst in
    record {
      inner = record { tokens = capacity; last_refill = now };
      capacity = capacity;
      refill_per_sec = refill;
    }

pub resized : RateLimiter → ℕ → ℕ → RateLimiter
resized old rps burst =
    let (capacity, refill) = scaled_limits rps burst in
    record {
      inner = record { tokens = min old.tokens capacity; last_refill = old.last_refill };
      capacity = capacity;
      refill_per_sec = refill;
    }

-- The credit of `try_acquire`: the balance after the refill for the elapsed window.
pub refilled : ℕ → RateLimiter → ℕ
refilled now r =
    let elapsed_ns = now - r.last_refill in
    let refill = saturating_mul128 elapsed_ns r.refill_per_sec / ns_per_sec in
    wrap64 (min (wrap128 (r.tokens + refill)) r.capacity)

-- The hint of a refusal, for a balance below one token.
pub retry_hint : ℕ → ℕ → ℕ
retry_hint tokens refill_per_sec =
    let deficit = scale - tokens in
    let wait_ns = wrap128 (deficit * ns_per_sec) / refill_per_sec in
    wrap64 (min (wait_ns / 1000 + 1) 60_000)

pub with_bucket : RateLimiter → ℕ → ℕ → RateLimiter
with_bucket r tokens now = record r { inner = record { tokens = tokens; last_refill = now } }

-- `RateLimiter::try_acquire` at the instant `now`: the limiter afterwards, and its answer.
pub try_acquire : ℕ → RateLimiter → RateLimiter × Result (Unit {0}) ℕ
unfolding with_bucket
try_acquire now r =
    let tokens = refilled now r in
    if ltb tokens scale
    then (with_bucket r tokens now, err (retry_hint tokens r.refill_per_sec))
    else (with_bucket r (tokens - scale) now, ok tt)

pub ms_to_retry_after_secs : ℕ → ℕ
ms_to_retry_after_secs ms = max ((ms + 999) / 1000) 1
