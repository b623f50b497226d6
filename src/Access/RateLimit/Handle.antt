-- ===== src/Access/RateLimit/Handle.antt =====
-- src/access/ratelimit.rs, `RateLimiterHandle`: the process-wide limiter, rebuilt when the settings
-- change; and src/serve/middleware.rs, `rate_limit`, which applies it.
pub mod Live
pub mod Skipped
mod Tests
use mathlib.Core.Option.{get_or}
use zimi_rs.Base.{
  ℕ, ◌≤◌, ◌<◌, ◌≡◌, refl, Bool, true, false, ◌&&◌, ◌||◌, Option, none, some, arith, ◌==◌,
  if◌then◌else◌, Result, ok, err,
}
use zimi_rs.Access.RateLimit.{RateLimiter, new, resized, try_acquire, ms_to_retry_after_secs}

-- What the handle reads of the settings cache: its generation, and the two typed keys.
pub record Settings : Type 0 where
  pub generation : ℕ
  pub rps_key : Option ℕ
  pub burst_key : Option ℕ

pub record LimiterSlot : Type 0 where
  pub gen : ℕ
  pub rps : ℕ
  pub burst : ℕ
  pub limiter : RateLimiter

abbrev pub rps_of : Settings → ℕ
rps_of s = get_or s.rps_key 100

abbrev pub burst_of : Settings → ℕ
burst_of s = get_or s.burst_key 200

-- The slow path: both keys are read, and compared with those of the slot.
pub rebuild : ℕ → Settings → Option LimiterSlot → RateLimiter
rebuild now s none = new now (rps_of s) (burst_of s)
rebuild now s (some slot) =
    if slot.rps == rps_of s && slot.burst == burst_of s
    then slot.limiter
    else resized slot.limiter (rps_of s) (burst_of s)

pub slow_path : ℕ → Settings → Option LimiterSlot → LimiterSlot
slow_path now s slot = record {
  gen = s.generation;
  rps = rps_of s;
  burst = burst_of s;
  limiter = rebuild now s slot;
}

-- `RateLimiterHandle::limiter`: the slot that the handle holds afterwards; its limiter is returned.
pub limiter : ℕ → Settings → Option LimiterSlot → LimiterSlot
unfolding slow_path
limiter now s none = slow_path now s none
limiter now s (some slot) = if slot.gen == s.generation then slot else slow_path now s (some slot)

-- The answer of the `rate_limit` middleware: the request goes on, or 429 with `Retry-After` seconds.
pub data Verdict : Type 0 where
  next : Verdict
  too_many : ℕ → Verdict

pub verdict : Result (Unit {0}) ℕ → Verdict
verdict (ok _) = next
verdict (err ms) = too_many (ms_to_retry_after_secs ms)

-- `rate_limit`, on whether the path is the health probe's. The limiter is shared, so the slot keeps
-- what the request spends.
pub rate_limit : ℕ → Settings → Bool → Option LimiterSlot → Option LimiterSlot × Verdict
rate_limit now s true slot = (slot, next)
rate_limit now s false slot =
    let held = limiter now s slot in
    let (spent, answer) = try_acquire now held.limiter in
    (some (record held { limiter = spent }), verdict answer)
