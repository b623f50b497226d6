-- ===== src/Access/RateLimit/Handle/Tests.antt =====
-- Runs of the limiter, and the theorems at inputs that meet their hypotheses.
use zimi_rs.Base.{
  ℕ, none, ◌==◌, if◌then◌else◌, ◌+◌, ◌-◌, ◌*◌, ◌≤◌, ◌≡◌, refl, false, some, [], ◌∷◌, List, arith,
  ok, err,
}
use zimi_rs.Access.RateLimit.{
  RateLimiter, scale, ns_per_sec, scaled_limits, new, resized, refilled, retry_hint, with_bucket,
  try_acquire, ms_to_retry_after_secs,
}
use zimi_rs.Access.RateLimit.Bounds.{IsValid, try_acquire-IsValid}
use zimi_rs.Access.RateLimit.Admission.{serve, try_acquire_retry}
use zimi_rs.Access.RateLimit.Handle.{
  Settings, LimiterSlot, limiter, rebuild, slow_path, next, too_many, verdict, rate_limit,
}
use zimi_rs.Access.RateLimit.Handle.Live.{serve_live, end_at, serve_live-le, rate_limit_retry}
use zimi_rs.Access.RateLimit.Handle.Skipped.{verdicts, verdicts_reading, verdicts-verdicts_reading}

limiter_runs : Unit {0}
unfolding scaled_limits new resized refilled retry_hint with_bucket try_acquire
    ms_to_retry_after_secs serve limiter rebuild slow_path verdict rate_limit serve_live
limiter_runs = tt

abbrev one_per_sec : RateLimiter
one_per_sec = record {
  inner = record { tokens = 0; last_refill = 0 };
  capacity = scale;
  refill_per_sec = scale;
}

one_per_sec-IsValid : IsValid one_per_sec
one_per_sec-IsValid = omega arith

-- Two requests of a burst of two pass, the third is refused, and one more passes a second later.
burst_of_two : (serve (new 5 1 2) (5 ∷ 6 ∷ 7 ∷ 1_000_000_007 ∷ [])).1 ≡ 3
unfolding limiter_runs
burst_of_two = refl

-- Ten microseconds before the token is whole.
hint_in_microseconds : (try_acquire 999_990_000 one_per_sec).1 ≡ err 11
unfolding limiter_runs
hint_in_microseconds = refl

try_acquire_retry_example :
    (try_acquire 1_000_001_000 (try_acquire 999_990_000 one_per_sec).0).1 ≡ ok tt
try_acquire_retry_example =
    try_acquire_retry one_per_sec 999_990_000 1_000_001_000 11 one_per_sec-IsValid (omega arith)
      (omega arith) hint_in_microseconds (omega arith) (omega arith)

abbrev first_settings : Settings
first_settings = record { generation = 1; rps_key = some 1; burst_key = some 1 }

abbrev second_settings : Settings
second_settings = record { generation = 2; rps_key = some 3; burst_key = some 50 }

abbrev held_slot : LimiterSlot
held_slot = record { gen = 1; rps = 1; burst = 1; limiter = one_per_sec }

-- A refusal at half a token: the client is told to wait a minute for a wait of half a second.
refused_half : (rate_limit 500_000_000 first_settings false (some held_slot)).1 ≡ too_many 60
unfolding limiter_runs
refused_half = refl

abbrev ten_short : LimiterSlot
ten_short = record held_slot {
  limiter = record one_per_sec { inner = record { tokens = 999_990; last_refill = 999_990_000 } };
}

refused_ten_short :
    rate_limit 999_990_000 first_settings false (some held_slot) ≡ (some ten_short, too_many 1)
unfolding limiter_runs
refused_ten_short = refl

rate_limit_retry_example : (rate_limit 1_000_990_000 first_settings false (some ten_short)).1 ≡ next
rate_limit_retry_example =
    rate_limit_retry 999_990_000 1_000_990_000 1 first_settings held_slot ten_short
      one_per_sec-IsValid (omega arith) (omega arith) refused_ten_short (omega arith) (omega arith)

abbrev change : List (ℕ × Settings)
change = (1_000_000_000, first_settings) ∷ (1_000_000_001, second_settings) ∷ []

serve_live-le_example :
    ns_per_sec
      * (scale * (serve_live held_slot change).1 + (serve_live held_slot change).0.limiter.tokens)
    ≤ ns_per_sec * held_slot.limiter.tokens
      + (end_at held_slot.limiter.last_refill change - held_slot.limiter.last_refill) * (3 * scale)
serve_live-le_example =
    serve_live-le 3 held_slot change one_per_sec-IsValid (omega arith) (omega arith)

change_run : (serve_live held_slot change).1 ≡ 1
unfolding limiter_runs
change_run = refl

-- The second request meets the generation of the first, and the third a new one.
abbrev three : List (ℕ × Settings)
three = (5, first_settings) ∷ (6, first_settings) ∷ (7, second_settings) ∷ []

-- The second and the third are refused: the larger burst grants nothing at once.
three_answers : verdicts none three ≡ next ∷ too_many 60 ∷ too_many 60 ∷ []
unfolding limiter_runs verdicts
three_answers = refl

verdicts-verdicts_reading_example : verdicts none three ≡ verdicts_reading none three
verdicts-verdicts_reading_example =
    verdicts-verdicts_reading (λ g. if g == 1 then 1 else 3) (λ g. if g == 1 then 1 else 50) three
      (refl, refl, (refl, refl, (refl, refl, tt)))

try_acquire-IsValid_example : IsValid (try_acquire 999_990_000 one_per_sec).0
try_acquire-IsValid_example = try_acquire-IsValid 999_990_000 one_per_sec-IsValid (omega arith)
