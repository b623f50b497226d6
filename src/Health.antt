-- ===== src/Health.antt =====
-- src/health.rs: the memoized probes of the health route, and the tracker of degraded branches. An
-- instant is in nanoseconds.
pub mod Probes
pub mod Degraded
pub mod Tests
use zimi_rs.Base.{
  ℕ, ◌+◌, ◌-◌, Bool, true, false, Option, none, some, List, [], ◌∷◌, map, keep, ltb, leb, wrap32,
  if◌then◌else◌, lookup, insert, Result, ok, err, Text, text_keys,
}

pub record ProbeState : Type 0 where
  pub qbit : Option (Bool × ℕ)
  pub db : Option (Bool × ℕ)

abbrev pub ttl : ℕ
ttl = 2_000_000_000

-- `HealthProbes::default`.
abbrev pub new_probes : ProbeState
new_probes = record { qbit = none; db = none }

abbrev checked_duration_since : ℕ → ℕ → Option ℕ
checked_duration_since now t = if leb t now then some (now - t) else none

abbrev is_younger : Option ℕ → Bool
is_younger none = false
is_younger (some age) = ltb age ttl

unfoldable pub fresh : Option (Bool × ℕ) → ℕ → Option Bool
fresh none now = none
fresh (some (v, t)) now = if is_younger (checked_duration_since now t) then some v else none

-- A cached answer ends the call, else what the probe does follows.
unfoldable pub cached_or : Option Bool → ProbeState → ProbeState × Bool → ProbeState × Bool
cached_or (some v) state probed = (state, v)
cached_or none state probed = probed

module _ {E : Type 0} where
  -- The answer of `app/version`, where a client is configured.
  abbrev pub is_up : Option (Result Text E) → Bool
  is_up none = false
  is_up (some (ok version)) = true
  is_up (some (err e)) = false

  -- The answer of the pool, and that of `SELECT 1` on the connection.
  abbrev pub is_alive : Result (Result (Unit {0}) E) E → Bool
  is_alive (ok (ok done)) = true
  is_alive (ok (err e)) = false
  is_alive (err e) = false

  -- The lock is released while the probe runs, so that the state is read at `now`, as `before`, and
  -- written at `later`, when it is `after`.
  unfoldable pub probe_qbit :
      (before after : ProbeState) (now later : ℕ) → Option (Result Text E) → ProbeState × Bool
  probe_qbit before after now later version =
      cached_or (fresh before.qbit now) after
        (record after { qbit = some (is_up version, later) }, is_up version)

  unfoldable pub probe_db :
      (before after : ProbeState) (now later : ℕ)
      → Result (Result (Unit {0}) E) E
      → ProbeState × Bool
  probe_db before after now later acquired =
      cached_or (fresh before.db now) after
        (record after { db = some (is_alive acquired, later) }, is_alive acquired)

-- The count of consecutive failures, and the instant of the last one.
abbrev pub Streak : Type 0
Streak = ℕ × ℕ

abbrev pub DegradationTracker : Type 0
DegradationTracker = List (Text × Streak)

-- `entry.0 += 1` and `entry.1 = now` on the entry, or on a new one of 0.
abbrev pub bump : ℕ → Option Streak → Streak
bump now none = (wrap32 (0 + 1), now)
bump now (some (count, last)) = (wrap32 (count + 1), now)

unfoldable pub record_failure : ℕ → Text → DegradationTracker → DegradationTracker
record_failure now branch m = insert branch (bump now (lookup branch m)) m

unfoldable pub reset : Text → Option Streak → DegradationTracker → DegradationTracker
reset branch none m = m
reset branch (some (count, last)) m = insert branch (0, last) m

unfoldable pub record_success : Text → DegradationTracker → DegradationTracker
record_success branch m = reset branch (lookup branch m) m

abbrev pub is_degraded : Text × Streak → Bool
is_degraded (name, (count, last)) = leb 3 count

abbrev pub with_count : Text × Streak → Text × ℕ
with_count (name, (count, last)) = (name, count)

unfoldable pub degraded_snapshot : DegradationTracker → List (Text × ℕ)
degraded_snapshot m = map with_count (keep is_degraded m)
