-- ===== src/Access/Lockout.antt =====
-- src/access/lockout.rs: the lockout of an address after failed authentications. Instants and
-- durations are nanoseconds; the table's order stands for the hash map's order of iteration.
pub mod Bounded
pub mod History
mod Tests
use zimi_rs.Base.{
  ℕ, ◌+◌, ◌-◌, ◌*◌, Bool, true, false, ◌&&◌, Option, none, some, List, [], ◌∷◌, ltb, leb, length,
  if◌then◌else◌, is_some, wrap32, lookup, insert, remove,
}
use zimi_rs.Net.Ip.{IpAddr, ip_keys}

abbrev pub max_failures : ℕ
max_failures = 5

-- Fifteen minutes.
abbrev pub window : ℕ
window = 900 * 1_000_000_000

abbrev pub max_tracked : ℕ
max_tracked = 10_000

-- The failures counted, and the instant of the first.
abbrev pub Entry : Type 0
Entry = ℕ × ℕ

abbrev pub Table : Type 0
Table = List (IpAddr × Entry)

-- `first.elapsed()` at the instant `now`.
abbrev pub elapsed : ℕ → ℕ → ℕ
elapsed now first = now - first

abbrev pub remaining_of : ℕ → Option Entry → Option ℕ
remaining_of now none = none
remaining_of now (some (n, first)) =
    if leb max_failures n && ltb (elapsed now first) window
    then some (window - elapsed now first)
    else none

unfoldable pub lockout_remaining : ℕ → IpAddr → Table → Option ℕ
lockout_remaining now ip m = remaining_of now (lookup ip m)

pub is_locked_out : ℕ → IpAddr → Table → Bool
unfolding lockout_remaining
is_locked_out now ip m = is_some (lockout_remaining now ip m)

-- `min_by_key`: of the entries with the oldest first failure, the one met first.
older : IpAddr × Entry → Option (IpAddr × Entry) → IpAddr × Entry
older e none = e
older (ip, (n, first)) (some (ip', (n', first'))) =
    if leb first first' then (ip, (n, first)) else (ip', (n', first'))

pub oldest : Table → Option (IpAddr × Entry)
oldest [] = none
oldest (e ∷ m) = some (older e (oldest m))

evict_entry : Option (IpAddr × Entry) → Table → Table
evict_entry none m = m
evict_entry (some (ip, _)) m = remove ip m

-- The eviction of `record_failure` at the cap.
unfoldable pub make_room : Table → Table
unfolding oldest older evict_entry
make_room m = if leb max_tracked (length m) then evict_entry (oldest m) m else m

-- `record_failure`, on the address' entry.
unfoldable pub count_failure : ℕ → IpAddr → Option Entry → Table → Table
count_failure now ip none m = insert ip (1, now) (make_room m)
count_failure now ip (some (n, first)) m =
    if ltb (elapsed now first) window
    then insert ip (wrap32 (n + 1), first) m
    else insert ip (1, now) (make_room m)

unfoldable pub record_failure : ℕ → IpAddr → Table → Table
record_failure now ip m = count_failure now ip (lookup ip m) m

pub record_success : IpAddr → Table → Table
record_success ip m = remove ip m
