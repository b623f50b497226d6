-- ===== src/Access/Lockout/History.antt =====
-- src/access/lockout.rs: what a history of authentications does to one address, whatever the other
-- addresses do.
use zimi_rs.Base.{
  ℕ, ◌+◌, ◌-◌, ◌≤◌, ◌<◌, ◌^◌, ◌≡◌, refl, ◌∙◌, ap, ◌≢◌, Option, none, some, List, [], ◌∷◌, ltb, leb,
  length, if◌then◌else◌, arith, wrap32, ◌=?◌, lookup, lookup-insert, lookup-remove,
  length-insert-le, length-remove-le, beq_refl, ◌&&◌,
}
use zimi_rs.Net.Ip.{IpAddr, ip_keys}
use zimi_rs.Access.Lockout.{
  Entry, Table, max_failures, max_tracked, window, elapsed, lockout_remaining, make_room,
  count_failure, record_failure, record_success,
}

pub data Event : Type 0 where
  failure success : IpAddr → Event

unfoldable pub record_event : Table → ℕ × Event → Table
record_event m (now, failure ip) = record_failure now ip m
record_event m (now, success ip) = record_success ip m

unfoldable pub record_events : Table → List (ℕ × Event) → Table
record_events m [] = m
record_events m (e ∷ es) = record_events (record_event m e) es

-- The contract for one address: its count, as its own failures and successes alone make it.
unfoldable pub fail : ℕ → Option Entry → Entry
fail now none = (1, now)
fail now (some (n, first)) =
    if ltb (elapsed now first) window then (wrap32 (n + 1), first) else (1, now)

unfoldable pub observe : IpAddr → Option Entry → ℕ × Event → Option Entry
observe ip seen (now, failure j) = if j =? ip then some (fail now seen) else seen
observe ip seen (now, success j) = if j =? ip then none else seen

pub observe_all : IpAddr → Option Entry → List (ℕ × Event) → Option Entry
observe_all ip seen [] = seen
observe_all ip seen (e ∷ es) = observe_all ip (observe ip seen e) es

make_room_below : (m : Table) → length m < max_tracked → make_room m ≡ m
unfolding make_room
make_room_below m h = ground arith

count_failure-lookup :
    (now : ℕ) (j ip : IpAddr) (seen : Option Entry) (m : Table)
    → length m < max_tracked
    → lookup ip (count_failure now j seen m)
      ≡ (if j =? ip then some (fail now seen) else lookup ip m)
unfolding count_failure fail
count_failure-lookup now j ip none m h = rw (make_room_below m h) (lookup-insert j ip (1, now) m)
count_failure-lookup now j ip (some (n, first)) m h =
    rw (make_room_below m h)
      (ground (arith, lookup-insert j ip (1, now) m, lookup-insert j ip (wrap32 (n + 1), first) m))

pub record_event-lookup :
    (ip : IpAddr) (m : Table) (e : ℕ × Event)
    → length m < max_tracked
    → lookup ip (record_event m e) ≡ observe ip (lookup ip m) e
unfolding record_event record_failure record_success observe
record_event-lookup ip m (now, failure j) h =
    ground (arith, count_failure-lookup now j ip (lookup j m) m h, ip_keys.beq_iff j ip)
record_event-lookup ip m (now, success j) h = lookup-remove j ip m

length-count_failure :
    (now : ℕ) (j : IpAddr) (seen : Option Entry) (m : Table)
    → length m < max_tracked
    → length (count_failure now j seen m) ≤ length m + 1
unfolding count_failure
length-count_failure now j none m h = rw (make_room_below m h) (length-insert-le j (1, now) m)
length-count_failure now j (some (n, first)) m h =
    rw (make_room_below m h)
      (ground (arith, length-insert-le j (1, now) m, length-insert-le j (wrap32 (n + 1), first) m))

pub length-record_event :
    (m : Table) (e : ℕ × Event) → length m < max_tracked → length (record_event m e) ≤ length m + 1
unfolding record_event record_failure record_success
length-record_event m (now, failure j) h = length-count_failure now j (lookup j m) m h
length-record_event m (now, success j) h = omega (arith, length-remove-le j m)

-- While the table is not full, an address' entry is made by its own events alone: no other address
-- can raise it, clear it or push it out.
pub record_events-observe_all :
    (ip : IpAddr) (m : Table) (es : List (ℕ × Event))
    → length m + length es ≤ max_tracked
    → lookup ip (record_events m es) ≡ observe_all ip (lookup ip m) es
unfolding record_events observe_all
record_events-observe_all ip m [] h = refl
record_events-observe_all ip m (e ∷ es) h =
    record_events-observe_all ip (record_event m e) es
      (omega (arith, length-record_event m e (omega arith)))
    ∙ ap (λ s. observe_all ip s es) (record_event-lookup ip m e (omega arith))

-- The failures of one address in a history.
unfoldable pub fails : IpAddr → List (ℕ × Event) → ℕ
fails ip [] = 0
fails ip ((now, failure j) ∷ es) = (if j =? ip then 1 else 0) + fails ip es
fails ip ((now, success j) ∷ es) = fails ip es

-- All within the window that opened at `t`, and with no success of the address.
abbrev pub IsStreak : IpAddr → ℕ → List (ℕ × Event) → Type 0
IsStreak ip t [] = Unit
IsStreak ip t ((now, failure j) ∷ es) = (elapsed now t < window) × IsStreak ip t es
IsStreak ip t ((now, success j) ∷ es) = (j ≢ ip) × IsStreak ip t es

observe_all_streak :
    (ip : IpAddr) (n t : ℕ) (es : List (ℕ × Event))
    → IsStreak ip t es
    → n + length es < 2 ^ 32
    → observe_all ip (some (n, t)) es ≡ some (n + fails ip es, t)
unfolding observe_all fails observe fail
observe_all_streak ip n t [] h k = ground arith
observe_all_streak ip n t ((now, failure j) ∷ es) h k =
    ground (arith, observe_all_streak ip n t es, observe_all_streak ip (n + 1) t es)
observe_all_streak ip n t ((now, success j) ∷ es) h k =
    ground (arith, observe_all_streak ip n t es, ip_keys.beq_iff j ip)

observe_all_first :
    (ip : IpAddr) (t : ℕ) (es : List (ℕ × Event))
    → observe_all ip none ((t, failure ip) ∷ es) ≡ observe_all ip (some (1, t)) es
unfolding observe_all observe fail
observe_all_first ip t es = rw (beq_refl ip)

-- From the first failure of an address, at `t`, and in a table that is not full, it is locked out
-- exactly when its fifth failure within the window has come, and until the window that opened at
-- `t` ends; failures during the lockout do not extend it, and other addresses do not matter.
pub lockout_remaining_streak :
    (ip : IpAddr) (t now : ℕ) (m : Table) (es : List (ℕ × Event))
    → lookup ip m ≡ none
    → length m + 1 + length es ≤ max_tracked
    → IsStreak ip t es
    → lockout_remaining now ip (record_events m ((t, failure ip) ∷ es)) ≡ (
        if leb max_failures (1 + fails ip es) && ltb (elapsed now t) window
        then some (window - elapsed now t)
        else none)
unfolding lockout_remaining
lockout_remaining_streak ip t now m es fresh room streak = rw (
  record_events-observe_all ip m ((t, failure ip) ∷ es) (omega arith),
  fresh,
  observe_all_first ip t es,
  observe_all_streak ip 1 t es streak (omega arith),
)

-- A success lifts the lockout, whatever the table holds.
pub lockout_remaining_success :
    (ip : IpAddr) (now : ℕ) (m : Table)
    → lockout_remaining now ip (record_event m (now, success ip)) ≡ none
unfolding lockout_remaining record_event record_success
lockout_remaining_success ip now m = ground (arith, lookup-remove ip ip m, ip_keys.beq_iff ip ip)
