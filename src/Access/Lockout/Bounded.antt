-- ===== src/Access/Lockout/Bounded.antt =====
-- src/access/lockout.rs: the table stays within its cap, and only the oldest entry is evicted.
use zimi_rs.Base.{
  ℕ, ◌+◌, ◌≤◌, ◌<◌, ◌≡◌, ◌≢◌, ◌⊎◌, inl, inr, none, some, [], ◌∷◌, length, arith, lookup,
  length-insert-le, length-insert_old, length-remove-lt, Option-cases, wrap32,
}
use zimi_rs.Net.Ip.{IpAddr, ip_keys}
use zimi_rs.Access.Lockout.{
  Entry, Table, max_tracked, older, oldest, evict_entry, make_room, count_failure, record_failure,
}

-- The entry picked for eviction is in the table's list.
older_held :
    (e : IpAddr × Entry) (m : Table) (ip : IpAddr) (v : Entry)
    → oldest (e ∷ m) ≡ some (ip, v)
    → (e ≡ (ip, v)) ⊎ (oldest m ≡ some (ip, v))
unfolding oldest older
older_held e m ip v h = ground arith

oldest_nil : {ip : IpAddr} {v : Entry} → oldest [] ≡ some (ip, v) → ⊥
unfolding oldest
oldest_nil h = cc

evicted_found : (m : Table) (ip : IpAddr) (v : Entry) → oldest m ≡ some (ip, v) → lookup ip m ≢ none
unfolding lookup
evicted_found [] ip v h = absurd (oldest_nil h)
evicted_found ((j, w) ∷ m) ip v h = elim (older_held (j, w) m ip v h) [
  | inl here ↦ ground (arith, ip_keys.beq_iff j ip)
  | inr later ↦ ground (arith, evicted_found m ip v later)
]

oldest_some : (m : Table) → 0 < length m → oldest m ≢ none
unfolding oldest
oldest_some [] h = absurd (omega arith)
oldest_some (e ∷ m) h = cc

length-evict_entry : (m : Table) → 0 < length m → length (evict_entry (oldest m) m) < length m
unfolding evict_entry
length-evict_entry m h = elim (Option-cases (oldest m)) [
  | inl nothing ↦ absurd (oldest_some m h nothing)
  | inr ((ip, v), picked) ↦ rw picked (elim (Option-cases (lookup ip m)) [
    | inl absent ↦ absurd (evicted_found m ip v picked absent)
    | inr (w, found) ↦ length-remove-lt ip w m found
  ])
]

length-make_room : (m : Table) → length m ≤ max_tracked → length (make_room m) < max_tracked
unfolding make_room
length-make_room m h = ground (arith, length-evict_entry m)

-- However many addresses fail, at most `max_tracked` of them are tracked.
pub record_failure-bounded :
    (now : ℕ) (ip : IpAddr) (m : Table)
    → length m ≤ max_tracked
    → length (record_failure now ip m) ≤ max_tracked
unfolding record_failure count_failure
record_failure-bounded now ip m h = elim (Option-cases (lookup ip m)) [
  | inl absent ↦
      rw (absent, count_failure)
        (omega (arith, length-insert-le ip (1, now) (make_room m), length-make_room m h))
  | inr ((n, first), found) ↦
      rw (found, count_failure)
        (ground (
          arith,
          length-insert_old ip (wrap32 (n + 1), first) (n, first) m found,
          length-insert-le ip (1, now) (make_room m),
          length-make_room m h,
        ))
]
